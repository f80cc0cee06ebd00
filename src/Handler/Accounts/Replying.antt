-- ===== src/Handler/Accounts/Replying.antt =====
-- A handler that replied, read backwards: what each of its steps must have met.
use hzchat_server.Common.{
  ℕ, suc, ◌≡◌, subst, refl, sym, ap, ◌∙◌, ◌⊎◌, inl, inr, Bool, true, false, List, Option, none,
  some, arith, Bool-cases,
}
use hzchat_server.Text.{Bytes, bytes, bytes_eq}
use hzchat_server.Jwt
use hzchat_server.Http.{Bound, bound, unbound}
use hzchat_server.Users
use hzchat_server.Users.{User, Queried, row, no_rows, unique_violation}
use hzchat_server.Handler.Assets.{Normalized, key, invalid_url}
use hzchat_server.Handler.Accounts.{
  Store, Services, Answer, replied, refused, crashed, Action, ◌>>=◌, refuse_if, from_bound,
  from_row, or_refuse, reply, tick, query,
}
use hzchat_server.Handler.Accounts.Passwords.{registered_identity}
use hzchat_server.Handler.Accounts.Profiles.{from_normalized}
use hzchat_server.Handler.Accounts.Steps.{query_up, query_down}

-- The action ends in this state with a reply.
pub record Replies {A : Type 0} (m : Action A) (s : Store) (a : A) (v : Store) : Type 0 where
  pub runs : m s ≡ (replied a, v)

pub Replies-bind :
    {A B : Type 0} {m : Action A} {k : A → Action B} {s : Store} {b : B} {s' : Store}
    → Replies (m >>= k) s b s'
    → (a : A) × (v : Store) × Replies m s a v × Replies (k a) v b s'
unfolding ◌>>=◌
Replies-bind {A} {B} {m} {k} {s} {b} {s'} h = go (m s) refl h.runs
  where
    go :
        (q : Answer A × Store)
        → m s ≡ q
        → (elim q.0 as (λ _. Answer B × Store) [
          | replied a ↦ k a q.1
          | refused e ↦ (refused e, q.1)
          | crashed ↦ (crashed, q.1)
        ])
          ≡ (replied b, s')
        → (a : A) × (v : Store) × Replies m s a v × Replies (k a) v b s'
    go (replied a, v) e h = (a, v, record { runs = e }, record { runs = h })
    go (refused x, v) e h = absurd (cc h)
    go (crashed, v) e h = absurd (cc h)

module _ {s v : Store} where
  Replies-refuse_if :
      (test : Bool) (code : ℕ) (a : Unit {0})
      → Replies (refuse_if test code) s a v
      → (test ≡ false) × (v ≡ s)
  unfolding refuse_if
  Replies-refuse_if true code a h = absurd (cc h.runs)
  Replies-refuse_if false code a h = (refl, sym (ap (λ q. q.1) h.runs))

  pub Replies-or_refuse :
      {A : Type 0} (code : ℕ) (o : Option A) {a : A}
      → Replies (or_refuse code o) s a v
      → (o ≡ some a) × (v ≡ s)
  unfolding or_refuse
  Replies-or_refuse code none h = absurd (cc h.runs)
  Replies-or_refuse code (some b) h = (cc h.runs, sym (ap (λ q. q.1) h.runs))

  Replies-from_bound :
      {A : Type 0} (b : Bound A) {a : A} → Replies (from_bound b) s a v → (b ≡ bound a) × (v ≡ s)
  unfolding from_bound
  Replies-from_bound (bound b) h = (cc h.runs, sym (ap (λ q. q.1) h.runs))
  Replies-from_bound (unbound e) h = absurd (cc h.runs)

  Replies-from_row :
      {A : Type 0} (code : ℕ) (q : Queried A) {a : A}
      → Replies (from_row code q) s a v
      → (q ≡ row a) × (v ≡ s)
  unfolding from_row
  Replies-from_row code (row b) h = (cc h.runs, sym (ap (λ q. q.1) h.runs))
  Replies-from_row code no_rows h = absurd (cc h.runs)
  Replies-from_row code unique_violation h = absurd (cc h.runs)
  Replies-from_row code Users.failed h = absurd (cc h.runs)

  Replies-from_normalized :
      (n : Normalized) {k : Bytes} → Replies (from_normalized n) s k v → (n ≡ key k) × (v ≡ s)
  unfolding from_normalized
  Replies-from_normalized (key k) h = (cc h.runs, sym (ap (λ q. q.1) h.runs))
  Replies-from_normalized invalid_url h = absurd (cc h.runs)

  Replies-registered_identity :
      (o : Option Jwt.Payload) (i : Jwt.Payload)
      → Replies (registered_identity o) s i v
      → (o ≡ some i) × (bytes_eq i.user_type (bytes "registered") ≡ true) × (v ≡ s)
  unfolding registered_identity
  Replies-registered_identity none i h = absurd (cc h.runs)
  Replies-registered_identity (some j) i h =
      elim (Bool-cases (bytes_eq j.user_type (bytes "registered"))) [
        | inl e ↦ (ground (arith, e, h.runs), ground (arith, e, h.runs), ground (arith, e, h.runs))
        | inr e ↦ absurd (ground (arith, e, h.runs))
      ]

  pub Replies-reply : {A : Type 0} (a : A) {b : A} → Replies (reply a) s b v → (b ≡ a) × (v ≡ s)
  Replies-reply a h = (sym (cc h.runs), sym (ap (λ q. q.1) h.runs))

  Replies-tick :
      {n : ℕ} → Replies tick s n v → (n ≡ s.ticks) × (v ≡ record s { ticks = suc s.ticks })
  unfolding tick
  Replies-tick h = (sym (cc h.runs), sym (ap (λ q. q.1) h.runs))

  -- The query has reached the database, or has failed.
  Replies-query :
      {A : Type 0} (sv : Services) (q : ℕ → List User → Queried A × List User) {a : Queried A}
      → Replies (query sv q) s a v
      → ((a ≡ (q (sv.now s.ticks) s.users).0)
          × (v ≡ record s { users = (q (sv.now s.ticks) s.users).1; ticks = suc s.ticks }))
        ⊎ (a ≡ Users.failed)
  Replies-query sv q h = elim (Bool-cases (sv.fails s.ticks)) [
    | inl down ↦ inr (cc (h.runs, query_down sv q s down))
    | inr up ↦ let same = sym h.runs ∙ query_up sv q s up in inl (cc same, ap (λ p. p.1) same)
  ]

-- A step that keeps the state, and the handler behind it.
pub behind :
    {A B : Type 0} {m : Action A} {k : A → Action B} {s s' : Store} {b : B} (Q : A → Type 0)
    → ((a : A) (v : Store) → Replies m s a v → Q a × (v ≡ s))
    → Replies (m >>= k) s b s'
    → (a : A) × Q a × Replies (k a) s b s'
behind {A} {B} {m} {k} {s} {s'} {b} Q met h = go (Replies-bind h)
  where
    go :
        ((a : A) × (v : Store) × Replies m s a v × Replies (k a) v b s')
        → (a : A) × Q a × Replies (k a) s b s'
    go (a, v, first, rest) =
        let (q, same) = met a v first in (a, q, subst (λ t. Replies (k a) t b s') same rest)

module _ {s s' : Store} {B : Type 0} {b : B} where
  pub behind-refuse_if :
      (test : Bool) (code : ℕ) {k : Action B}
      → Replies (refuse_if test code >>= λ _. k) s b s'
      → (test ≡ false) × Replies k s b s'
  behind-refuse_if test code h =
      let (_, q, rest) = behind (λ _. test ≡ false) (λ a v. Replies-refuse_if test code a) h in
      (q, rest)

  pub behind-or_refuse :
      {A : Type 0} (code : ℕ) (o : Option A) {k : A → Action B}
      → Replies (or_refuse code o >>= k) s b s'
      → (a : A) × (o ≡ some a) × Replies (k a) s b s'
  behind-or_refuse code o = behind (λ a. o ≡ some a) (λ a v. Replies-or_refuse code o)

  pub behind-from_bound :
      {A : Type 0} (x : Bound A) {k : A → Action B}
      → Replies (from_bound x >>= k) s b s'
      → (a : A) × (x ≡ bound a) × Replies (k a) s b s'
  behind-from_bound x = behind (λ a. x ≡ bound a) (λ a v. Replies-from_bound x)

  pub behind-from_row :
      {A : Type 0} (code : ℕ) (q : Queried A) {k : A → Action B}
      → Replies (from_row code q >>= k) s b s'
      → (a : A) × (q ≡ row a) × Replies (k a) s b s'
  behind-from_row code q = behind (λ a. q ≡ row a) (λ a v. Replies-from_row code q)

  pub behind-from_normalized :
      (n : Normalized) {k : Bytes → Action B}
      → Replies (from_normalized n >>= k) s b s'
      → (a : Bytes) × (n ≡ key a) × Replies (k a) s b s'
  behind-from_normalized n = behind (λ a. n ≡ key a) (λ a v. Replies-from_normalized n)

  pub behind-registered_identity :
      (o : Option Jwt.Payload) {k : Jwt.Payload → Action B}
      → Replies (registered_identity o >>= k) s b s'
      → (i : Jwt.Payload) × ((o ≡ some i) × (bytes_eq i.user_type (bytes "registered") ≡ true))
        × Replies (k i) s b s'
  behind-registered_identity o =
      behind (λ i. (o ≡ some i) × (bytes_eq i.user_type (bytes "registered") ≡ true))
        (λ i v h. let (p, q, r) = Replies-registered_identity o i h in ((p, q), r))

  pub behind-tick :
      (k : ℕ → Action B)
      → Replies (tick >>= k) s b s'
      → Replies (k s.ticks) (record s { ticks = suc s.ticks }) b s'
  unfolding tick ◌>>=◌
  behind-tick k h = record { runs = h.runs }

  pub behind-step :
      {A : Type 0} (m : Action A) (k : A → Action B) {a : A} {t : Store}
      → m s ≡ (replied a, t)
      → Replies (m >>= k) s b s'
      → Replies (k a) t b s'
  behind-step {A} m k {a} {t} e h =
      let (c, v, first, rest) = Replies-bind h in
      let same : ◌≡◌ {A = Answer A × Store} (replied c, v) (replied a, t) = sym first.runs ∙ e in
      subst (λ x. Replies (k x) t b s') (cc same)
        (subst (λ x. Replies (k c) x b s') (ap (λ q. q.1) same) rest)

  -- The query has reached the database, or the handler goes on with its failure.
  pub behind-query :
      {A : Type 0} (sv : Services) (q : ℕ → List User → Queried A × List User)
      (k : Queried A → Action B)
      → Replies (query sv q >>= k) s b s'
      → Replies
          (k (q (sv.now s.ticks) s.users).0)
          (record s { users = (q (sv.now s.ticks) s.users).1; ticks = suc s.ticks })
          b
          s'
        ⊎ Replies (k Users.failed) (record s { ticks = suc s.ticks }) b s'
  behind-query sv q k h = elim (Bool-cases (sv.fails s.ticks)) [
    | inl down ↦ inr (behind-step _ _ (query_down sv q s down) h)
    | inr up ↦ inl (behind-step _ _ (query_up sv q s up) h)
  ]
