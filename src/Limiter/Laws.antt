-- ===== src/Limiter/Laws.antt =====
-- The map of ip_limiter.go: which limiter an address gets.
use hzchat_server.Common.{
  All, false, ℕ, ◌<◌, ◌≡◌, refl, sym, ap, ◌∙◌, Bool, List, [], ◌∷◌, none, some, arith,
  if◌then◌else◌, not, Option-cases, Bool-cases, inl, inr,
}
use hzchat_server.Text.{
  Bytes, bytes_eq, bytes_eq_iff, lookup, retain, lookup-insert, lookup-retain, KeysDistinct,
  insert-KeysDistinct, retain-KeysDistinct,
}
use hzchat_server.Limiter.{
  IpRateLimiter, new_ip_rate_limiter, find_limiter, create_limiter, get_limiter, clean_up_visitors,
}

-- No address twice, every limiter of the map is allocated, and no two addresses share one.
pub record IsValid (i : IpRateLimiter) : Type 0 where
  pub distinct : KeysDistinct i.limits
  pub allocating : (ip : Bytes) (l : ℕ) → lookup ip i.limits ≡ some l → l < i.allocated
  pub own :
      (ip ip' : Bytes) (l : ℕ)
      → lookup ip i.limits ≡ some l
      → lookup ip' i.limits ≡ some l
      → ip ≡ ip'

pub new_ip_rate_limiter-IsValid : IsValid new_ip_rate_limiter
unfolding new_ip_rate_limiter lookup
new_ip_rate_limiter-IsValid = record {
  distinct = tt;
  allocating = λ ip l h. cc;
  own = λ ip ip' l h h'. cc;
}

-- What other goroutines do under the write lock in the meantime: a request of an address, or a round
-- of cleanUpVisitors, with the limiters that it finds idle.
pub data Turn : Type 0 where
  asks : Bytes → Turn
  cleans : (ℕ → Bool) → Turn

abbrev pub run_turn : Turn → IpRateLimiter → IpRateLimiter
run_turn (asks ip) i = (create_limiter ip i).1
run_turn (cleans is_idle) i = clean_up_visitors is_idle i

abbrev pub run_turns : List Turn → IpRateLimiter → IpRateLimiter
run_turns [] i = i
run_turns (t ∷ turns) i = run_turns turns (run_turn t i)

-- No round of cleanUpVisitors among these turns finds the limiter idle.
abbrev pub IsBusy : ℕ → Turn → Type 0
IsBusy l (asks ip) = Unit {0}
IsBusy l (cleans is_idle) = is_idle l ≡ false

create_limiter-lookup :
    (ip other : Bytes) (i : IpRateLimiter)
    → lookup other (create_limiter ip i).1.limits
      ≡ (if bytes_eq ip other then some (create_limiter ip i).0 else lookup other i.limits)
unfolding create_limiter
create_limiter-lookup ip other i = elim (Option-cases (lookup ip i.limits)) [
  | inl h ↦ rw (h, create_limiter) (lookup-insert ip other i.allocated i.limits)
  | inr (l, h) ↦ rw (h, create_limiter) (ground (arith, h, bytes_eq_iff ip other))
]

pub create_limiter-IsValid :
    (ip : Bytes) (i : IpRateLimiter) → IsValid i → IsValid (create_limiter ip i).1
unfolding create_limiter
create_limiter-IsValid ip i v = elim (Option-cases (lookup ip i.limits)) [
  | inr (l, h) ↦ rw (h, create_limiter) v
  | inl h ↦
      rw (h, create_limiter)
        (record {
          distinct = insert-KeysDistinct ip i.allocated i.limits v.distinct;
          allocating = λ other l e.
              ground (arith, lookup-insert ip other i.allocated i.limits, v.allocating other l, e);
          own = λ a b l e f. ground (
            arith,
            lookup-insert ip a i.allocated i.limits,
            lookup-insert ip b i.allocated i.limits,
            v.allocating a l,
            v.allocating b l,
            v.own a b l,
            bytes_eq_iff ip a,
            bytes_eq_iff ip b,
            e,
            f,
          );
        })
]

create_limiter-stays :
    (j ip : Bytes) (l : ℕ) (i : IpRateLimiter)
    → lookup ip i.limits ≡ some l
    → (if bytes_eq j ip then some (create_limiter j i).0 else lookup ip i.limits) ≡ some l
unfolding create_limiter
create_limiter-stays j ip l i h = ground (arith, bytes_eq_iff j ip, h)

clean_up_visitors-IsValid :
    (is_idle : ℕ → Bool) (i : IpRateLimiter) → IsValid i → IsValid (clean_up_visitors is_idle i)
unfolding clean_up_visitors
clean_up_visitors-IsValid is_idle i v =
    let keep = λ (l : ℕ). not (is_idle l) in
    let law = λ (ip : Bytes). lookup-retain keep ip i.limits v.distinct in
    record {
      distinct = retain-KeysDistinct keep i.limits v.distinct;
      allocating = λ ip l h. ground (arith, law ip, v.allocating ip l, h);
      own = λ a b l e f. ground (arith, law a, law b, v.own a b l, e, f);
    }

run_turn-IsValid : (t : Turn) (i : IpRateLimiter) → IsValid i → IsValid (run_turn t i)
run_turn-IsValid (asks ip) i v = create_limiter-IsValid ip i v
run_turn-IsValid (cleans is_idle) i v = clean_up_visitors-IsValid is_idle i v

run_turns-IsValid :
    (turns : List Turn) (i : IpRateLimiter) → IsValid i → IsValid (run_turns turns i)
run_turns-IsValid [] i v = v
run_turns-IsValid (t ∷ turns) i v = run_turns-IsValid turns (run_turn t i) (run_turn-IsValid t i v)

run_turn-stays :
    (t : Turn) (ip : Bytes) (l : ℕ) (i : IpRateLimiter)
    → IsValid i
    → IsBusy l t
    → lookup ip i.limits ≡ some l
    → lookup ip (run_turn t i).limits ≡ some l
unfolding clean_up_visitors
run_turn-stays (asks j) ip l i v busy h =
    create_limiter-lookup j ip i ∙ create_limiter-stays j ip l i h
run_turn-stays (cleans is_idle) ip l i v busy h =
    ground (arith, lookup-retain (λ m. not (is_idle m)) ip i.limits v.distinct, h, busy)

run_turns-stays :
    (turns : List Turn) (ip : Bytes) (l : ℕ) (i : IpRateLimiter)
    → IsValid i
    → All (IsBusy l) turns
    → lookup ip i.limits ≡ some l
    → lookup ip (run_turns turns i).limits ≡ some l
run_turns-stays [] ip l i v busy h = h
run_turns-stays (t ∷ turns) ip l i v (here, there) h =
    run_turns-stays turns ip l (run_turn t i) (run_turn-IsValid t i v) there
      (run_turn-stays t ip l i v here h)

create_limiter-found :
    (ip : Bytes) (l : ℕ) (i : IpRateLimiter)
    → lookup ip i.limits ≡ some l
    → (create_limiter ip i).0 ≡ l
unfolding create_limiter
create_limiter-found ip l i h = rw (h, create_limiter) refl

get_limiter-found :
    (ip : Bytes) (l : ℕ) (i : IpRateLimiter)
    → lookup ip i.limits ≡ some l
    → (get_limiter ip i).0 ≡ l
unfolding get_limiter find_limiter
get_limiter-found ip l i h = rw (h, get_limiter) refl

get_limiter-missing :
    (ip : Bytes) (i : IpRateLimiter)
    → lookup ip i.limits ≡ none
    → (get_limiter ip i).0 ≡ i.allocated
unfolding get_limiter find_limiter create_limiter
get_limiter-missing ip i h = rw (h, get_limiter) (rw (h, create_limiter) refl)

-- Two requests of one address share a limiter, as long as no removal meanwhile finds it idle: a
-- limiter that one of them got under the write lock is what the other gets, although it read the map
-- before, whatever limiters other requests make in between and whatever other limiters are removed;
-- and an address with another limiter has a different one.
pub get_limiter_shared :
    (ip : Bytes) (turns : List Turn) (i : IpRateLimiter)
    → IsValid i
    → All (IsBusy (create_limiter ip i).0) turns
    → let made = create_limiter ip i in
      let later = run_turns turns made.1 in
      ((create_limiter ip later).0 ≡ made.0)
      × ((get_limiter ip later).0 ≡ made.0)
      × ((other : Bytes) → (get_limiter other later).0 ≡ made.0 → other ≡ ip)
get_limiter_shared ip turns i v busy =
    let made = create_limiter ip i in
    let later = run_turns turns made.1 in
    let there : lookup ip made.1.limits ≡ some made.0 =
      create_limiter-lookup ip ip i ∙ ground (arith, bytes_eq_iff ip ip) in
    let fresh = create_limiter-IsValid ip i v in
    let stays : lookup ip later.limits ≡ some made.0 =
      run_turns-stays turns ip made.0 made.1 fresh busy there in
    let valid = run_turns-IsValid turns made.1 fresh in
    let low = valid.allocating ip made.0 stays in
    (
      create_limiter-found ip made.0 later stays,
      get_limiter-found ip made.0 later stays,
      λ other e. elim (Option-cases (lookup other later.limits)) [
        | inl h ↦ let g = get_limiter-missing other later h in absurd (omega arith)
        | inr (l, h) ↦
            let g = get_limiter-found other l later h in
            valid.own other ip made.0 (h ∙ ap some (sym g ∙ e)) stays
      ],
    )

-- The removal of idle limiters keeps the map valid and forgets exactly them: an address keeps its
-- limiter if that is not idle, and is given a new one, which no address had, if it is.
pub clean_up_visitors_lem :
    (is_idle : ℕ → Bool) (ip : Bytes) (l : ℕ) (i : IpRateLimiter)
    → IsValid i
    → find_limiter ip i ≡ some l
    → IsValid (clean_up_visitors is_idle i)
      × ((get_limiter ip (clean_up_visitors is_idle i)).0 ≡ (if is_idle l then i.allocated else l))
      × (l < i.allocated)
unfolding find_limiter clean_up_visitors
clean_up_visitors_lem is_idle ip l i v h =
    let keep = λ (m : ℕ). not (is_idle m) in
    let law = lookup-retain keep ip i.limits v.distinct in
    let after : IpRateLimiter = record i { limits = retain keep i.limits } in
    (
      clean_up_visitors-IsValid is_idle i v,
      elim (Bool-cases (is_idle l)) [
        | inl idle ↦ ground (arith, get_limiter-missing ip after, law, h, idle)
        | inr busy ↦ ground (arith, get_limiter-found ip l after, law, h, busy)
      ],
      v.allocating ip l h,
    )
