-- ===== src/Users/Laws.antt =====
-- The table of users: its keys, and what each statement does to the accounts that are found.
use hzchat_server.Common.{
  ℕ, ◌≡◌, ◌≢◌, refl, sym, leb, ap, ◌∙◌, ◌⊎◌, inl, inr, Bool, true, false, List, [], ◌∷◌, Option,
  none, some, arith, if◌then◌else◌, map, Bool-cases, Option-cases,
}
use mathlib.Core.Option
use hzchat_server.Text.{Bytes, rune_count, bytes_eq, bytes_eq_iff}
use hzchat_server.Users.{
  User, Queried, row, no_rows, unique_violation, failed, is_active, has_id, is_active_id,
  is_active_name, find, is_storable, insert_user, get_user_by_id, update_where,
  update_user_password, update_user_profile, with_profile, with_password, set_password, set_profile,
}

-- No id twice, and no username twice among the rows that are not deleted.
abbrev pub IsValid : List User → Type 0
IsValid [] = Unit
IsValid (u ∷ users) =
    (find (has_id u.id) users ≡ none)
    × (is_active u ≡ true → find (is_active_name u.username) users ≡ none)
    × IsValid users

-- An update of a row keeps what the keys are made of.
pub record KeepsKeys (f : User → User) : Type 0 where
  pub id : (u : User) → (f u).id ≡ u.id
  pub username : (u : User) → (f u).username ≡ u.username
  pub deleted_at : (u : User) → (f u).deleted_at ≡ u.deleted_at

abbrev pub updated : Bytes → (User → User) → User → User
updated id f u = if is_active_id id u then f u else u

pub updated-KeepsKeys : (id : Bytes) (f : User → User) → KeepsKeys f → KeepsKeys (updated id f)
updated-KeepsKeys id f k = record {
  id = λ u. ground (arith, k.id u);
  username = λ u. ground (arith, k.username u);
  deleted_at = λ u. ground (arith, k.deleted_at u);
}

pub find-map :
    (p : User → Bool) (g : User → User) (users : List User)
    → ((u : User) → p (g u) ≡ p u)
    → find p (map g users) ≡ Option.map g (find p users)
unfolding find
find-map p g [] same = refl
find-map p g (u ∷ users) same = ground (arith, same u, find-map p g users same)

module _ {g : User → User} (k : KeepsKeys g) where
  pub has_id-KeepsKeys : (id : Bytes) (u : User) → has_id id (g u) ≡ has_id id u
  has_id-KeepsKeys id u = rw (k.id u) refl

  pub is_active_id-KeepsKeys : (id : Bytes) (u : User) → is_active_id id (g u) ≡ is_active_id id u
  is_active_id-KeepsKeys id u = rw (k.id u, k.deleted_at u) refl

  pub is_active_name-KeepsKeys :
      (name : Bytes) (u : User) → is_active_name name (g u) ≡ is_active_name name u
  is_active_name-KeepsKeys name u = rw (k.username u, k.deleted_at u) refl

  pub map-IsValid : (users : List User) → IsValid users → IsValid (map g users)
  map-IsValid [] v = tt
  map-IsValid (u ∷ users) (own, sole, v) = (
    rw (k.id u, find-map (has_id u.id) g users (has_id-KeepsKeys u.id), own) refl,
    λ a.
        rw
          (
            k.username u,
            find-map (is_active_name u.username) g users (is_active_name-KeepsKeys u.username),
            sole (rw (k.deleted_at u) at a),
          )
          refl,
    map-IsValid users v,
  )

pub update_where-IsValid :
    (id : Option Bytes) (f : User → User) (users : List User)
    → KeepsKeys f
    → IsValid users
    → IsValid (update_where id f users)
unfolding update_where
update_where-IsValid none f users k v = v
update_where-IsValid (some id) f users k v = map-IsValid (updated-KeepsKeys id f k) users v

pub insert_user-keeps {ℓ} :
    (P : List User → Type ℓ) (u : User) (users : List User)
    → P users
    → (find (has_id u.id) users ≡ none
        → find (is_active_name u.username) users ≡ none
        → P (u ∷ users))
    → P (insert_user u users).1
unfolding insert_user
insert_user-keeps P u users before after = elim (Bool-cases (is_storable u)) [
  | inr e ↦ rw (e, insert_user) before
  | inl e ↦ elim (Option-cases (find (has_id u.id) users)) [
    | inr (w, f) ↦ rw (e, f, insert_user) before
    | inl f ↦ elim (Option-cases (find (is_active_name u.username) users)) [
      | inr (w, g) ↦ rw (e, f, g, insert_user) before
      | inl g ↦ rw (e, f, g, insert_user) (after f g)
    ]
  ]
]

pub insert_user-IsValid :
    (u : User) (users : List User) → IsValid users → IsValid (insert_user u users).1
insert_user-IsValid u users v = insert_user-keeps IsValid u users v λ f g. (f, λ _. g, v)

module _ {ℓ} (P : List User → Type ℓ) where
  pub update_user_profile-keeps :
      (id : Option Bytes) (nickname avatar_url : Bytes) (now : ℕ) (users : List User)
      → P (update_where id (with_profile nickname avatar_url now) users)
      → P users
      → P (update_user_profile id nickname avatar_url now users).1
  unfolding update_user_profile set_profile
  update_user_profile-keeps id nickname avatar_url now users after before =
      by_row (get_user_by_id id users) (leb (rune_count nickname) 50) refl
    where
      by_row :
          (q : Queried User) (fits : Bool)
          → leb (rune_count nickname) 50 ≡ fits
          → P (set_profile id nickname avatar_url now users q).1
      by_row (row u) true e = rw (e) after
      by_row (row u) false e = rw (e) before
      by_row no_rows _ _ = before
      by_row unique_violation _ _ = before
      by_row failed _ _ = before

  pub update_user_password-keeps :
      (id : Option Bytes) (password_hash : Bytes) (now : ℕ) (users : List User)
      → P (update_where id (with_password password_hash now) users)
      → P users
      → P (update_user_password id password_hash now users).1
  unfolding update_user_password set_password
  update_user_password-keeps id password_hash now users after before =
      by_row (get_user_by_id id users) (leb (rune_count password_hash) 255) refl
    where
      by_row :
          (q : Queried User) (fits : Bool)
          → leb (rune_count password_hash) 255 ≡ fits
          → P (set_password id password_hash now users q).1
      by_row (row u) true e = rw (e) after
      by_row (row u) false e = rw (e) before
      by_row no_rows _ _ = before
      by_row unique_violation _ _ = before
      by_row failed _ _ = before

pub find-holds :
    (p : User → Bool) (users : List User) (u : User) → find p users ≡ some u → p u ≡ true
unfolding find
find-holds p [] u e = absurd (cc e)
find-holds p (v ∷ users) u e = elim (Bool-cases (p v)) [
  | inl here ↦ ground (arith, here, e)
  | inr there ↦ find-holds p users u (ground (arith, there, e))
]

find-has_id :
    (users : List User) (w : User) (id : Bytes)
    → find (is_active_id id) users ≡ some w
    → find (has_id id) users ≢ none
unfolding find
find-has_id [] w id e h = cc e
find-has_id (u ∷ users) w id e h = elim (Bool-cases (has_id id u)) [
  | inl here ↦ ground (arith, here, h)
  | inr there ↦ find-has_id users w id (ground (arith, there, e)) (ground (arith, there, h))
]

pub find-insert_user :
    (u w : User) (users : List User) (id : Bytes)
    → find (is_active_id id) users ≡ some w
    → find (is_active_id id) (insert_user u users).1 ≡ some w
unfolding find
find-insert_user u w users id e =
    insert_user-keeps (λ v. find (is_active_id id) v ≡ some w) u users e
      λ fresh _. elim (Bool-cases (bytes_eq u.id id)) [
        | inl same ↦
            absurd (find-has_id users w id e (rw (sym ((bytes_eq_iff u.id id).0 same)) fresh))
        | inr other ↦ ground (arith, other, e)
      ]

-- An update of one row keeps where every row is found, and the row by itself.
pub find-update_where :
    (id : Option Bytes) (f : User → User) (other : Bytes) (users : List User) (u : User)
    → KeepsKeys f
    → find (is_active_id other) users ≡ some u
    → (w : User) × (find (is_active_id other) (update_where id f users) ≡ some w)
      × ((w ≡ u) ⊎ ((id ≡ some other) × (w ≡ f u)))
unfolding update_where
find-update_where none f other users u k e = (u, e, inl refl)
find-update_where (some id) f other users u k e = (
  updated id f u,
  find-map (is_active_id other) (updated id f) users
        (is_active_id-KeepsKeys (updated-KeepsKeys id f k) other)
      ∙ ap (Option.map (updated id f)) e,
  elim (Bool-cases (is_active_id id u)) [
    | inl same ↦ inr (
      ground (
        arith,
        same,
        find-holds (is_active_id other) users u e,
        bytes_eq_iff u.id id,
        bytes_eq_iff u.id other,
      ),
      ground (arith, same),
    )
    | inr another ↦ inl (ground (arith, another))
  ],
)
