-- ===== src/Chat/Client/Receiving.antt =====
-- The loop of handleAttachments over the attachments: which of them it accepts.
use hzchat_server.Common.{
  ℕ, ◌≡◌, refl, ap, ◌∙◌, ◌↔◌, List, [], ◌∷◌, ◌++◌, none, arith, All, Bool-cases, Option-cases, inl,
  inr, map,
}
use hzchat_server.Text.{Bytes, has_prefix, has_prefix_iff}
use hzchat_server.Chat.Attachment.{Attachment, validate_file_type}
use hzchat_server.Chat.Client.Inbound.{
  Checked, accepted, refused, check_attachments, check_one, cons_accepted, key_prefix,
}

-- What an attachment must be: its key lies in the room, and its type is one of the image types.
abbrev pub IsAllowed : (ℕ → ℕ) → Bytes → Attachment → Type 0
IsAllowed table code a =
    ((rest : Bytes) × (a.key ≡ key_prefix code ++ rest))
    × (validate_file_type table a.name a.mime_type ≡ none)

abbrev pub without_meta : Attachment → Attachment
without_meta a = record a { meta = none }

module _ (table : ℕ → ℕ) (code : Bytes) where
  check_one_allowed :
      (a : Attachment) (later : Checked)
      → IsAllowed table code a
      → check_one table (key_prefix code) a later ≡ cons_accepted (without_meta a) later
  unfolding check_one
  check_one_allowed a later (inside, typed) =
      ground (arith, (has_prefix_iff a.key (key_prefix code)).1 inside, typed)

  check_one_accepted :
      (a : Attachment) (later : Checked) (cleared : List Attachment)
      → check_one table (key_prefix code) a later ≡ accepted cleared
      → IsAllowed table code a × (cons_accepted (without_meta a) later ≡ accepted cleared)
  unfolding check_one
  check_one_accepted a later cleared h = elim (Bool-cases (has_prefix a.key (key_prefix code))) [
    | inl inside ↦ elim (Option-cases (validate_file_type table a.name a.mime_type)) [
      | inl typed ↦ (
        ((has_prefix_iff a.key (key_prefix code)).0 inside, typed),
        ground (arith, inside, typed),
      )
      | inr (e, bad) ↦ absurd (ground (arith, inside, bad))
    ]
    | inr outside ↦ absurd (ground (arith, outside))
  ]

  cons_accepted-inv :
      (a : Attachment) (later : Checked) (cleared : List Attachment)
      → cons_accepted a later ≡ accepted cleared
      → (rest : List Attachment) × (later ≡ accepted rest) × (cleared ≡ a ∷ rest)
  unfolding cons_accepted
  cons_accepted-inv a (accepted rest) cleared h = (rest, refl, ground arith)
  cons_accepted-inv a (refused e) cleared h = cc

  -- The loop over the attachments accepts exactly the lists of allowed attachments, and returns them in
  -- order with the client's meta data removed.
  pub check_attachments_iff :
      (attachments cleared : List Attachment)
      → (check_attachments table (key_prefix code) attachments ≡ accepted cleared)
        ↔ (All (IsAllowed table code) attachments × (cleared ≡ map without_meta attachments))
  unfolding check_attachments cons_accepted
  check_attachments_iff [] cleared = (λ h. (tt, ground arith), λ (_, e). rw e refl)
  check_attachments_iff (a ∷ rest) cleared = (
    λ h.
        let later = check_attachments table (key_prefix code) rest in
        let (mine, e) = check_one_accepted a later cleared h in
        let (tail, f, g) = cons_accepted-inv (without_meta a) later cleared e in
        let (others, same) = (check_attachments_iff rest tail).0 f in
        ((mine, others), g ∙ ap (◌∷◌ (without_meta a)) same),
    λ ((mine, others), e).
        let later = check_attachments table (key_prefix code) rest in
        check_one_allowed a later mine
        ∙ rw ((check_attachments_iff rest (map without_meta rest)).1 (others, refl), e) refl,
  )
