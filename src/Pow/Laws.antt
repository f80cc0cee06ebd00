-- ===== src/Pow/Laws.antt =====
-- What nonces and tokens are good for, and for how long.
use hzchat_server.Common.{
  ℕ, ◌+◌, ◌*◌, ◌≤◌, ◌≡◌, ◌≢◌, refl, ap, ◌∙◌, ◌↔◌, true, List, [], none, some, Option, arith, ltb,
  if◌then◌else◌, not, Option-cases, inl, inr,
}
use hzchat_server.Text.{
  Bytes, bytes_eq, bytes_eq_iff, bytes_eq_refl, lookup, insert, delete, retain, lookup-insert,
  lookup-delete, lookup-retain, KeysDistinct, insert-KeysDistinct, delete-KeysDistinct,
  retain-KeysDistinct,
}
use hzchat_server.Jwt.{second}
use hzchat_server.Pow.{
  PowManager, Validated, ProofError, generate_nonce, is_dead, nonce_invalid, nonce_consumed,
  check_proof, issued, failed, commit_proof, validate_proof, check_proof_token,
  cleanup_expired_entries, proof_token_duration,
}

-- Both stores are maps: no key twice.
pub record IsValid (m : PowManager) : Type 0 where
  pub nonces : KeysDistinct m.nonce_store
  pub tokens : KeysDistinct m.token_store

pub generate_nonce-IsValid :
    (uuid : Bytes) (now : ℕ) (m : PowManager) → IsValid m → IsValid (generate_nonce uuid now m)
unfolding generate_nonce
generate_nonce-IsValid uuid now m v = record {
  nonces = insert-KeysDistinct uuid _ m.nonce_store v.nonces;
  tokens = v.tokens;
}

pub cleanup-IsValid :
    (now : ℕ) (m : PowManager) → IsValid m → IsValid (cleanup_expired_entries now m)
unfolding cleanup_expired_entries
cleanup-IsValid now m v = record {
  nonces = retain-KeysDistinct _ m.nonce_store v.nonces;
  tokens = retain-KeysDistinct _ m.token_store v.tokens;
}

commit_issued :
    (uuid : Bytes) (now : ℕ) (nonce token : Bytes) (m m' : PowManager)
    → commit_proof uuid now nonce m ≡ issued token m'
    → (m'.nonce_store ≡ delete nonce m.nonce_store)
      × (m'.token_store ≡ insert uuid (now + proof_token_duration) m.token_store)
      × (token ≡ uuid)
unfolding commit_proof
commit_issued uuid now nonce token m m' h = ground arith

-- A nonce is good for one token, also where two requests check it at the same time: after one of them
-- has committed, the store is valid, and the commit of the other fails however much later it comes, and
-- so does every check of the nonce.
pub commit_proof_once :
    (sha256_hex : Bytes → Bytes) (uuid uuid' : Bytes) (now later : ℕ) (nonce counter token : Bytes)
    (m m' : PowManager)
    → IsValid m
    → commit_proof uuid now nonce m ≡ issued token m'
    → IsValid m'
      × (commit_proof uuid' later nonce m' ≡ failed nonce_consumed)
      × (check_proof sha256_hex later nonce counter m' ≡ some nonce_invalid)
commit_proof_once sha256_hex uuid uuid' now later nonce counter token m m' v h =
    let (n, t, _) = commit_issued uuid now nonce token m m' h in
    let gone : lookup nonce m'.nonce_store ≡ none =
      ap (lookup nonce) n
      ∙ ground (arith, lookup-delete nonce nonce m.nonce_store v.nonces, bytes_eq_refl nonce) in
    (
      record {
        nonces = rw n (delete-KeysDistinct nonce m.nonce_store v.nonces);
        tokens = rw t (insert-KeysDistinct uuid _ m.token_store v.tokens);
      },
      unfold commit_proof in ground (arith, gone),
      unfold check_proof in ground (arith, gone),
    )

-- A token that ValidateProof issues is accepted in the header at every time up to 30 seconds after
-- the clock's reading for it, and refused after that.
pub check_proof_token-issued :
    (sha256_hex : Bytes → Bytes) (uuid : Bytes) (checked_at issued_at at : ℕ)
    (nonce counter query token : Bytes) (m m' : PowManager)
    → uuid ≢ []
    → validate_proof sha256_hex uuid checked_at issued_at nonce counter m ≡ issued token m'
    → (check_proof_token token query at m' ≡ true) ↔ (at ≤ issued_at + 30 * second)
unfolding validate_proof check_proof_token
check_proof_token-issued sha256_hex uuid checked_at issued_at at nonce counter query token m m' u
      h =
    let committed : commit_proof uuid issued_at nonce m ≡ issued token m' = ground arith in
    let (_, t, same) = commit_issued uuid issued_at nonce token m m' committed in
    let found : lookup token m'.token_store ≡ some (issued_at + 30 * second) =
      rw (t, same) (lookup-insert uuid uuid _ m.token_store ∙ rw (bytes_eq_refl uuid)) in
    ground (arith, found, bytes_eq_iff token [], same)

dead_kept :
    (now later : ℕ) (k : Bytes) (store : List (Bytes × ℕ))
    → KeysDistinct store
    → now ≤ later
    → is_dead later (lookup k (retain (λ expiry. not (ltb expiry now)) store))
      ≡ is_dead later (lookup k store)
dead_kept now later k store d h =
    rw (lookup-retain (λ expiry. not (ltb expiry now)) k store d)
      (elim (Option-cases (lookup k store)) [
        | inl e ↦ rw e refl
        | inr (expiry, e) ↦ rw e (ground arith)
      ])

-- What the caller of ValidateProof is told.
abbrev pub answer : Validated → Option Bytes
answer (issued token m) = some token
answer (failed e) = none

abbrev pub refusal : Validated → Option ProofError
refusal (issued token m) = none
refusal (failed e) = some e

validate_kept :
    (sha256_hex : Bytes → Bytes) (now later issued_at : ℕ) (uuid nonce counter : Bytes)
    (m : PowManager)
    → IsValid m
    → now ≤ later
    → let validated = validate_proof sha256_hex uuid later issued_at nonce counter m in
      let validated' =
        validate_proof sha256_hex uuid later issued_at nonce counter
          (cleanup_expired_entries now m) in
      (answer validated' ≡ answer validated) × (refusal validated' ≡ refusal validated)
unfolding validate_proof check_proof commit_proof cleanup_expired_entries
validate_kept sha256_hex now later issued_at uuid nonce counter m v h =
    let kept = lookup-retain (λ expiry. not (ltb expiry now)) nonce m.nonce_store v.nonces in
    elim (Option-cases (lookup nonce m.nonce_store)) [
      | inl e ↦ (ground (arith, kept, e), ground (arith, kept, e))
      | inr (expiry, e) ↦ (ground (arith, kept, e), ground (arith, kept, e))
    ]

-- Removing expired entries is not observed by a request that begins behind it: at every later time
-- each nonce is checked, each proof is answered with the same token or refused with the same error,
-- and each token is accepted or refused, as without the removal. This says nothing of a removal that
-- runs between the two parts of ValidateProof.
pub cleanup_transparent :
    (sha256_hex : Bytes → Bytes) (now later issued_at : ℕ) (uuid nonce counter header query : Bytes)
    (m : PowManager)
    → IsValid m
    → now ≤ later
    → let validated = validate_proof sha256_hex uuid later issued_at nonce counter m in
      let validated' =
        validate_proof sha256_hex uuid later issued_at nonce counter
          (cleanup_expired_entries now m) in
      (check_proof sha256_hex later nonce counter (cleanup_expired_entries now m)
        ≡ check_proof sha256_hex later nonce counter m)
      × ((answer validated' ≡ answer validated) × (refusal validated' ≡ refusal validated))
      × (check_proof_token header query later (cleanup_expired_entries now m)
          ≡ check_proof_token header query later m)
unfolding check_proof check_proof_token cleanup_expired_entries
cleanup_transparent sha256_hex now later issued_at uuid nonce counter header query m v h =
    let token = if bytes_eq header [] then query else header in
    (
      ground (arith, dead_kept now later nonce m.nonce_store v.nonces h),
      validate_kept sha256_hex now later issued_at uuid nonce counter m v h,
      ground (arith, dead_kept now later token m.token_store v.tokens h),
    )
