-- ===== src/Pow.antt =====
-- internal/pkg/pow/pow.go: nonces, proofs of work and proof tokens. Times are nanoseconds since the
-- epoch. The clock's readings and the generated uuids are arguments, and so is SHA-256 in hexadecimal.
pub mod Laws
mod Tests
use hzchat_server.Common.{
  ℕ, ◌+◌, ◌*◌, Bool, true, false, ◌||◌, List, [], ◌∷◌, ◌++◌, Option, none, some, ltb, if◌then◌else◌,
  not, replicate,
}
use hzchat_server.Text.{Bytes, bytes_eq, has_prefix, lookup, insert, delete, retain}
use hzchat_server.Jwt.{second, minute}

abbrev pub proof_token_duration : ℕ
proof_token_duration = 30 * second

abbrev pub nonce_expiry_duration : ℕ
nonce_expiry_duration = 5 * minute

pub record PowManager : Type 0 where
  pub difficulty : ℕ
  pub nonce_store : List (Bytes × ℕ)
  pub token_store : List (Bytes × ℕ)

-- NewPoWManager
unfoldable pub new_pow_manager : ℕ → PowManager
new_pow_manager difficulty = record { difficulty = difficulty; nonce_store = []; token_store = [] }

-- GenerateNonce, with the uuid that it draws.
unfoldable pub generate_nonce : Bytes → ℕ → PowManager → PowManager
generate_nonce uuid now m = record m {
  nonce_store = insert uuid (now + nonce_expiry_duration) m.nonce_store;
}

-- !ok || time.Now().After(expiryTime)
abbrev pub is_dead : ℕ → Option ℕ → Bool
is_dead now none = true
is_dead now (some expiry) = ltb expiry now

pub data ProofError : Type 0 where
  nonce_invalid : ProofError
  too_easy : ProofError
  nonce_consumed : ProofError

-- ValidateProof before it takes the write lock; other requests may run behind it.
unfoldable pub check_proof : (Bytes → Bytes) → ℕ → Bytes → Bytes → PowManager → Option ProofError
check_proof sha256_hex now nonce counter m =
    if is_dead now (lookup nonce m.nonce_store)
    then some nonce_invalid
    else if not (has_prefix (sha256_hex (nonce ++ counter)) (replicate m.difficulty b'0'))
    then some too_easy
    else none

pub data Validated : Type 0 where
  issued : Bytes → PowManager → Validated
  failed : ProofError → Validated

-- ValidateProof under the write lock, with the token that it draws.
unfoldable pub commit_proof : Bytes → ℕ → Bytes → PowManager → Validated
commit_proof uuid now nonce m = elim (lookup nonce m.nonce_store) [
  | none ↦ failed nonce_consumed
  | some _ ↦ issued uuid (record m {
    nonce_store = delete nonce m.nonce_store;
    token_store = insert uuid (now + proof_token_duration) m.token_store;
  })
]

-- ValidateProof, where no other request runs between its two parts.
unfoldable pub validate_proof :
    (Bytes → Bytes) → Bytes → ℕ → ℕ → Bytes → Bytes → PowManager → Validated
validate_proof sha256_hex uuid checked_at issued_at nonce counter m =
    elim (check_proof sha256_hex checked_at nonce counter m) [
      | some e ↦ failed e
      | none ↦ commit_proof uuid issued_at nonce m
    ]

-- CheckProofToken, with the header's and the query's value.
unfoldable pub check_proof_token : Bytes → Bytes → ℕ → PowManager → Bool
check_proof_token header query now m =
    let token = if bytes_eq header [] then query else header in
    if bytes_eq token [] then false else not (is_dead now (lookup token m.token_store))

-- One round of cleanupExpiredEntries.
unfoldable pub cleanup_expired_entries : ℕ → PowManager → PowManager
cleanup_expired_entries now m = record m {
  nonce_store = retain (λ expiry. not (ltb expiry now)) m.nonce_store;
  token_store = retain (λ expiry. not (ltb expiry now)) m.token_store;
}
