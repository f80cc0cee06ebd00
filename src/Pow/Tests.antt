-- ===== src/Pow/Tests.antt =====
-- The laws of proofs of work at a manager that has issued one nonce.
use hzchat_server.Common.{◌*◌, ◌+◌, ◌≡◌, ◌≤◌, ◌↔◌, refl, true, [], ◌∷◌, some, arith}
use hzchat_server.Text.{Bytes, bytes, lookup, bytes_eq, insert, delete, has_prefix}
use hzchat_server.Jwt.{second, minute}
use hzchat_server.Pow.{
  PowManager, Validated, check_proof, commit_proof, validate_proof, check_proof_token,
  cleanup_expired_entries, issued, failed, nonce_consumed, nonce_invalid,
}
use hzchat_server.Pow.Laws.{
  IsValid, commit_proof_once, check_proof_token-issued, cleanup_transparent, answer, refusal,
}

abbrev asked : PowManager
asked = record { difficulty = 1; nonce_store = (bytes "n", 5 * minute) ∷ []; token_store = [] }

asked-IsValid : IsValid asked
unfolding lookup
asked-IsValid = record { nonces = (refl, tt); tokens = tt }

abbrev answered : PowManager
answered = record { difficulty = 1; nonce_store = []; token_store = (bytes "t", 40 * second) ∷ [] }

abbrev hash : Bytes → Bytes
hash b = bytes "0f"

commits : commit_proof (bytes "t") (10 * second) (bytes "n") asked ≡ issued (bytes "t") answered
unfolding commit_proof lookup insert delete bytes_eq
commits = refl

commit_proof_once_example :
    IsValid answered
    × (commit_proof (bytes "u") (11 * second) (bytes "n") answered ≡ failed nonce_consumed)
    × (check_proof hash (11 * second) (bytes "n") (bytes "7") answered ≡ some nonce_invalid)
commit_proof_once_example =
    commit_proof_once hash (bytes "t") (bytes "u") (10 * second) (11 * second) (bytes "n")
      (bytes "7") (bytes "t") asked answered asked-IsValid commits

validates :
    validate_proof hash (bytes "t") (9 * second) (10 * second) (bytes "n") (bytes "7") asked
    ≡ issued (bytes "t") answered
unfolding validate_proof check_proof commit_proof lookup insert delete bytes_eq has_prefix
validates = refl

check_proof_token-issued_example :
    (check_proof_token (bytes "t") [] (20 * second) answered ≡ true)
    ↔ (20 * second ≤ 10 * second + 30 * second)
check_proof_token-issued_example =
    check_proof_token-issued hash (bytes "t") (9 * second) (10 * second) (20 * second) (bytes "n")
      (bytes "7") [] (bytes "t") asked answered (λ h. cc) validates

abbrev cleaned : PowManager
cleaned = cleanup_expired_entries (6 * minute) asked

abbrev validated : PowManager → Validated
validated m = validate_proof hash (bytes "t") (7 * minute) (8 * minute) (bytes "n") (bytes "7") m

cleanup_transparent_example :
    (check_proof hash (7 * minute) (bytes "n") (bytes "7") cleaned
      ≡ check_proof hash (7 * minute) (bytes "n") (bytes "7") asked)
    × ((answer (validated cleaned) ≡ answer (validated asked))
        × (refusal (validated cleaned) ≡ refusal (validated asked)))
    × (check_proof_token (bytes "t") [] (7 * minute) cleaned
        ≡ check_proof_token (bytes "t") [] (7 * minute) asked)
cleanup_transparent_example =
    cleanup_transparent hash (6 * minute) (7 * minute) (8 * minute) (bytes "t") (bytes "n")
      (bytes "7") (bytes "t") [] asked asked-IsValid (omega arith)
