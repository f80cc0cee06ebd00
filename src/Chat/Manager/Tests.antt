-- ===== src/Chat/Manager/Tests.antt =====
-- The manager's theorems at a new manager.
use hzchat_server.Common.{ℕ, ◌≡◌, ◌≢◌, ◌⊎◌, refl, true, [], ◌∷◌, none, some, if◌then◌else◌}
use hzchat_server.Text.{Bytes, bytes}
use hzchat_server.Errs.{new_error, err_room_code_exists}
use hzchat_server.Chat.Manager.{
  Manager, rejected, panicked, new_manager, create_room, get_room, run_cleanup_loop, shutdown,
}
use hzchat_server.Chat.Manager.Laws.{
  IsValid, Creates, received, new_manager-IsValid, create_room_lem, run_cleanup_loop_lem,
  shutdown_lem,
}
use hzchat_server.Chat.Fixture.{empty_world}

abbrev fresh : Manager
fresh = new_manager (bytes "secret") (λ p. empty_world.room)

fresh-IsValid : IsValid fresh
fresh-IsValid = new_manager-IsValid (bytes "secret") (λ p. empty_world.room)

create_room_lem_example :
    ((get_room (bytes "abc123") fresh ≢ none)
      × (create_room (bytes "abc123") 2 fresh ≡ rejected (new_error err_room_code_exists)))
    ⊎ ((get_room (bytes "abc123") fresh ≡ none) × Creates (bytes "abc123") 2 fresh)
create_room_lem_example = create_room_lem (bytes "abc123") 2 fresh fresh-IsValid

run_cleanup_loop_lem_example :
    IsValid (run_cleanup_loop (bytes "abc123" ∷ []) fresh)
    × ((code : Bytes)
        → get_room code (run_cleanup_loop (bytes "abc123" ∷ []) fresh)
          ≡ (if received code (bytes "abc123" ∷ []) then none else get_room code fresh))
run_cleanup_loop_lem_example = run_cleanup_loop_lem (bytes "abc123" ∷ []) fresh fresh-IsValid

shutdown_lem_example :
    (m' : Manager) × (shutdown fresh ≡ some m')
    × ((code : Bytes) (p : ℕ) → get_room code fresh ≡ some p → (m'.store p).stop_closed ≡ true)
    × ((code : Bytes) → get_room code m' ≡ none)
    × ((code : Bytes) (max_clients : ℕ) → create_room code max_clients m' ≡ panicked)
    × (shutdown m' ≡ none)
shutdown_lem_example = shutdown_lem fresh fresh-IsValid (unfold new_manager in refl)
