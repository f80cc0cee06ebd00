-- ===== src/Chat/Client/Tests.antt =====
-- The client's theorems at Ann's client in her room.
use hzchat_server.Common.{
  arith, ◌*◌, ◌+◌, ◌≡◌, ◌≤◌, ◌<◌, ◌↔◌, refl, true, List, [], ◌∷◌, ◌++◌, none, some, if◌then◌else◌,
  All,
}
use hzchat_server.Text.{Bytes, bytes}
use hzchat_server.Jwt.{minute, second}
use hzchat_server.Chat.Message.{token_update, type_token_update, system_user}
use hzchat_server.Chat.World.{World, done}
use hzchat_server.Chat.Client.Sending.{new_client}
use hzchat_server.Chat.Client.Inbound.{check_attachments, accepted, key_prefix}
use hzchat_server.Chat.Client.Pumps.{
  PumpEvent, from_send, tick, write_pump, check_and_refresh_token,
}
use hzchat_server.Chat.Client.Effects.{built}
use hzchat_server.Chat.Client.Receiving.{IsAllowed, without_meta, check_attachments_iff}
use hzchat_server.Chat.Client.Pumping.{Works, Drained, IsSpared, ticks, write_pump-drains}
use hzchat_server.Chat.Client.Refreshing.{fresh_claims, sending, check_and_refresh_token_lem}
use hzchat_server.Chat.Keeps.{has_space}
use hzchat_server.Chat.Fixture.{runtime, marshals, marshal_message, ann, photo, world_of_ann}

check_attachments_iff_example :
    (check_attachments (λ r. r) (key_prefix (bytes "abc123")) (photo ∷ [])
      ≡ accepted (without_meta photo ∷ []))
    ↔ (All (IsAllowed (λ r. r) (bytes "abc123")) (photo ∷ [])
        × (without_meta photo ∷ [] ≡ without_meta photo ∷ []))
check_attachments_iff_example =
    check_attachments_iff (λ r. r) (bytes "abc123") (photo ∷ []) (without_meta photo ∷ [])

-- Ann's channel was closed with one message in its queue.
abbrev leaving : World
leaving = record world_of_ann {
  store = λ p. record (new_client ann (900 * second)) {
    send = record { queue = bytes "bye" ∷ []; capacity = 256; closed = true };
  };
}

runtime-Works : Works runtime 1
runtime-Works = record { deadline_set = λ c. refl; frame_written = λ c f. refl }

abbrev pumped : List PumpEvent
pumped = tick ∷ from_send ∷ tick ∷ from_send ∷ []

leaving-IsSpared : IsSpared runtime 1 (ticks pumped) leaving
unfolding new_client
leaving-IsSpared n low high = ground arith

write_pump-drains_example : Drained 1 pumped leaving (write_pump runtime 1 pumped leaving)
unfolding new_client
write_pump-drains_example =
    write_pump-drains runtime 1 pumped leaving runtime-Works refl leaving-IsSpared

abbrev token_sent : World → Bytes → List Bytes
token_sent w token =
    if has_space w 1
    then (w.store 1).send.queue
      ++ marshal_message (
          built runtime marshals (sending runtime marshals w) type_token_update w.room.code
            system_user (token_update token))
        ∷ []
    else (w.store 1).send.queue

check_and_refresh_token_lem_example :
    (runtime.now 0 + 2 * minute ≤ (world_of_ann.store 1).token_expiry
      → check_and_refresh_token runtime 1 world_of_ann
        ≡ done (tt, record world_of_ann { clock_reads = 1 }))
    × ((world_of_ann.store 1).token_expiry < runtime.now 0 + 2 * minute
        → (runtime.sign (fresh_claims world_of_ann 1 (runtime.now 1)) world_of_ann.room.jwt_secret
              ≡ none
            → check_and_refresh_token runtime 1 world_of_ann
              ≡ done (tt, record world_of_ann { clock_reads = 2 }))
          × ((token : Bytes)
              → runtime.sign
                  (fresh_claims world_of_ann 1 (runtime.now 1))
                  world_of_ann.room.jwt_secret
                ≡ some token
              → (w' : World) × (check_and_refresh_token runtime 1 world_of_ann ≡ done (tt, w'))
                × ((w'.store 1).token_expiry ≡ (
                    if has_space world_of_ann 1
                    then runtime.now 2 + 15 * minute
                    else (world_of_ann.store 1).token_expiry))
                × ((w'.store 1).send.queue ≡ token_sent world_of_ann token)))
check_and_refresh_token_lem_example =
    check_and_refresh_token_lem runtime marshals 1 world_of_ann (unfold new_client in refl)
