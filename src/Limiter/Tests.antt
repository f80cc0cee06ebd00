-- ===== src/Limiter/Tests.antt =====
-- The limiter's laws at a limiter that knows one address.
use hzchat_server.Common.{List, All, ◌<◌, ◌≡◌, refl, [], ◌∷◌, some, if◌then◌else◌, ◌==◌}
use hzchat_server.Text.{Bytes, bytes, bytes_eq, lookup, insert}
use hzchat_server.Limiter.{
  IpRateLimiter, new_ip_rate_limiter, find_limiter, create_limiter, get_limiter, clean_up_visitors,
}
use hzchat_server.Limiter.Laws.{
  IsValid, new_ip_rate_limiter-IsValid, create_limiter-IsValid, Turn, asks, cleans, run_turns,
  IsBusy, get_limiter_shared, clean_up_visitors_lem,
}

abbrev local : Bytes
local = bytes "127.0.0.1"

abbrev visited : IpRateLimiter
visited = (create_limiter local new_ip_rate_limiter).1

visited-IsValid : IsValid visited
visited-IsValid = create_limiter-IsValid local new_ip_rate_limiter new_ip_rate_limiter-IsValid

-- Another address asks, and its limiter is removed.
abbrev turns : List Turn
turns = asks (bytes "10.0.0.1") ∷ cleans (λ l. l == 1) ∷ asks local ∷ []

abbrev crowded : IpRateLimiter
crowded = run_turns turns (create_limiter local visited).1

turns-IsBusy : All (IsBusy (create_limiter local visited).0) turns
unfolding create_limiter new_ip_rate_limiter lookup insert bytes_eq
turns-IsBusy = (tt, (refl, (tt, tt)))

get_limiter_shared_example :
    ((create_limiter local crowded).0 ≡ (create_limiter local visited).0)
    × ((get_limiter local crowded).0 ≡ (create_limiter local visited).0)
    × ((other : Bytes)
        → (get_limiter other crowded).0 ≡ (create_limiter local visited).0
        → other ≡ local)
get_limiter_shared_example = get_limiter_shared local turns visited visited-IsValid turns-IsBusy

visited_found : find_limiter local visited ≡ some 0
unfolding find_limiter create_limiter new_ip_rate_limiter lookup insert bytes_eq
visited_found = refl

clean_up_visitors_lem_example :
    IsValid (clean_up_visitors (λ l. l == 0) visited)
    × ((get_limiter local (clean_up_visitors (λ l. l == 0) visited)).0
        ≡ (if 0 == 0 then visited.allocated else 0))
    × (0 < visited.allocated)
clean_up_visitors_lem_example =
    clean_up_visitors_lem (λ l. l == 0) local 0 visited visited-IsValid visited_found
