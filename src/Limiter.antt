-- ===== src/Limiter.antt =====
-- internal/pkg/limiter/ip_limiter.go. A limiter is known by its pointer; what golang.org/x/time/rate
-- does with it are parameters.
pub mod Laws
mod Tests
use hzchat_server.Common.{
  ℕ, suc, Bool, true, false, List, [], ◌∷◌, Option, none, some, if◌then◌else◌, not,
}
use hzchat_server.Text.{Bytes, bytes, bytes_eq, lookup, insert, retain}

-- `allocated` is the next free pointer.
pub record IpRateLimiter : Type 0 where
  pub limits : List (Bytes × ℕ)
  pub allocated : ℕ

-- NewIPRateLimiter; rate and burst are those of every limiter, and go to the library only.
unfoldable pub new_ip_rate_limiter : IpRateLimiter
new_ip_rate_limiter = record { limits = []; allocated = 0 }

-- GetLimiter under the read lock.
unfoldable pub find_limiter : Bytes → IpRateLimiter → Option ℕ
find_limiter ip i = lookup ip i.limits

-- GetLimiter under the write lock: the map is read again, since other requests may have run.
unfoldable pub create_limiter : Bytes → IpRateLimiter → ℕ × IpRateLimiter
create_limiter ip i = elim (lookup ip i.limits) [
  | some limiter ↦ (limiter, i)
  | none ↦ (
    i.allocated,
    record i { limits = insert ip i.allocated i.limits; allocated = suc i.allocated },
  )
]

-- GetLimiter, where no other request runs between its two parts.
unfoldable pub get_limiter : Bytes → IpRateLimiter → ℕ × IpRateLimiter
get_limiter ip i = elim (find_limiter ip i) [
  | some limiter ↦ (limiter, i)
  | none ↦ create_limiter ip i
]

-- One round of cleanUpVisitors: limiters whose bucket is full are removed.
unfoldable pub clean_up_visitors : (ℕ → Bool) → IpRateLimiter → IpRateLimiter
clean_up_visitors is_idle i = record i {
  limits = retain (λ limiter. not (is_idle limiter)) i.limits;
}

-- The address that Middleware limits: the host of RemoteAddr, or all of it if it does not split.
unfoldable pub client_ip : (Bytes → Option Bytes) → Bytes → Bytes
client_ip split_host_port remote_addr =
    let ip : Bytes = elim (split_host_port remote_addr) [ some host ↦ host | none ↦ remote_addr ] in
    if bytes_eq ip [] then bytes "unknown_ip" else ip

-- What Middleware does with a request, and what becomes of the limiters.
pub data Verdict : Type 0 where
  served : Verdict
  limited : Verdict

unfoldable pub middleware :
    (Bytes → Option Bytes) → (ℕ → Bool) → Bytes → IpRateLimiter → Verdict × IpRateLimiter
middleware split_host_port allow remote_addr i =
    let (limiter, i') = get_limiter (client_ip split_host_port remote_addr) i in
    (if allow limiter then served else limited, i')
