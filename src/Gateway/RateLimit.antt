-- ===== src/Gateway/RateLimit.antt =====
-- `RateLimitMiddleware` of workbench_gateway/security.py. Times are readings of the monotonic clock
-- in microseconds; a client is what `_client_ip` returns.
pub mod Window
mod Hits
pub mod Sliding
use ai_agents_enterprise.Prelude.{
  ℕ, zero, suc, ◌+◌, ◌-◌, String, Bool, true, false, Option, none, some, List, [], ◌∷◌, ◌++◌, map,
  keep, any, length, ◌==◌, not, ltb, leb, nat_eq, if◌then◌else◌, or_else, Dict, get, put, remove,
  ◌&&◌,
}
use ai_agents_enterprise.Gateway.Security.{ℤ, pos, negsuc, Decision, forward, answer, is_protected}

-- 60 s, both.
abbrev pub window_us : ℕ
window_us = 60000000

abbrev pub cleanup_interval_us : ℕ
cleanup_interval_us = 60000000

pub record Limiter : Type 0 where
  pub hits : Dict (List ℕ)
  pub last_cleanup : ℕ

abbrev pub new_limiter : Limiter
new_limiter = record { hits = []; last_cleanup = 0 }

-- `self._hits[client]` of a `defaultdict(deque)`
abbrev pub window_of : Dict (List ℕ) → String → List ℕ
window_of hits client = or_else (get hits client) []

abbrev pub last_or : ℕ → List ℕ → ℕ
last_or d [] = d
last_or d (t ∷ ts) = last_or t ts

-- `not dq or now - dq[-1] > window`
unfoldable pub is_stale : ℕ → List ℕ → Bool
is_stale now [] = true
is_stale now (t ∷ ts) = ltb window_us (now - last_or t ts)

abbrev pub keys : Dict (List ℕ) → List String
keys = map (λ (ip, dq). ip)

unfoldable pub stale_ips : ℕ → Dict (List ℕ) → List String
stale_ips now hits = keep (λ ip. is_stale now (window_of hits ip)) (keys hits)

-- `for ip in stale: del self._hits[ip]`
unfoldable pub delete_all : Dict (List ℕ) → List String → Dict (List ℕ)
delete_all hits [] = hits
delete_all hits (ip ∷ ips) = delete_all (remove hits ip) ips

unfoldable pub reap_idle : ℕ → Limiter → Limiter
reap_idle now l =
    if ltb (now - l.last_cleanup) cleanup_interval_us
    then l
    else record { hits = delete_all l.hits (stale_ips now l.hits); last_cleanup = now }

-- `while window and now - window[0] > window_s: window.popleft()`
unfoldable pub expire : ℕ → List ℕ → List ℕ
expire now [] = []
expire now (t ∷ ts) = let rest = expire now ts in if ltb window_us (now - t) then rest else t ∷ ts

-- `len(window) >= limit`
abbrev pub is_full : ℤ → ℕ → Bool
is_full (pos n) len = leb n len
is_full (negsuc n) len = true

-- The part of `dispatch` behind the test of limit and path.
unfoldable pub admit : ℤ → ℕ → String → Limiter → Bool × Limiter
admit limit now client l =
    let reaped = reap_idle now l in
    let window = expire now (window_of reaped.hits client) in
    if is_full limit (length window)
    then (false, record reaped { hits = put reaped.hits client window })
    else (true, record reaped { hits = put reaped.hits client (window ++ now ∷ []) })

abbrev pub is_zero : ℤ → Bool
is_zero (pos n) = nat_eq n 0
is_zero (negsuc n) = false

abbrev pub decide : Bool × Limiter → Decision × Limiter
decide (true, l) = (forward, l)
decide (false, l) = (answer 429, l)

unfoldable pub dispatch : ℤ → ℕ → (path client : String) → Limiter → Decision × Limiter
dispatch limit now path client l =
    if not (is_zero limit) && is_protected path
    then decide (admit limit now client l)
    else (forward, l)
