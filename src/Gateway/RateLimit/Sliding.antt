-- ===== src/Gateway/RateLimit/Sliding.antt =====
-- The limiter against its specification: a log of every admitted hit that is never pruned.
use ai_agents_enterprise.Prelude.{
  ℕ, zero, suc, ◌+◌, ◌≤◌, String, ◌≡◌, Bool, false, List, [], ◌∷◌, ◌++◌, keep, not, length,
  if◌then◌else◌, All, ◌==◌, Dict,
}
use ai_agents_enterprise.Gateway.Security.{ℤ, pos, negsuc, Decision, forward, answer, is_protected}
use ai_agents_enterprise.Gateway.RateLimit.{Limiter, window_of, is_full, dispatch}
use ai_agents_enterprise.Gateway.RateLimit.Window.{is_recent, IsOrdered}

-- All hits that were admitted, by client.
abbrev pub Log : Type 0
Log = String → List ℕ

-- The specification: a request is admitted if less than the limit were admitted in the last minute.
abbrev pub allows : ℤ → ℕ → String → Log → Bool
allows limit now client log = not (is_full limit (length (keep (is_recent now) (log client))))

abbrev pub log_hit : ℕ → String → Log → Log
log_hit now client log c = if client == c then log c ++ now ∷ [] else log c

-- Up to time `now` the limiter's deques are in order, and from then on count the hits of the log.
record Agrees (now : ℕ) (log : Log) (hits : Dict (List ℕ)) : Type 0 where
  ordered : (c : String) → IsOrdered (window_of hits c)
  past : (c : String) → All (λ t. t ≤ now) (window_of hits c)
  same :
      (c : String) (later : ℕ)
      → now ≤ later
      → keep (is_recent later) (window_of hits c) ≡ keep (is_recent later) (log c)

-- One request: the decisions agree, and so do the states after it.
record Step (limit : ℤ) (now : ℕ) (client : String) (log : Log) (result : Bool × Limiter)
    : Type 0 where
  decision : result.0 ≡ allows limit now client log
  after : Agrees now (if result.0 then log_hit now client log else log) result.1.hits

-- The requests that the limiter counts: none at the limit 0, and else those of a protected path.
abbrev pub is_counted : ℤ → (path : String) → Bool
is_counted (pos zero) path = false
is_counted (pos (suc n)) path = is_protected path
is_counted (negsuc n) path = is_protected path

-- The specification of one request: the decision, and the log after it.
abbrev pub ruled : ℤ → ℕ → (path client : String) → Log → Decision
ruled limit now path client log =
    if is_counted limit path
    then (if allows limit now client log then forward else answer 429)
    else forward

abbrev pub logged : ℤ → ℕ → (path client : String) → Log → Log
logged limit now path client log =
    if is_counted limit path
    then (if allows limit now client log then log_hit now client log else log)
    else log

-- Requests, each a delay after the one before, with its path and the client that sends it: the
-- decisions of the middleware, and of the specification.
unfoldable pub serve : ℤ → (now : ℕ) → List (ℕ × String × String) → Limiter → List Decision
serve limit now [] l = []
serve limit now ((delay, path, client) ∷ requests) l =
    let (decision, l') = dispatch limit (now + delay) path client l in
    decision ∷ serve limit (now + delay) requests l'

unfoldable pub specified : ℤ → (now : ℕ) → List (ℕ × String × String) → Log → List Decision
specified limit now [] log = []
specified limit now ((delay, path, client) ∷ requests) log =
    ruled limit (now + delay) path client log
    ∷ specified limit (now + delay) requests (logged limit (now + delay) path client log)

-- One request to the middleware: the decisions agree, and so do the states after it.
record Dispatched (limit : ℤ) (now : ℕ) (path client : String) (log : Log)
    (result : Decision × Limiter) : Type 0 where
  decision : result.0 ≡ ruled limit now path client log
  after : Agrees now (logged limit now path client log) result.1.hits
