-- ===== src/Gateway/RateLimit/Hits.antt =====
-- The dict of deques: a client's deque after a write, a deletion and a round of the reaper.
use ai_agents_enterprise.Prelude.{
  ℕ, String, ◌≡◌, refl, Bool, true, List, [], ◌∷◌, keep, any, if◌then◌else◌, arith, Bool-cases, inl,
  inr, ◌==◌, eq_iff, Dict, put, remove, get-put, get-remove,
}
use ai_agents_enterprise.Gateway.RateLimit.{window_of, is_stale, stale_ips, keys, delete_all}

pub window_of-put :
    (hits : Dict (List ℕ)) (client : String) (w : List ℕ) (c : String)
    → window_of (put hits client w) c ≡ (if client == c then w else window_of hits c)
window_of-put hits client w c = ground (arith, get-put hits client w c)

pub window_of-remove :
    (hits : Dict (List ℕ)) (client c : String)
    → window_of (remove hits client) c ≡ (if client == c then [] else window_of hits c)
window_of-remove hits client c = ground (arith, get-remove hits client c)

pub window_of-delete_all :
    (ips : List String) (hits : Dict (List ℕ)) (c : String)
    → window_of (delete_all hits ips) c ≡ (if any (λ ip. ip == c) ips then [] else window_of hits c)
unfolding delete_all
window_of-delete_all [] hits c = refl
window_of-delete_all (ip ∷ ips) hits c =
    ground (arith, window_of-delete_all ips (remove hits ip) c, window_of-remove hits ip c)

pub any-keep :
    (p : String → Bool) (xs : List String) (c : String)
    → any (λ x. x == c) (keep p xs) ≡ true
    → p c ≡ true
any-keep p [] c h = cc
any-keep p (x ∷ xs) c h = elim (Bool-cases (p x)) [
  | inl e ↦ elim (Bool-cases (x == c)) [
    | inl q ↦ rw (← (eq_iff x c).0 q) e
    | inr q ↦ let found = rw (e, keep) at h in any-keep p xs c (ground arith)
  ]
  | inr e ↦ any-keep p xs c (rw (e, keep) at h)
]

pub any_stale :
    (now : ℕ) (hits : Dict (List ℕ)) (c : String)
    → any (λ ip. ip == c) (stale_ips now hits) ≡ true
    → is_stale now (window_of hits c) ≡ true
unfolding stale_ips
any_stale now hits c h = any-keep (λ ip. is_stale now (window_of hits ip)) (keys hits) c h
