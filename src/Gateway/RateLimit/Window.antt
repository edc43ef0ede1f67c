-- ===== src/Gateway/RateLimit/Window.antt =====
-- The deque of one client: on hits in order of time, popping from the left is a filter.
use ai_agents_enterprise.Prelude.{
  ℕ, ◌-◌, ◌≤◌, ◌≡◌, refl, sym, ap, Bool, true, false, List, [], ◌∷◌, ◌++◌, keep, not, ltb, All,
  arith, Bool-cases, inl, inr,
}
use ai_agents_enterprise.Gateway.RateLimit.{window_us, is_stale, expire, last_or}

-- The hit counts at the time: it is at most a minute old.
abbrev pub is_recent : ℕ → ℕ → Bool
is_recent now t = not (ltb window_us (now - t))

-- In order of time.
abbrev pub IsOrdered : List ℕ → Type 0
IsOrdered [] = Unit
IsOrdered (t ∷ ts) = All (λ u. t ≤ u) ts × IsOrdered ts

pub IsOrdered-snoc :
    (ts : List ℕ) (now : ℕ) → IsOrdered ts → All (λ t. t ≤ now) ts → IsOrdered (ts ++ now ∷ [])
IsOrdered-snoc [] now o h = (tt, tt)
IsOrdered-snoc (t ∷ ts) now o h = (go ts o.0 h.0, IsOrdered-snoc ts now o.1 h.1)
  where
    go : (us : List ℕ) → All (λ u. t ≤ u) us → t ≤ now → All (λ u. t ≤ u) (us ++ now ∷ [])
    go [] a le = (le, tt)
    go (u ∷ us) a le = (a.0, go us a.1 le)

keep_newer :
    (now t : ℕ) (ts : List ℕ)
    → is_recent now t ≡ true
    → All (λ u. t ≤ u) ts
    → keep (is_recent now) ts ≡ ts
keep_newer now t [] r h = refl
keep_newer now t (u ∷ us) r h =
    let recent : is_recent now u ≡ true = ground arith in
    rw (recent, keep) (ap (λ l. u ∷ l) (keep_newer now t us r h.1))

pub expire-eq-keep :
    (now : ℕ) (ts : List ℕ) → IsOrdered ts → expire now ts ≡ keep (is_recent now) ts
unfolding expire
expire-eq-keep now [] o = refl
expire-eq-keep now (t ∷ ts) o = elim (Bool-cases (ltb window_us (now - t))) [
  | inl old ↦ rw (old, keep) (expire-eq-keep now ts o.1)
  | inr new ↦ rw (new, keep) (ap (λ l. t ∷ l) (sym (keep_newer now t ts (rw new) o.0)))
]

-- What has expired stays expired.
pub keep-keep :
    (now later : ℕ) (ts : List ℕ)
    → now ≤ later
    → keep (is_recent later) (keep (is_recent now) ts) ≡ keep (is_recent later) ts
keep-keep now later [] le = refl
keep-keep now later (t ∷ ts) le = ground (arith, keep-keep now later ts le)

pub All-keep : (P : ℕ → Type 0) (p : ℕ → Bool) (ts : List ℕ) → All P ts → All P (keep p ts)
All-keep P p [] h = tt
All-keep P p (t ∷ ts) h = elim (Bool-cases (p t)) [
  | inl e ↦ rw (e, keep) (h.0, All-keep P p ts h.1)
  | inr e ↦ rw (e, keep) (All-keep P p ts h.1)
]

pub IsOrdered-keep : (p : ℕ → Bool) (ts : List ℕ) → IsOrdered ts → IsOrdered (keep p ts)
IsOrdered-keep p [] o = tt
IsOrdered-keep p (t ∷ ts) o = elim (Bool-cases (p t)) [
  | inl e ↦ rw (e, keep) (All-keep _ p ts o.0, IsOrdered-keep p ts o.1)
  | inr e ↦ rw (e, keep) (IsOrdered-keep p ts o.1)
]

last-ge : (t : ℕ) (ts : List ℕ) → IsOrdered (t ∷ ts) → All (λ u. u ≤ last_or t ts) (t ∷ ts)
last-ge t [] o = (omega arith, tt)
last-ge t (u ∷ us) o = let h = last-ge u us o.1 in (omega (arith, o.0.0, h.0), h)

keep_older :
    (now last : ℕ) (ts : List ℕ)
    → is_recent now last ≡ false
    → All (λ u. u ≤ last) ts
    → keep (is_recent now) ts ≡ []
keep_older now last [] r h = refl
keep_older now last (u ∷ us) r h =
    let old : is_recent now u ≡ false = ground arith in
    rw (old, keep) (keep_older now last us r h.1)

-- Of a deque that the reaper drops, no hit counts, then or later.
pub keep-stale :
    (now later : ℕ) (ts : List ℕ)
    → now ≤ later
    → IsOrdered ts
    → is_stale now ts ≡ true
    → keep (is_recent later) ts ≡ []
unfolding is_stale
keep-stale now later [] le o h = refl
keep-stale now later (t ∷ ts) le o h =
    keep_older later (last_or t ts) (t ∷ ts) (ground arith) (last-ge t ts o)
