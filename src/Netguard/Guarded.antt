-- ===== src/Netguard/Guarded.antt =====
-- What the guard admits, and that every request of `safe_get` has passed it.
use ai_agents_enterprise.Prelude.{
  ℕ, zero, suc, ◌≤◌, String, ◌≡◌, refl, sym, ap, subst, true, false, Option, none, some,
  Option-cases, Bool-cases, List, [], ◌∷◌, all, ◌==◌, All, length, inl, inr, ◌⊎◌, arith,
}
use ai_agents_enterprise.Netguard.{
  Net, Unsafe, Checked, safe, unsafe, Fetched, response, refused, ip_is_public, is_allowed_scheme,
  check_resolved, check_host, host_of, assert_public_url, next_hop, follow, safe_get,
}

url_of : Checked → String
url_of (safe url) = url
url_of (unsafe why) = ""

safe-injective : {u v : String} → safe u ≡ safe v → v ≡ u
unfolding url_of
safe-injective e = sym (ap url_of e)

unsafe_ne_safe : {why : Unsafe} {v : String} → unsafe why ≡ safe v → ⊥
unsafe_ne_safe e = cc

module _ {W : Type 0} (net : Net W) where
  open net use {strip, urlsplit, ip_address, getaddrinfo, http_get}

  -- The host is a public IP literal, or it resolves to at least one address, all of them public.
  abbrev pub IsPublicHost : String → W → Type 0
  IsPublicHost host w =
      (ip_is_public net host ≡ true)
      ⊎ ((a : String) × (rest : List String) × ((getaddrinfo host w).0 ≡ some (a ∷ rest))
          × (all (ip_is_public net) (a ∷ rest) ≡ true))

  pub record PublicUrl (url : String) (w : W) : Type 0 where
    pub scheme : is_allowed_scheme net (urlsplit (strip url)).scheme ≡ true
    pub host : (host_of net (urlsplit (strip url)) == "") ≡ false
    pub reachable : IsPublicHost (host_of net (urlsplit (strip url))) w

  check_resolved-public :
      (url v : String) (infos : Option (List String))
      → check_resolved net url infos ≡ safe v
      → (v ≡ url)
        × ((a : String) × (rest : List String) × (infos ≡ some (a ∷ rest))
            × (all (ip_is_public net) (a ∷ rest) ≡ true))
  unfolding check_resolved
  check_resolved-public url v none e = cc
  check_resolved-public url v (some []) e = cc
  check_resolved-public url v (some (a ∷ rest)) e =
      elim (Bool-cases (all (ip_is_public net) (a ∷ rest))) [
        | inl p ↦ (safe-injective (rw p at e), (a, rest, refl, p))
        | inr p ↦ absurd (unsafe_ne_safe (rw p at e))
      ]

  check_host-public :
      (url host v : String) (w : W)
      → (check_host net url host w).0 ≡ safe v
      → (v ≡ url) × IsPublicHost host w
  unfolding check_host
  check_host-public url host v w e = elim (Option-cases (ip_address host)) [
    | inl name ↦
        let (same, found) = check_resolved-public url v _ (rw (check_host, name) at e) in
        (same, inr found)
    | inr (a, literal) ↦ elim (Bool-cases (ip_is_public net host)) [
      | inl p ↦ (safe-injective (rw (check_host, literal, p) at e), inl p)
      | inr p ↦ absurd (unsafe_ne_safe (rw (check_host, literal, p) at e))
    ]
  ]

  -- The guard admits only a URL, unchanged, with the scheme http or https and a host that is a
  -- public IP literal or that resolves, at that moment, to at least one address and to public ones
  -- only.
  pub assert_public_url-PublicUrl :
      (url v : String) (w : W)
      → (assert_public_url net url w).0 ≡ safe v
      → (v ≡ url) × PublicUrl url w
  unfolding assert_public_url
  assert_public_url-PublicUrl url v w e =
      let parts = urlsplit (strip url) in
      elim (Bool-cases (strip url == "")) [
        | inl p ↦ absurd (unsafe_ne_safe (rw (assert_public_url, p) at e))
        | inr p ↦ elim (Bool-cases (is_allowed_scheme net parts.scheme)) [
          | inr q ↦ absurd (unsafe_ne_safe (rw (assert_public_url, p, q) at e))
          | inl q ↦ elim (Bool-cases (host_of net parts == "")) [
            | inl r ↦ absurd (unsafe_ne_safe (rw (assert_public_url, p, q, r) at e))
            | inr r ↦
                let (same, reachable) =
                  check_host-public url (host_of net parts) v w
                    (rw (assert_public_url, p, q, r) at e) in
                (same, record { scheme = q; host = r; reachable = reachable })
          ]
        ]
      ]

  -- A URL that was public at some moment of the run.
  abbrev pub WasPublic : String → Type 0
  WasPublic url = (w : W) × PublicUrl url w

  pub Checked-cases :
      (c : Checked) → ((url : String) × (c ≡ safe url)) ⊎ ((why : Unsafe) × (c ≡ unsafe why))
  Checked-cases (safe url) = inl (url, refl)
  Checked-cases (unsafe why) = inr (why, refl)

  -- What `safe_get` sends, and what it returns.
  abbrev pub IsFinal : Fetched → Type 0
  IsFinal (response r) = next_hop net r ≡ none
  IsFinal (refused why) = Unit

  pub record GuardedRun (most : ℕ) (out : Fetched × List String × W) : Type 0 where
    pub sent : All WasPublic out.1
    pub within : length out.1 ≤ most
    pub final : IsFinal out.0

  follow-GuardedRun :
      (rounds : ℕ) (current : String) (w : W)
      → WasPublic current
      → GuardedRun rounds (follow net rounds current w)
  unfolding follow
  follow-GuardedRun zero current w h = record { sent = tt; within = omega arith; final = tt }
  follow-GuardedRun (suc rounds) current w h =
      let r = (http_get current w).0 in
      let w1 = (http_get current w).1 in
      elim (Option-cases (next_hop net r)) [
        | inl done ↦
            rw (follow, done) (record { sent = (h, tt); within = omega arith; final = done })
        | inr (hop, more) ↦ elim (Checked-cases (assert_public_url net hop w1).0) [
          | inr (why, e) ↦
              rw (follow, more, e) (record { sent = (h, tt); within = omega arith; final = tt })
          | inl (next, e) ↦
              let (same, public) = assert_public_url-PublicUrl hop next w1 e in
              let rest =
                follow-GuardedRun rounds next (assert_public_url net hop w1).1
                  (subst WasPublic (sym same) (w1, public)) in
              rw (follow, more, e)
                (record {
                  sent = (h, rest.sent);
                  within = omega (arith, rest.within);
                  final = rest.final;
                })
        ]
      ]

  -- `safe_get` ends. Every URL that it sends a request to, the first one and every hop of a
  -- redirect, passed the guard as a public one; it sends at most one request more than the
  -- redirects that it may follow; and a response that it returns does not redirect any further.
  pub safe_get-GuardedRun :
      (url : String) (most : ℕ) (w : W) → GuardedRun (suc most) (safe_get net url most w)
  unfolding safe_get
  safe_get-GuardedRun url most w = elim (Checked-cases (assert_public_url net url w).0) [
    | inr (why, e) ↦ rw (safe_get, e) (record { sent = tt; within = omega arith; final = tt })
    | inl (current, e) ↦
        let (same, public) = assert_public_url-PublicUrl url current w e in
        rw (safe_get, e)
          (follow-GuardedRun (suc most) current (assert_public_url net url w).1
            (subst WasPublic (sym same) (w, public)))
  ]
