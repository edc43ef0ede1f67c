-- ===== src/Netguard.antt =====
-- platform/shared, workbench_shared/netguard.py: the guard against server-side request forgery. The
-- standard library's URL and address parsers, the resolver and the HTTP client are arguments; a URL
-- that urlsplit refuses is outside of the model.
pub mod Guarded
pub mod Tests
use ai_agents_enterprise.Prelude.{
  ℕ, zero, suc, String, Bool, true, false, not, ◌&&◌, ◌||◌, Option, none, some, List, [], ◌∷◌, all,
  any, ◌==◌, if◌then◌else◌,
}

pub record Flags : Type 0 where
  pub is_private : Bool
  pub is_loopback : Bool
  pub is_link_local : Bool
  pub is_multicast : Bool
  pub is_reserved : Bool
  pub is_unspecified : Bool

-- An IPv4 address with its membership in 100.64.0.0/10, and an IPv6 address with the IPv4 address
-- that it maps.
pub record Ipv4 : Type 0 where
  pub flags : Flags
  pub in_cgnat : Bool

pub data Address : Type 0 where
  v4 : Ipv4 → Address
  v6 : Flags → (ipv4_mapped : Option Ipv4) → Address

pub record Parts : Type 0 where
  pub scheme : String
  pub hostname : Option String

pub record Response : Type 0 where
  pub url : String
  pub is_redirect : Bool
  pub location : Option String

pub record Net (W : Type 0) : Type 0 where
  pub strip : String → String
  pub lower : String → String
  pub urlsplit : String → Parts
  pub ip_address : String → Option Address
  pub getaddrinfo : String → W → Option (List String) × W
  pub http_get : String → W → Response × W
  pub url_join : String → String → String

-- UnsafeUrlError, by its text.
pub data Unsafe : Type 0 where
  empty_url scheme_not_allowed no_host non_public cannot_resolve no_addresses too_many_redirects :
      Unsafe

pub data Checked : Type 0 where
  safe : (url : String) → Checked
  unsafe : Unsafe → Checked

pub data Fetched : Type 0 where
  response : Response → Fetched
  refused : Unsafe → Fetched

abbrev pub max_redirects : ℕ
max_redirects = 5

abbrev pub is_special : Flags → Bool
is_special f =
    f.is_private || f.is_loopback || f.is_link_local || f.is_multicast || f.is_reserved
    || f.is_unspecified

abbrev pub address_is_public : Address → Bool
address_is_public (v4 a) = not (is_special a.flags || a.in_cgnat)
address_is_public (v6 flags (some a)) = not (is_special a.flags || a.in_cgnat)
address_is_public (v6 flags none) = not (is_special flags)

module _ {W : Type 0} (net : Net W) where
  open net use {strip, lower, urlsplit, ip_address, getaddrinfo, http_get, url_join}

  unfoldable pub ip_is_public : String → Bool
  ip_is_public ip = elim (ip_address ip) [ none ↦ false | some a ↦ address_is_public a ]

  abbrev pub is_allowed_scheme : String → Bool
  is_allowed_scheme s = any (λ a. a == lower s) ("http" ∷ "https" ∷ [])

  -- A host that is no IP literal, after its resolution.
  unfoldable pub check_resolved : (url : String) → Option (List String) → Checked
  check_resolved url none = unsafe cannot_resolve
  check_resolved url (some []) = unsafe no_addresses
  check_resolved url (some (a ∷ rest)) =
      if all ip_is_public (a ∷ rest) then safe url else unsafe non_public

  unfoldable pub check_host : (url host : String) → W → Checked × W
  check_host url host w =
      let (infos, w') = getaddrinfo host w in
      elim (ip_address host) [
        | some a ↦ ((if ip_is_public host then safe url else unsafe non_public), w)
        | none ↦ (check_resolved url infos, w')
      ]

  -- An absent host is an empty one.
  abbrev pub host_of : Parts → String
  host_of parts = elim parts.hostname [ none ↦ "" | some host ↦ host ]

  unfoldable pub assert_public_url : String → W → Checked × W
  assert_public_url url w =
      let parts = urlsplit (strip url) in
      if strip url == ""
      then (unsafe empty_url, w)
      else if not (is_allowed_scheme parts.scheme)
      then (unsafe scheme_not_allowed, w)
      else if host_of parts == ""
      then (unsafe no_host, w)
      else check_host url (host_of parts) w

  -- The next hop of a response, if it redirects.
  abbrev pub next_hop : Response → Option String
  next_hop r =
      if r.is_redirect
      then elim r.location [ none ↦ none | some l ↦ some (url_join r.url l) ]
      else none

  -- The loop of `safe_get`, with the URLs that it has sent a request to.
  unfoldable pub follow : (rounds : ℕ) → (current : String) → W → Fetched × List String × W
  follow zero current w = (refused too_many_redirects, [], w)
  follow (suc rounds) current w =
      let (r, w1) = http_get current w in
      elim (next_hop r) [
        | none ↦ (response r, current ∷ [], w1)
        | some hop ↦
            let (checked, w2) = assert_public_url hop w1 in
            elim checked [
              | unsafe why ↦ (refused why, current ∷ [], w2)
              | safe next ↦ let (out, sent, w3) = follow rounds next w2 in (out, current ∷ sent, w3)
            ]
      ]

  unfoldable pub safe_get : (url : String) → (max_redirects : ℕ) → W → Fetched × List String × W
  safe_get url max_redirects w =
      let (checked, w') = assert_public_url url w in
      elim checked [
        | unsafe why ↦ (refused why, [], w')
        | safe current ↦ follow (suc max_redirects) current w'
      ]
