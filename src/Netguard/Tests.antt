-- ===== src/Netguard/Tests.antt =====
-- A resolver of three hosts, a server that redirects once to the metadata address, and the
-- theorems.
use ai_agents_enterprise.Prelude.{
  ℕ, suc, String, ◌==◌, ◌≡◌, refl, true, false, Option, none, some, [], ◌∷◌, if◌then◌else◌,
}
use ai_agents_enterprise.Netguard.{
  Flags, Address, v4, Net, non_public, safe, refused, ip_is_public, check_resolved, check_host,
  assert_public_url, follow, safe_get,
}
use ai_agents_enterprise.Netguard.Guarded.{
  PublicUrl, assert_public_url-PublicUrl, GuardedRun, safe_get-GuardedRun,
}

abbrev public_flags : Flags
public_flags = record {
  is_private = false;
  is_loopback = false;
  is_link_local = false;
  is_multicast = false;
  is_reserved = false;
  is_unspecified = false;
}

abbrev metadata : String
metadata = "169.254.169.254"

abbrev address : String → Option Address
address host =
    if host == metadata
    then some
        (v4 (record { flags = record public_flags { is_link_local = true }; in_cgnat = false }))
    else if host == "93.184.216.34"
    then some (v4 (record { flags = public_flags; in_cgnat = false }))
    else none

-- A URL is its host here, and each request is counted.
abbrev pub net : Net ℕ
net = record {
  strip = λ u. u;
  lower = λ t. t;
  urlsplit = λ u. record { scheme = "https"; hostname = some u };
  ip_address = address;
  getaddrinfo = λ host w. (some ("93.184.216.34" ∷ []), w);
  http_get = λ u w. (record { url = u; is_redirect = true; location = some metadata }, suc w);
  url_join = λ base l. l;
}

admitted : (assert_public_url net "example.org" 0).0 ≡ safe "example.org"
unfolding assert_public_url check_host check_resolved ip_is_public
admitted = refl

redirected : (safe_get net "example.org" 5 0).0 ≡ refused non_public
unfolding safe_get follow assert_public_url check_host check_resolved ip_is_public
redirected = refl

assert_public_url-PublicUrl_example :
    (◌≡◌ {A = String} "example.org" "example.org") × PublicUrl net "example.org" 0
assert_public_url-PublicUrl_example =
    assert_public_url-PublicUrl net "example.org" "example.org" 0 admitted

safe_get-GuardedRun_example : GuardedRun net 6 (safe_get net "example.org" 5 0)
safe_get-GuardedRun_example = safe_get-GuardedRun net "example.org" 5 0
