-- ===== src/Examples/Hosts.antt =====
-- A routing table with one service.
use railyard.Base.{
  ℕ, true, false, ◌≡◌, ◌≢◌, ◌++◌, refl, inl, Text, txt, text_eq, text_eq_iff, get, insert, contains,
  to_ascii_lowercase, lower, replace, split_first, strip_prefix, Option, none, some, [], ◌∷◌, ok,
}
use railyard.Proxy.{
  RoutingTable, RequestHeader, host_name, route_for_request, collect_upstreams,
  configured_service_upstreams, env_key_to_service_name, upstream_env_prefix,
}
use railyard.Proxy.Hosts.{route_for_request-eq-some, configured_service_upstreams-last}

abbrev table : RoutingTable ℕ
table = record {
  api_addr = 1;
  api_hostname = txt "api.local";
  service_upstreams = (txt "my-web", 7) ∷ [];
}

abbrev request : RequestHeader
request = record { uri_host = some (txt "My-Web" ++ b'.' ∷ txt "local:80"); host_header = none }

plain : (contains b'.' (txt "My-Web") ≡ false) × (contains b':' (txt "My-Web") ≡ false)
unfolding contains txt
plain = (refl, refl)

known : get (to_ascii_lowercase (txt "My-Web")) table.service_upstreams ≡ some 7
unfolding get text_eq txt to_ascii_lowercase lower
known = refl

elsewhere : host_name (txt "My-Web" ++ b'.' ∷ txt "local:80") ≢ txt "api.local"
unfolding host_name txt text_eq to_ascii_lowercase lower split_first
elsewhere e =
    let same : false ≡ true =
      (text_eq_iff (host_name (txt "My-Web" ++ b'.' ∷ txt "local:80")) (txt "api.local")).1 e in
    cc

route_for_request-eq-some_example :
    route_for_request table request
    ≡ some (record { upstream_addr = 7; upstream_name = to_ascii_lowercase (txt "My-Web") })
route_for_request-eq-some_example =
    route_for_request-eq-some table request (txt "My-Web") (txt "local:80") 7 plain.0 plain.1 known
      (inl refl) elsewhere

abbrev first_code : Text → Option ℕ
first_code [] = none
first_code (c ∷ _) = some c

configured :
    configured_service_upstreams first_code
      (λ t. t)
      ((upstream_env_prefix ++ txt "MY_WEB", 8 ∷ [])
        ∷ (upstream_env_prefix ++ txt "MY_WEB", 9 ∷ [])
        ∷ (txt "HOME", txt "/root")
        ∷ [])
    ≡ ok ((txt "my-web", 9) ∷ [])
unfolding configured_service_upstreams collect_upstreams upstream_env_prefix strip_prefix txt
    env_key_to_service_name replace to_ascii_lowercase lower insert text_eq
configured = refl

home_apart : (key : Text) → txt "HOME" ≢ upstream_env_prefix ++ key
unfolding upstream_env_prefix txt text_eq
home_apart key e =
    let same : false ≡ true = (text_eq_iff (txt "HOME") (upstream_env_prefix ++ key)).1 e in cc

configured_service_upstreams-last_example :
    get {V = ℕ} (env_key_to_service_name (txt "MY_WEB")) ((txt "my-web", 9) ∷ []) ≡ some 9
configured_service_upstreams-last_example =
    configured_service_upstreams-last first_code (λ t. t) ((txt "my-web", 9) ∷ [])
      ((upstream_env_prefix ++ txt "MY_WEB", 8 ∷ []) ∷ []) ((txt "HOME", txt "/root") ∷ [])
      (txt "MY_WEB") (9 ∷ []) 9 (λ key e. absurd (home_apart key e), tt) refl configured
