-- ===== src/Proxy.antt =====
-- apps/server/src/proxy/routing.rs, and the parts of apps/server/src/config.rs that need no system:
-- which upstream a request is sent to.
pub mod Hosts
use mathlib.Core.Option
use railyard.Base.{
  ℕ, ◌==◌, ◌||◌, ◌&&◌, ◌++◌, leb, not, Bool, Text, txt, text_eq, strip_prefix, split_first,
  to_ascii_lowercase, replace, get, insert, Option, none, some, List, [], ◌∷◌, Result, ok, err,
  if◌then◌else◌,
}

-- A socket address is a value of any type.
pub record RoutingTable (Address : Type 0) : Type 0 where
  pub api_addr : Address
  pub api_hostname : Text
  pub service_upstreams : List (Text × Address)

pub record RouteTarget (Address : Type 0) : Type 0 where
  pub upstream_addr : Address
  pub upstream_name : Text

-- the request as far as its host goes: that of the URI, and the `host` header where it is text
pub record RequestHeader : Type 0 where
  pub uri_host : Option Text
  pub host_header : Option Text

-- `split(':').next()` and the lower case
unfoldable pub host_name : Text → Text
host_name host = to_ascii_lowercase (split_first b':' host)

unfoldable pub request_host : RequestHeader → Option Text
unfolding host_name
request_host request = elim request.uri_host [
  | some host ↦ some (host_name host)
  | none ↦ Option.map host_name request.host_header
]

abbrev pub api_upstream_name : Text
api_upstream_name = txt "railyard"

module _ {Address : Type 0} where
  -- the upstream of the first label of the host
  unfoldable pub route_service : RoutingTable Address → Text → Option (RouteTarget Address)
  route_service table service =
      Option.map (λ addr. record { upstream_addr = addr; upstream_name = service })
        (get service table.service_upstreams)

  unfoldable pub route_for : RoutingTable Address → Option Text → Option (RouteTarget Address)
  unfolding route_service
  route_for table none = none
  route_for table (some host) =
      if text_eq host table.api_hostname
      then some (record { upstream_addr = table.api_addr; upstream_name = api_upstream_name })
      else route_service table (split_first b'.' host)

  unfoldable pub route_for_request :
      RoutingTable Address → RequestHeader → Option (RouteTarget Address)
  unfolding route_for request_host
  route_for_request table request = route_for table (request_host request)

-- The octets of an IPv4 address
unfoldable pub is_public : ℕ → ℕ → ℕ → ℕ → Bool
is_public a b c d = not (
    a == 0
    || a == 10
    || a == 100 && (leb 64 b && leb b 127)
    || a == 127
    || a == 169 && b == 254
    || a == 172 && (leb 16 b && leb b 31)
    || a == 192 && b == 0 && c == 0 && not (d == 9) && not (d == 10)
    || a == 192 && b == 0 && c == 2
    || a == 192 && b == 168
    || a == 198 && (b == 18 || b == 19)
    || a == 198 && b == 51 && c == 100
    || a == 203 && b == 0 && c == 113
    || leb 224 a)

unfoldable pub env_key_to_service_name : Text → Text
env_key_to_service_name key = replace b'_' b'-' (to_ascii_lowercase key)

unfoldable pub upstream_env_prefix : Text
upstream_env_prefix = txt "RAILYARD_CONTAINER_UPSTREAM_"

-- What parses a socket address, and the spelling of a text by `{:?}`
module _ {Address : Type 0} (parse_address : Text → Option Address) (debug : Text → Text) where
  unfoldable pub invalid_env : Text → Text → Text → Text
  invalid_env name value expected =
      name ++ txt " must be " ++ expected ++ txt ", got " ++ debug value

  -- the variables in their order, collected up to the first error
  unfoldable pub collect_upstreams :
      List (Text × Address) → List (Text × Text) → Result (List (Text × Address))
  unfolding invalid_env env_key_to_service_name
  collect_upstreams upstreams [] = ok upstreams
  collect_upstreams upstreams ((key, value) ∷ vars) =
      let passed_over = collect_upstreams upstreams vars in
      elim (strip_prefix upstream_env_prefix key) [
        | none ↦ passed_over
        | some service ↦ elim (parse_address value) [
          | none ↦ err (invalid_env key value (txt "a socket address"))
          | some addr ↦
              collect_upstreams (insert (env_key_to_service_name service) addr upstreams) vars
        ]
      ]

  unfoldable pub configured_service_upstreams : List (Text × Text) → Result (List (Text × Address))
  unfolding collect_upstreams
  configured_service_upstreams vars = collect_upstreams [] vars
