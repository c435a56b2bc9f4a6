-- ===== src/Proxy/Hosts.antt =====
-- A host whose first label names a configured upstream is routed there.
use railyard.Base.{
  ℕ, ◌==◌, ◌≡◌, ◌≢◌, refl, ap, ◌∙◌, ◌++◌, false, Bool-cases, All, Text, text_eq, text_eq_iff,
  text_eq_refl, split_first, contains, to_ascii_lowercase, lower, get, insert, get-insert, Option,
  none, some, List, [], ◌∷◌, ok, inl, inr, ◌⊎◌, Option-cases, arith, strip_prefix,
}
use railyard.Proxy.{
  RoutingTable, RequestHeader, request_host, host_name, route_for, route_service, route_for_request,
  collect_upstreams, configured_service_upstreams, env_key_to_service_name, upstream_env_prefix,
}

split_first-append :
    (p q : ℕ) (name rest : Text)
    → contains p name ≡ false
    → (q == p) ≡ false
    → split_first p (name ++ q ∷ rest) ≡ name ++ q ∷ split_first p rest
unfolding split_first contains
split_first-append p q [] rest h ne = rw ne refl
split_first-append p q (c ∷ name) rest h ne = ground (arith, split_first-append p q name rest)

split_first-at :
    (p : ℕ) (name rest : Text) → contains p name ≡ false → split_first p (name ++ p ∷ rest) ≡ name
unfolding split_first contains
split_first-at p [] rest h = ground arith
split_first-at p (c ∷ name) rest h = ground (arith, split_first-at p name rest)

lower-dot :
    (name : Text) → contains b'.' name ≡ false → contains b'.' (to_ascii_lowercase name) ≡ false
unfolding contains to_ascii_lowercase lower
lower-dot [] h = refl
lower-dot (c ∷ name) h = ground (arith, lower-dot name)

lower-append :
    (s t : Text) → to_ascii_lowercase (s ++ t) ≡ to_ascii_lowercase s ++ to_ascii_lowercase t
unfolding to_ascii_lowercase
lower-append [] t = refl
lower-append (c ∷ s) t = ap (λ r. lower c ∷ r) (lower-append s t)

first_label :
    (name t : Text)
    → contains b'.' name ≡ false
    → split_first b'.' (to_ascii_lowercase name ++ to_ascii_lowercase (b'.' ∷ t))
      ≡ to_ascii_lowercase name
first_label name t dot =
    unfold to_ascii_lowercase lower in
    split_first-at b'.' (to_ascii_lowercase name) (to_ascii_lowercase t) (lower-dot name dot)

-- the host with a first label, without its port and in lower case
host_name-label :
    (name rest : Text)
    → contains b'.' name ≡ false
    → contains b':' name ≡ false
    → split_first b'.' (host_name (name ++ b'.' ∷ rest)) ≡ to_ascii_lowercase name
unfolding host_name
host_name-label name rest dot colon =
    ap (λ h. split_first b'.' (to_ascii_lowercase h))
      (split_first-append b':' b'.' name rest colon refl)
    ∙ ap (split_first b'.') (lower-append name (b'.' ∷ split_first b':' rest))
    ∙ first_label name (split_first b':' rest) dot

-- The request carries the host, in its URI or else in its header.
abbrev pub IsFor : Text → RequestHeader → Type 0
IsFor host request =
    (request.uri_host ≡ some host) ⊎ ((request.uri_host ≡ none) × (request.host_header ≡ some host))

request_host-IsFor :
    (host : Text) (request : RequestHeader)
    → IsFor host request
    → request_host request ≡ some (host_name host)
unfolding request_host
request_host-IsFor host request (inl e) = rw e refl
request_host-IsFor host request (inr (e, f)) = rw e (rw f refl)

module _ {Address : Type 0} (table : RoutingTable Address) (request : RequestHeader) where
  route_for-service :
      (host name : Text) (addr : Address)
      → host ≢ table.api_hostname
      → split_first b'.' host ≡ name
      → get name table.service_upstreams ≡ some addr
      → route_for table (some host) ≡ some (record { upstream_addr = addr; upstream_name = name })
  unfolding route_for route_service
  route_for-service host name addr other first known =
      elim (Bool-cases (text_eq host table.api_hostname)) [
        | inl same ↦ absurd (other ((text_eq_iff host table.api_hostname).0 same))
        | inr differ ↦ rw differ (rw first (rw known refl))
      ]

  -- A request whose host, of its URI or of its header, is a label and a suffix is routed to the
  -- upstream of the label in lower case, whatever the case of the host, its suffix and its port, if
  -- there is such an upstream and the host is not that of the API.
  pub route_for_request-eq-some :
      (name rest : Text) (addr : Address)
      → contains b'.' name ≡ false
      → contains b':' name ≡ false
      → get (to_ascii_lowercase name) table.service_upstreams ≡ some addr
      → IsFor (name ++ b'.' ∷ rest) request
      → host_name (name ++ b'.' ∷ rest) ≢ table.api_hostname
      → route_for_request table request
        ≡ some (record { upstream_addr = addr; upstream_name = to_ascii_lowercase name })
  unfolding route_for_request
  route_for_request-eq-some name rest addr dot colon known from other =
      ap (route_for table) (request_host-IsFor (name ++ b'.' ∷ rest) request from)
      ∙ route_for-service _ _ addr other (host_name-label name rest dot colon) known

strip_prefix-append : (p s : Text) → strip_prefix p (p ++ s) ≡ some s
unfolding strip_prefix
strip_prefix-append [] s = refl
strip_prefix-append (c ∷ p) s = ground (arith, strip_prefix-append p s)

strip_prefix-eq-some : (p k s : Text) → strip_prefix p k ≡ some s → k ≡ p ++ s
unfolding strip_prefix
strip_prefix-eq-some [] k s e = cc
strip_prefix-eq-some (c ∷ p) [] s e = cc
strip_prefix-eq-some (c ∷ p) (d ∷ k) s e = grind (arith, strip_prefix-eq-some p k s)

-- The variable is not one of the service.
abbrev pub NamesOther : Text → (Text × Text) → Type 0
NamesOther service entry =
    (key : Text) → entry.0 ≡ upstream_env_prefix ++ key → env_key_to_service_name key ≢ service

module _ {Address : Type 0} (parse_address : Text → Option Address) (debug : Text → Text) where
  -- variables of other services leave the address of a service
  collect-others :
      (service : Text) (addr : Address) (before ups : List (Text × Address))
      (vars : List (Text × Text))
      → All (NamesOther service) vars
      → get service before ≡ some addr
      → collect_upstreams parse_address debug before vars ≡ ok ups
      → get service ups ≡ some addr
  unfolding collect_upstreams
  collect-others service addr before ups [] others held e = cc
  collect-others service addr before ups ((k, v) ∷ vars) (other, others) held e =
      elim (Option-cases (strip_prefix upstream_env_prefix k)) [
        | inl no' ↦
            collect-others service addr before ups vars others held
              (rw (no', collect_upstreams) at e)
        | inr (key, ours) ↦ elim (Option-cases (parse_address v)) [
          | inl bad ↦ absurd (cc (rw bad at (rw (ours, collect_upstreams) at e)))
          | inr (a, good) ↦
              let apart : text_eq (env_key_to_service_name key) service ≡ false =
                elim (Bool-cases (text_eq (env_key_to_service_name key) service)) [
                  | inl same ↦ absurd (
                      other key (strip_prefix-eq-some upstream_env_prefix k key ours)
                        ((text_eq_iff _ service).0 same))
                  | inr f ↦ f
                ] in
              collect-others service addr (insert (env_key_to_service_name key) a before) ups vars
                others (get-insert (env_key_to_service_name key) service a before ∙ rw apart held)
                (rw good at (rw (ours, collect_upstreams) at e))
        ]
      ]

  collect-last :
      (before ups : List (Text × Address)) (vars later : List (Text × Text)) (key value : Text)
      (addr : Address)
      → All (NamesOther (env_key_to_service_name key)) later
      → parse_address value ≡ some addr
      → collect_upstreams parse_address debug before
          (vars ++ (upstream_env_prefix ++ key, value) ∷ later)
        ≡ ok ups
      → get (env_key_to_service_name key) ups ≡ some addr
  unfolding collect_upstreams
  collect-last before ups [] later key value addr others parsed e =
      let service = env_key_to_service_name key in
      collect-others service addr (insert service addr before) ups later others
        (get-insert service service addr before ∙ rw (text_eq_refl service) refl)
        (rw parsed at (rw (strip_prefix-append upstream_env_prefix key, collect_upstreams) at e))
  collect-last before ups ((k, v) ∷ vars) later key value addr others parsed e =
      elim (Option-cases (strip_prefix upstream_env_prefix k)) [
        | inl no' ↦
            collect-last before ups vars later key value addr others parsed
              (rw (no', collect_upstreams) at e)
        | inr (service, ours) ↦ elim (Option-cases (parse_address v)) [
          | inl bad ↦ absurd (cc (rw bad at (rw (ours, collect_upstreams) at e)))
          | inr (a, good) ↦
              collect-last (insert (env_key_to_service_name service) a before) ups vars later key
                value addr others parsed (rw good at (rw (ours, collect_upstreams) at e))
        ]
      ]

  -- Of the variables that name one service the last counts: where the upstream variables parse, the
  -- service is sent to the address in the last variable that names it, whatever variables stand
  -- before it and whatever variables of other names behind it.
  pub configured_service_upstreams-last :
      (ups : List (Text × Address)) (vars later : List (Text × Text)) (key value : Text)
      (addr : Address)
      → All (NamesOther (env_key_to_service_name key)) later
      → parse_address value ≡ some addr
      → configured_service_upstreams parse_address debug
          (vars ++ (upstream_env_prefix ++ key, value) ∷ later)
        ≡ ok ups
      → get (env_key_to_service_name key) ups ≡ some addr
  unfolding configured_service_upstreams
  configured_service_upstreams-last ups vars later key value addr =
      collect-last [] ups vars later key value addr
