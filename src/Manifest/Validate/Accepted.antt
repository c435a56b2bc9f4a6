-- ===== src/Manifest/Validate/Accepted.antt =====
-- What a service promises against which `validate_service` has no errors.
use railyard.Base.{
  ℕ, zero, suc, ◌==◌, ◌≡◌, ◌≢◌, refl, sym, ap, ◌∙◌, ◌++◌, ◌&&◌, not, is_empty, is_some, is_none,
  is_some_and, unwrap_or, Bool, true, false, All, All-map, Text, text_eq_iff, get, contains_key,
  Option, none, some, List, [], ◌∷◌, Result, ok, err, arith, if◌then◌else◌,
}
use railyard.Manifest.Model.{
  ServiceGithub, Strategy, rolling, recreate, Scale, Source, Service, RailyardManifest, is_public,
  source, source_of, effective_strategy,
}
use railyard.Manifest.Reference.{Reference, service, parse_references}
use railyard.Manifest.Validate.Names.{ValidationError, report_if, is_valid_name}
use railyard.Manifest.Validate.Services.{
  each, if_some, is_zero, count_set, check_names, check_port, check_scale, check_strategy,
  check_dependency, report_dependency, check_reference, check_found, is_rolling, check_target,
  check_parsed, check_variable, needs_port, scaled_out, validate_service,
}

pub append-eq-nil : (xs ys : List ValidationError) → xs ++ ys ≡ [] → (xs ≡ []) × (ys ≡ [])
append-eq-nil [] ys h = (refl, h)
append-eq-nil (x ∷ xs) ys h = cc

report_if-eq-nil : (b : Bool) (p q : Text) → report_if b p q ≡ [] → b ≡ false
unfolding report_if
report_if-eq-nil false p q h = refl
report_if-eq-nil true p q h = cc

pub passed : (b : Bool) (p q : Text) → report_if (not b) p q ≡ [] → b ≡ true
unfolding report_if
passed true p q h = refl
passed false p q h = cc

and_not-eq-false : (a b : Bool) → (a && not b) ≡ false → b ≡ false → a ≡ false
and_not-eq-false true b h e = cc
and_not-eq-false false b h e = refl

pub each-eq-nil {ℓ} :
    {A : Type ℓ} (check : A → List ValidationError) (xs : List A)
    → each check xs ≡ []
    → All (λ a. check a ≡ []) xs
unfolding each
each-eq-nil check [] h = tt
each-eq-nil check (a ∷ rest) h =
    let (x, y) = append-eq-nil (check a) _ h in (x, each-eq-nil check rest y)

pub if_some-eq-nil {ℓ} :
    {A : Type ℓ} {o : Option A} (check : A → List ValidationError) (a : A)
    → o ≡ some a
    → if_some check o ≡ []
    → check a ≡ []
unfolding if_some
if_some-eq-nil {o = none} check a e h = cc
if_some-eq-nil {o = some b} check a e h = cc

-- A reference that names a service names one of the manifest, which has a port where one is needed.
abbrev pub IsResolved : RailyardManifest → Reference → Type 0
IsResolved m r =
    (target : Text)
    → service r ≡ some target
    → (s : Service) × (get target m.services ≡ some s)
      × (needs_port r ≡ true → is_some s.port ≡ true)

-- The value parses, and each of its references resolves.
abbrev pub IsResolvable : RailyardManifest → Text → Type 0
IsResolvable m value =
    (rs : List Reference) × (parse_references value ≡ ok rs) × All (IsResolved m) rs

pub record IsSound (m : RailyardManifest) (name : Text) (s : Service) : Type 0 where
  pub named : is_valid_name name ≡ true
  pub one_source : (src : Source) × (source s ≡ some src)
  pub public_port : is_public s ≡ true → (p : ℕ) × (s.port ≡ some (suc p))
  pub depends : All (λ d. (d ≢ name) × (contains_key d m.services ≡ true)) s.depends_on
  pub strategy_kept : (t : Strategy) → s.strategy ≡ some t → effective_strategy s ≡ t
  pub single :
      (scale : Scale) → is_empty s.volumes ≡ false → s.scale ≡ some scale → scaled_out scale ≡ false
  pub resolvable : All (λ e. IsResolvable m e.1) s.env

check_found-eq-nil :
    (p : Text) (r : Reference) (target : Text) (o : Option Service)
    → check_found p r target o ≡ []
    → (s : Service) × (o ≡ some s) × (needs_port r ≡ true → is_some s.port ≡ true)
unfolding check_found
check_found-eq-nil p r target none h = let e = report_if-eq-nil true _ _ h in cc
check_found-eq-nil p r target (some s) h =
    (s, refl, λ k. go (needs_port r) s.port k (report_if-eq-nil _ _ _ h))
  where
    go : (b : Bool) (port : Option ℕ) → b ≡ true → (b && is_none port) ≡ false → is_some port ≡ true
    go b (some _) _ _ = refl
    go true none _ e = ground arith
    go false none e _ = ground arith

check_reference-eq-nil :
    (m : RailyardManifest) (p : Text) (r : Reference) → check_reference m p r ≡ [] → IsResolved m r
unfolding check_reference check_target
check_reference-eq-nil m p r h target e =
    check_found-eq-nil p r target _ (sym (ap (check_target m.services p r) e) ∙ h)

check_parsed-eq-nil :
    (m : RailyardManifest) (p : Text) (parsed : Result (List Reference))
    → check_parsed m p parsed ≡ []
    → (rs : List Reference) × (parsed ≡ ok rs) × All (IsResolved m) rs
unfolding check_parsed
check_parsed-eq-nil m p (err e) h = let e = report_if-eq-nil true _ _ h in cc
check_parsed-eq-nil m p (ok rs) h =
    (rs, refl, All-map (λ r. check_reference-eq-nil m p r) rs (each-eq-nil _ rs h))

check_variable-eq-nil :
    (m : RailyardManifest) (name : Text) (e : Text × Text)
    → check_variable m name e ≡ []
    → IsResolvable m e.1
unfolding check_variable
check_variable-eq-nil m name (key, value) h = check_parsed-eq-nil m _ (parse_references value) h

check_source :
    (s : Service)
    → (count_set (is_some s.path ∷ is_some s.image ∷ is_some s.github ∷ []) == 1) ≡ true
    → (src : Source) × (source s ≡ some src)
unfolding source source_of count_set
check_source s h = go s.path s.image s.github h
  where
    go :
        (p i : Option Text) (g : Option ServiceGithub)
        → (count_set (is_some p ∷ is_some i ∷ is_some g ∷ []) == 1) ≡ true
        → (src : Source) × (source_of p i g ≡ some src)
    go (some p) none none h = (_, refl)
    go none (some i) none h = (_, refl)
    go none none (some g) h = (_, refl)
    go none none none h = ground arith
    go (some _) (some _) none h = ground arith
    go (some _) none (some _) h = ground arith
    go none (some _) (some _) h = ground arith
    go (some _) (some _) (some _) h = ground arith

check_names-eq-nil :
    (name : Text) (s : Service)
    → check_names name s ≡ []
    → (is_valid_name name ≡ true) × ((src : Source) × (source s ≡ some src))
unfolding check_names
check_names-eq-nil name s h =
    let (a, b) = append-eq-nil _ _ h in (passed _ _ _ a, check_source s (passed _ _ _ b))

check_port-eq-nil :
    (name : Text) (s : Service)
    → check_port name s ≡ []
    → is_public s ≡ true
    → (p : ℕ) × (s.port ≡ some (suc p))
unfolding check_port
check_port-eq-nil name s h public =
    let (a, b) = append-eq-nil _ _ h in
    go s.port (report_if-eq-nil _ _ _ a) (report_if-eq-nil _ _ _ b)
  where
    go :
        (port : Option ℕ)
        → (is_public s && is_none port) ≡ false
        → is_zero port ≡ false
        → (p : ℕ) × (port ≡ some (suc p))
    go none e f = ground (arith, public)
    go (some zero) e f = cc
    go (some (suc p)) e f = (p, refl)

report_dependency-eq-nil :
    (itself known : Bool) (name d : Text)
    → report_dependency itself known name d ≡ []
    → (itself ≡ false) × (known ≡ true)
unfolding report_dependency
report_dependency-eq-nil true known name d h = let e = report_if-eq-nil true _ _ h in cc
report_dependency-eq-nil false true name d h = (refl, refl)
report_dependency-eq-nil false false name d h = let e = report_if-eq-nil true _ _ h in cc

check_dependency-eq-nil :
    (m : RailyardManifest) (name d : Text)
    → check_dependency m name d ≡ []
    → (d ≢ name) × (contains_key d m.services ≡ true)
unfolding check_dependency
check_dependency-eq-nil m name d h =
    let (e, f) = report_dependency-eq-nil _ _ name d h in
    (λ same. ground (arith, e, same, text_eq_iff d name), f)

check_strategy-eq-nil :
    (name : Text) (s : Service) (t : Strategy)
    → check_strategy name s ≡ []
    → s.strategy ≡ some t
    → effective_strategy s ≡ t
unfolding check_strategy effective_strategy
check_strategy-eq-nil name s t h e =
    go s.strategy (is_empty s.volumes) t (report_if-eq-nil _ _ _ h) e
  where
    go :
        (o : Option Strategy) (empty : Bool) (t : Strategy)
        → (is_some_and is_rolling o && not empty) ≡ false
        → o ≡ some t
        → (if not empty then recreate else unwrap_or rolling o) ≡ t
    go none empty t e f = cc
    go (some u) true t e f = cc
    go (some rolling) false t e f = cc
    go (some recreate) false t e f = cc

check_scale-eq-nil :
    (name : Text) (s : Service) (scale : Scale)
    → check_scale name s scale ≡ []
    → is_empty s.volumes ≡ false
    → scaled_out scale ≡ false
unfolding check_scale
check_scale-eq-nil name s scale h full =
    let (_, d) = append-eq-nil _ _ h in and_not-eq-false _ _ (report_if-eq-nil _ _ _ d) full

-- Of a service without errors: its name is a DNS label; it has one source; a public one has a port
-- other than 0; what it depends on are other services of the manifest; the strategy that is written
-- is the one in force; with a volume it is not scaled out; each variable parses, and its references
-- are of services of the manifest, with a port where one is needed.
pub validate_service-IsSound :
    (m : RailyardManifest) (name : Text) (s : Service)
    → validate_service m (name, s) ≡ []
    → IsSound m name s
unfolding validate_service
validate_service-IsSound m name s h =
    let (h, envs) = append-eq-nil _ _ h in
    let (h, _) = append-eq-nil _ _ h in
    let (h, strategies) = append-eq-nil _ _ h in
    let (h, scales) = append-eq-nil _ _ h in
    let (h, _) = append-eq-nil _ _ h in
    let (h, depends) = append-eq-nil _ _ h in
    let (h, _) = append-eq-nil _ _ h in
    let (h, _) = append-eq-nil _ _ h in
    let (h, ports) = append-eq-nil _ _ h in
    let (names, _) = append-eq-nil _ _ h in
    record {
      named = (check_names-eq-nil name s names).0;
      one_source = (check_names-eq-nil name s names).1;
      public_port = check_port-eq-nil name s ports;
      depends = All-map (check_dependency-eq-nil m name) s.depends_on (each-eq-nil _ _ depends);
      strategy_kept = λ t. check_strategy-eq-nil name s t strategies;
      single =
          λ scale full e. check_scale-eq-nil name s scale (if_some-eq-nil _ scale e scales) full;
      resolvable = All-map (check_variable-eq-nil m name) s.env (each-eq-nil _ _ envs);
    }
