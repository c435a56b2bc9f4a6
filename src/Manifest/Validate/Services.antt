-- ===== src/Manifest/Validate/Services.antt =====
-- `validate_service` and `check_reference` of packages/manifest/src/validate.rs, group by group in
-- the order of the source.
use railyard.Base.{
  ℕ, suc, ◌==◌, ◌||◌, ◌&&◌, ◌++◌, not, leb, ltb, is_empty, is_some, is_none, is_some_and, Bool,
  true, false, Text, txt, text_eq, starts_with, count_words, get, contains_key, values, Option,
  none, some, List, [], ◌∷◌, Result, ok, err, if◌then◌else◌,
}
use railyard.Manifest.Model.{
  ServiceGithub, Healthcheck, Strategy, rolling, recreate, Resources, Autoscale, Scale, Service,
  RailyardManifest, is_public, f64_le_zero,
}
use railyard.Manifest.Reference.{Reference, service_port, service_url, service, parse_references}
use railyard.Manifest.Validate.Names.{
  ValidationError, report_if, is_valid_name, is_valid_memory, check_repo, check_relative_path,
}

-- what the checks of the elements push, one after another
unfoldable pub each {ℓ} : {A : Type ℓ} → (A → List ValidationError) → List A → List ValidationError
each check [] = []
each check (a ∷ rest) = check a ++ each check rest

-- `if let Some(value) = …`
unfoldable pub if_some {ℓ} :
    {A : Type ℓ} → (A → List ValidationError) → Option A → List ValidationError
if_some check none = []
if_some check (some a) = check a

abbrev pub at : Text → Text → Text
at name field = txt "services." ++ name ++ txt "." ++ field

abbrev pub is_zero : Option ℕ → Bool
is_zero o = is_some_and (λ n. n == 0) o

-- how many of the three sources are set
unfoldable pub count_set : List Bool → ℕ
count_set [] = 0
count_set (set ∷ rest) = let n = count_set rest in if set then suc n else n

unfoldable pub check_names : Text → Service → List ValidationError
unfolding report_if is_valid_name count_set
check_names name s =
    report_if (not (is_valid_name name)) (txt "services." ++ name) (
      txt
        "service names must be lowercase DNS labels (a-z, 0-9, hyphens; max 63 chars) — the name is the internal hostname")
    ++ report_if (not (count_set (is_some s.path ∷ is_some s.image ∷ is_some s.github ∷ []) == 1))
        (txt "services." ++ name)
        (txt "a service needs exactly one source: `path`, `image`, or `github`")

check_github : Text → ServiceGithub → List ValidationError
unfolding check_repo check_relative_path if_some
check_github name g =
    check_repo (at name (txt "github.repo")) g.repo
    ++ if_some (check_relative_path (at name (txt "github.path"))) g.path

unfoldable pub check_paths : Text → Service → List ValidationError
unfolding check_github report_if each
check_paths name s =
    if_some (check_relative_path (at name (txt "path"))) s.path
    ++ if_some (check_github name) s.github
    ++ report_if (is_some s.build && is_some s.image) (at name (txt "build"))
        (txt "`build` does not apply to `image` services — there is nothing to build")
    ++ each (check_relative_path (at name (txt "envFiles"))) s.env_files

unfoldable pub check_port : Text → Service → List ValidationError
unfolding report_if is_public
check_port name s =
    report_if (is_public s && is_none s.port) (at name (txt "port"))
      (txt "`port` is required when a service is public — the proxy needs an upstream")
    ++ report_if (is_zero s.port) (at name (txt "port")) (txt "port cannot be 0")

unfoldable pub check_healthcheck : Text → Healthcheck → List ValidationError
unfolding report_if starts_with
check_healthcheck name h =
    report_if (not (starts_with b'/' h.path)) (at name (txt "healthcheck.path"))
      (txt "must start with `/`")
    ++ report_if (is_zero h.timeout || is_zero h.interval) (at name (txt "healthcheck"))
        (txt "`timeout` and `interval` must be at least 1 second")

unfoldable pub check_cron : Text → Text → List ValidationError
unfolding report_if count_words
check_cron name cron =
    report_if (not (count_words false cron == 5)) (at name (txt "cron"))
      (txt "expected a 5-field cron expression (minute hour day month weekday)")

-- `dependency == name` and the lookup of the dependency, in one round of the loop
unfoldable pub report_dependency : Bool → Bool → Text → Text → List ValidationError
unfolding report_if
report_dependency itself known name dependency =
    if itself
    then report_if true (at name (txt "dependsOn")) (txt "a service cannot depend on itself")
    else report_if (not known) (at name (txt "dependsOn"))
        (txt "unknown service `" ++ dependency ++ txt "`")

unfoldable pub check_dependency : RailyardManifest → Text → Text → List ValidationError
unfolding report_dependency
check_dependency m name dependency =
    report_dependency (text_eq dependency name) (contains_key dependency m.services) name dependency

unfoldable pub check_mount : Text → Text → List ValidationError
unfolding report_if
check_mount name mount_path =
    report_if (not (starts_with b'/' mount_path)) (at name (txt "volumes"))
      (txt "mount path `" ++ mount_path ++ txt "` must be absolute")

unfoldable pub check_autoscale : Text → Autoscale → List ValidationError
unfolding report_if if_some
check_autoscale name a =
    report_if (ltb a.min 1 || ltb a.max a.min) (at name (txt "scale.autoscale"))
      (txt "`min` must be >= 1 and `max` >= `min`")
    ++ if_some
        (λ target.
          report_if (not (leb 1 target && leb target 100))
            (at name (txt "scale.autoscale.targetCpuPercent")) (txt "must be between 1 and 100"))
        a.target_cpu_percent

-- `scaled_out`
unfoldable pub scaled_out : Scale → Bool
scaled_out scale =
    is_some_and (λ replicas. ltb 1 replicas) scale.replicas
    || is_some_and (λ a. ltb 1 a.max) scale.autoscale

unfoldable pub check_scale : Text → Service → Scale → List ValidationError
unfolding report_if check_autoscale scaled_out
check_scale name s scale =
    report_if (is_some scale.replicas && is_some scale.autoscale) (at name (txt "scale"))
      (txt "`replicas` and `autoscale` are mutually exclusive")
    ++ report_if (is_zero scale.replicas) (at name (txt "scale.replicas"))
        (txt "must be at least 1")
    ++ if_some (check_autoscale name) scale.autoscale
    ++ report_if (scaled_out scale && not (is_empty s.volumes)) (at name (txt "scale")) (
        txt
          "services with volumes are pinned to 1 replica — two containers must never share a volume")

abbrev pub is_rolling : Strategy → Bool
is_rolling rolling = true
is_rolling recreate = false

unfoldable pub check_strategy : Text → Service → List ValidationError
unfolding report_if
check_strategy name s =
    report_if (is_some_and is_rolling s.strategy && not (is_empty s.volumes))
      (at name (txt "strategy"))
      (txt "services with volumes cannot roll — use `recreate` (or omit `strategy`)")

unfoldable pub check_resources : Text → Resources → List ValidationError
unfolding report_if if_some f64_le_zero is_valid_memory
check_resources name r =
    report_if (is_some_and f64_le_zero r.cpu) (at name (txt "resources.cpu"))
      (txt "must be greater than 0")
    ++ if_some
        (λ memory.
          report_if (not (is_valid_memory memory)) (at name (txt "resources.memory"))
            (txt "`" ++ memory ++ txt "` is not a valid size — use forms like `512Mi` or `1Gi`"))
        r.memory

-- `matches!(reference, ServicePort(_) | ServiceUrl(_))`
unfoldable pub needs_port : Reference → Bool
needs_port (service_port _) = true
needs_port (service_url _) = true
needs_port _ = false

-- the second `let … else` and what follows it
unfoldable pub check_found : Text → Reference → Text → Option Service → List ValidationError
unfolding report_if needs_port
check_found path reference target none =
    report_if true path (txt "references unknown service `" ++ target ++ txt "`")
check_found path reference target (some s) =
    report_if (needs_port reference && is_none s.port) path
      (txt "`" ++ target ++ txt "` must declare `port` to be referenced by port/url")

unfoldable pub check_target :
    List (Text × Service) → Text → Reference → Option Text → List ValidationError
unfolding check_found
check_target services path reference none = []
check_target services path reference (some target) =
    check_found path reference target (get target services)

unfoldable pub check_reference : RailyardManifest → Text → Reference → List ValidationError
unfolding check_target
check_reference m path reference = check_target m.services path reference (service reference)

-- what `parse_references` returned, checked
unfoldable pub check_parsed :
    RailyardManifest → Text → Result (List Reference) → List ValidationError
unfolding report_if each
check_parsed m path (err invalid) = report_if true path invalid
check_parsed m path (ok references) = each (check_reference m path) references

-- one round of the loop over the environment
unfoldable pub check_variable : RailyardManifest → Text → Text × Text → List ValidationError
unfolding check_parsed
check_variable m name (key, value) =
    check_parsed m (txt "services." ++ name ++ txt ".env." ++ key) (parse_references value)

unfoldable pub validate_service : RailyardManifest → Text × Service → List ValidationError
unfolding each if_some
validate_service m (name, s) =
    check_names name s
    ++ check_paths name s
    ++ check_port name s
    ++ if_some (check_healthcheck name) s.healthcheck
    ++ if_some (check_cron name) s.cron
    ++ each (check_dependency m name) s.depends_on
    ++ each (check_mount name) (values s.volumes)
    ++ if_some (check_scale name s) s.scale
    ++ check_strategy name s
    ++ if_some (check_resources name) s.resources
    ++ each (check_variable m name) s.env
