-- ===== src/Manifest/Validate/Whole.antt =====
-- `validate` of packages/manifest/src/validate.rs: the checks of the whole manifest.
use railyard.Base.{
  ◌≡◌, ◌++◌, not, true, refl, Text, txt, join, All, All-map, ◌≢◌, Option, none, some, List, [],
}
use railyard.Manifest.Model.{Project, GithubLink, RailyardManifest}
use railyard.Manifest.Validate.Names.{ValidationError, report_if, is_valid_name, check_repo}
use railyard.Manifest.Validate.Services.{each, if_some, validate_service}
use railyard.Manifest.Validate.Accepted.{
  IsSound, append-eq-nil, each-eq-nil, if_some-eq-nil, passed, validate_service-IsSound,
}
use railyard.Manifest.Validate.Cycle.{Edges, find_env_reference_cycle}
use railyard.Manifest.Validate.Cycle.Correct.{RefersOn, IsOrder, find_env_reference_cycle_lem}

unfoldable pub check_project : Project → List ValidationError
unfolding report_if is_valid_name
check_project project = report_if (not (is_valid_name project.name)) (txt "project.name") (
    txt
      "must be a lowercase DNS label (a-z, 0-9, hyphens; max 63 chars) — it is used in generated hostnames")

unfoldable pub check_cycle : List Text → List ValidationError
unfolding join report_if
check_cycle cycle =
    report_if true (txt "services")
      (txt "environment variable references form a cycle: " ++ join (txt " -> ") cycle)

unfoldable pub validate : (order : Edges → List Text) → RailyardManifest → List ValidationError
unfolding if_some each check_project check_cycle check_repo validate_service
    find_env_reference_cycle
validate order m =
    if_some check_project m.project
    ++ if_some (λ (github : GithubLink). check_repo (txt "github.repo") github.repo) m.github
    ++ each (validate_service m) m.services
    ++ if_some check_cycle (find_env_reference_cycle order m)

pub record IsSoundManifest (m : RailyardManifest) : Type 0 where
  pub project_named :
      (project : Project) → m.project ≡ some project → is_valid_name project.name ≡ true
  pub services_sound : All (λ e. IsSound m e.0 e.1) m.services
  pub no_cycle : (a : Text) → RefersOn m a a → ⊥

if_some-eq-nil-none {ℓ} :
    {A : Type ℓ} (check : A → List ValidationError) (o : Option A)
    → ((a : A) → check a ≢ [])
    → if_some check o ≡ []
    → o ≡ none
unfolding if_some
if_some-eq-nil-none check none some_error h = refl
if_some-eq-nil-none check (some a) some_error h = absurd (some_error a h)

check_cycle-error : (cycle : List Text) → check_cycle cycle ≢ []
unfolding check_cycle report_if
check_cycle-error cycle h = cc

-- Whatever the order in which the hash map gives its keys: of a manifest without errors the name of
-- the project is a DNS label, each service is sound, and no service is on a chain of references to
-- environment variables that ends where it starts.
pub validate-IsSoundManifest :
    (order : Edges → List Text)
    → IsOrder order
    → (m : RailyardManifest) → validate order m ≡ []
    → IsSoundManifest m
unfolding validate check_project
validate-IsSoundManifest order whole m h =
    let (h, cycles) = append-eq-nil _ _ h in
    let (h, services) = append-eq-nil _ _ h in
    let (projects, _) = append-eq-nil _ _ h in
    record {
      project_named = λ project e. passed _ _ _ (if_some-eq-nil check_project project e projects);
      services_sound =
          All-map (λ entry. validate_service-IsSound m entry.0 entry.1) m.services
            (each-eq-nil _ m.services services);
      no_cycle =
          (find_env_reference_cycle_lem m order whole).1
            (if_some-eq-nil-none check_cycle _ check_cycle-error cycles);
    }
