-- ===== src/Manifest/Model.antt =====
-- packages/manifest/src/model.rs and the methods of packages/manifest/src/lib.rs
use railyard.Base.{
  ℕ, ◌*◌, ◌%◌, ◌^◌, ◌==◌, ◌||◌, ◌&&◌, ◌++◌, not, leb, is_empty, is_some_and, unwrap_or, Bool, true,
  false, Text, txt, Option, none, some, List, [], ◌∷◌, Result, ok, err, insert, if◌then◌else◌,
}

abbrev pub default_healthcheck_timeout : ℕ
default_healthcheck_timeout = 60

abbrev pub default_healthcheck_interval : ℕ
default_healthcheck_interval = 3

abbrev pub default_drain_seconds : ℕ
default_drain_seconds = 30

abbrev pub default_autoscale_target_cpu : ℕ
default_autoscale_target_cpu = 70

pub record Project : Type 0 where
  pub id : Option Text
  pub name : Text

pub record GithubLink : Type 0 where
  pub repo : Text
  pub branch : Option Text

pub record ServiceGithub : Type 0 where
  pub repo : Text
  pub branch : Option Text
  pub path : Option Text

pub record Build : Type 0 where
  pub dockerfile : Option Text
  pub args : List (Text × Text)
  pub watch : Option (List Text)

pub record PublicOptions : Type 0 where
  pub domain : Option Text
  pub domains : List Text

pub data Public : Type 0 where
  toggle : Bool → Public
  options : PublicOptions → Public

pub record Healthcheck : Type 0 where
  pub path : Text
  pub timeout : Option ℕ
  pub interval : Option ℕ

pub data RestartPolicy : Type 0 where
  always on_failure never : RestartPolicy

pub data Strategy : Type 0 where
  rolling recreate : Strategy

-- An `f64` as its 64 bits.
pub record Resources : Type 0 where
  pub cpu : Option ℕ
  pub memory : Option Text

pub record Autoscale : Type 0 where
  pub min : ℕ
  pub max : ℕ
  pub target_cpu_percent : Option ℕ

pub record Scale : Type 0 where
  pub replicas : Option ℕ
  pub autoscale : Option Autoscale

pub record Service : Type 0 where
  pub path : Option Text
  pub image : Option Text
  pub github : Option ServiceGithub
  pub build : Option Build
  pub start : Option Text
  pub port : Option ℕ
  pub env : List (Text × Text)
  pub env_files : List Text
  pub public : Option Public
  pub healthcheck : Option Healthcheck
  pub restart : Option RestartPolicy
  pub depends_on : List Text
  pub cron : Option Text
  pub strategy : Option Strategy
  pub drain : Option ℕ
  pub volumes : List (Text × Text)
  pub resources : Option Resources
  pub scale : Option Scale

pub record RailyardManifest : Type 0 where
  pub schema : Option Text
  pub project : Option Project
  pub github : Option GithubLink
  pub services : List (Text × Service)

-- `Default`
abbrev pub default_manifest : RailyardManifest
default_manifest = record { schema = none; project = none; github = none; services = [] }

abbrev pub default_service : Service
default_service = record {
  path = none;
  image = none;
  github = none;
  build = none;
  start = none;
  port = none;
  env = [];
  env_files = [];
  public = none;
  healthcheck = none;
  restart = none;
  depends_on = [];
  cron = none;
  strategy = none;
  drain = none;
  volumes = [];
  resources = none;
  scale = none;
}

pub data Source : Type 0 where
  path : Text → Source
  image : Text → Source
  github : ServiceGithub → Source

unfoldable pub source_of : Option Text → Option Text → Option ServiceGithub → Option Source
source_of (some p) none none = some (Source.path p)
source_of none (some i) none = some (Source.image i)
source_of none none (some g) = some (Source.github g)
source_of _ _ _ = none

unfoldable pub source : Service → Option Source
unfolding source_of
source s = source_of s.path s.image s.github

unfoldable pub is_enabled : Public → Bool
is_enabled (toggle enabled) = enabled
is_enabled (options _) = true

unfoldable pub option_list : Option Text → List Text
option_list none = []
option_list (some d) = d ∷ []

unfoldable pub domains : Public → List Text
unfolding option_list
domains (toggle _) = []
domains (options o) = option_list o.domain ++ o.domains

unfoldable pub is_public : Service → Bool
unfolding is_enabled
is_public s = is_some_and is_enabled s.public

unfoldable pub restart : Service → RestartPolicy
restart s = unwrap_or on_failure s.restart

unfoldable pub effective_strategy : Service → Strategy
effective_strategy s = if not (is_empty s.volumes) then recreate else unwrap_or rolling s.strategy

unfoldable pub drain : Service → ℕ
drain s = unwrap_or default_drain_seconds s.drain

unfoldable pub timeout : Healthcheck → ℕ
timeout h = unwrap_or default_healthcheck_timeout h.timeout

unfoldable pub interval : Healthcheck → ℕ
interval h = unwrap_or default_healthcheck_interval h.interval

unfoldable pub target_cpu_percent : Autoscale → ℕ
target_cpu_percent a = unwrap_or default_autoscale_target_cpu a.target_cpu_percent

-- `cpu <= 0.0` on the bits of an `f64`: no NaN, and negative or one of the two zeros
unfoldable pub f64_le_zero : ℕ → Bool
f64_le_zero bits = leb (bits % 2 ^ 63) (2047 * 2 ^ 52) && (leb (2 ^ 63) bits || bits == 0)

-- `link_project` and `link_github` of `RailyardManifest`
unfoldable pub linked : Text → Text → Option Project → Project
linked name id (some project) = record project { name = name; id = some id }
linked name id none = record { id = some id; name = name }

unfoldable pub link_project : Text → Text → RailyardManifest → RailyardManifest
unfolding linked
link_project name id m = record m { project = some (linked name id m.project) }

unfoldable pub link_github : Text → Option Text → RailyardManifest → RailyardManifest
link_github repo branch m = record m { github = some (record { repo = repo; branch = branch }) }

-- A JSON value as far as `de_env_map` looks at it: `other` keeps its printed form.
pub data EnvValue : Type 0 where
  string : Text → EnvValue
  number : (printed : Text) → EnvValue
  bool : Bool → EnvValue
  other : (printed : Text) → EnvValue

bool_text : Bool → Text
bool_text true = txt "true"
bool_text false = txt "false"

unfoldable pub env_value : Text → EnvValue → Result Text
unfolding bool_text
env_value key (string s) = ok s
env_value key (number n) = ok n
env_value key (bool b) = ok (bool_text b)
env_value key (other printed) =
    err (
      txt "env value for `" ++ key ++ txt "` must be a string, number, or boolean, got " ++ printed)

-- the loop of `de_env_map`, over the entries in their order
unfoldable pub read_env : List (Text × Text) → List (Text × EnvValue) → Result (List (Text × Text))
unfolding env_value
read_env env [] = ok env
read_env env ((key, value) ∷ raw) = elim (env_value key value) [
  | err e ↦ err e
  | ok text ↦ read_env (insert key text env) raw
]

unfoldable pub de_env_map : List (Text × EnvValue) → Result (List (Text × Text))
unfolding read_env
de_env_map raw = read_env [] raw
