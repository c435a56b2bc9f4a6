-- ===== src/Examples/Cycles.antt =====
-- Two services that refer to each other's variables, and one that refers to none.
use railyard.Base.{
  ◌≡◌, refl, keys, txt, Text, trim, any, contains, count_words, is_whitespace, len_utf8, split,
  split_once, strip_prefix, strip_suffix, trim_start, len, all, starts_with, ends_with, text_eq,
  get, insert, split_once_str, some, none, List, [], ◌∷◌,
}
use railyard.Manifest.Model.{
  Service, RailyardManifest, default_manifest, default_service, is_enabled, is_public,
}
use railyard.Manifest.Reference.{
  cons_reference, invalid, parse_attr, parse_env, parse_loop, parse_named, parse_round,
  parse_service, service, parse_references, parse_token,
}
use railyard.Manifest.Validate.Names.{
  check_relative_path, check_repo, is_repo, is_valid_name, report_if,
}
use railyard.Manifest.Validate.Services.{
  validate_service, check_names, check_paths, check_port, check_dependency, check_strategy,
  check_variable, check_cron, check_found, check_healthcheck, check_mount, check_parsed,
  check_reference, check_target, count_set, each, if_some, needs_port, report_dependency,
}
use railyard.Manifest.Validate.Cycle.{
  Edges, targets, push, for_each, push_reference, push_parsed, push_value, push_service, edges_of,
  from_first, cycle_at, pop, leave, visit_all, by_state, visit, find_env_reference_cycle,
}
use railyard.Manifest.Validate.Cycle.Correct.{
  RefersOn, IsOrder, IsReferenceCycle, find_env_reference_cycle_lem,
}
use railyard.Manifest.Validate.Whole.{
  validate, check_project, IsSoundManifest, validate-IsSoundManifest,
}

abbrev order : Edges → List Text
order edges = keys edges

whole : IsOrder order
whole edges n = (λ h. h, λ h. h)

abbrev web : Service
web = record default_service {
  path = some (txt "web");
  port = some 80;
  env = (txt "A", txt "${{services.api.env.B}}") ∷ [];
}

abbrev api : Service
api = record default_service {
  image = some (txt "api:1");
  env = (txt "B", txt "${{services.web.env.A}}") ∷ [];
}

abbrev looped : RailyardManifest
looped = record default_manifest { services = (txt "web", web) ∷ (txt "api", api) ∷ [] }

abbrev sound : RailyardManifest
sound = record default_manifest {
  services = (txt "web", web) ∷ (txt "api", record api { env = (txt "B", txt "1") ∷ [] }) ∷ [];
}

found : find_env_reference_cycle order looped ≡ some (txt "web" ∷ txt "api" ∷ txt "web" ∷ [])
unfolding trim any contains is_whitespace len_utf8 split split_once strip_prefix strip_suffix
    trim_start len all starts_with ends_with text_eq get insert split_once_str txt cons_reference
    invalid parse_attr parse_env parse_loop parse_named parse_round parse_service service
    parse_references parse_token targets push for_each push_reference push_parsed push_value
    push_service edges_of from_first cycle_at pop leave visit_all by_state visit
    find_env_reference_cycle
found = refl

accepted : validate order sound ≡ []
unfolding trim any contains count_words is_whitespace len_utf8 split split_once strip_prefix
    strip_suffix trim_start len all starts_with ends_with text_eq get insert split_once_str txt
    is_enabled is_public cons_reference invalid parse_attr parse_env parse_loop parse_named
    parse_round parse_service service parse_references parse_token check_relative_path check_repo
    is_repo is_valid_name report_if validate_service check_names check_paths check_port
    check_dependency check_strategy check_variable check_cron check_found check_healthcheck
    check_mount check_parsed check_reference check_target count_set each if_some needs_port
    report_dependency targets push for_each push_reference push_parsed push_value push_service
    edges_of from_first cycle_at pop leave visit_all by_state visit find_env_reference_cycle
    validate check_project
accepted = refl

looped_cycle : IsReferenceCycle looped (txt "web" ∷ txt "api" ∷ txt "web" ∷ [])
looped_cycle = (find_env_reference_cycle_lem looped order whole).0 _ found

find_env_reference_cycle_lem_example :
    ((c : List Text) → find_env_reference_cycle order looped ≡ some c → IsReferenceCycle looped c)
    × (find_env_reference_cycle order looped ≡ none → (a : Text) → RefersOn looped a a → ⊥)
find_env_reference_cycle_lem_example = find_env_reference_cycle_lem looped order whole

sound_manifest : IsSoundManifest sound
sound_manifest = validate-IsSoundManifest order whole sound accepted
