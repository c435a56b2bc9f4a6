-- ===== src/Examples/Manifests.antt =====
-- Two services, one of which refers to the other.
use railyard.Base.{
  ◌≡◌, refl, trim, any, contains, count_words, is_whitespace, len_utf8, split, split_once,
  strip_prefix, strip_suffix, trim_start, len, all, starts_with, ends_with, text_eq, get,
  split_once_str, txt, some, [], ◌∷◌, ok,
}
use railyard.Manifest.Model.{
  Service, RailyardManifest, default_manifest, default_service, is_enabled, is_public,
}
use railyard.Manifest.Reference.{
  Reference, cons_reference, invalid, parse_attr, parse_env, parse_loop, parse_named, parse_round,
  parse_service, service, parse_references, parse_token,
}
use railyard.Manifest.Reference.Equation.{parse_references_lem}
use railyard.Manifest.Reference.RoundTrip.{render, parse_token-render}
use railyard.Manifest.Validate.Names.{
  check_relative_path, check_repo, is_repo, is_valid_name, report_if,
}
use railyard.Manifest.Validate.Services.{
  validate_service, check_names, check_paths, check_port, check_dependency, check_strategy,
  check_variable, check_cron, check_found, check_healthcheck, check_mount, check_parsed,
  check_reference, check_target, count_set, each, if_some, needs_port, report_dependency,
}
use railyard.Manifest.Validate.Accepted.{IsSound, validate_service-IsSound}

abbrev web_url : Reference
web_url = Reference.service_env (txt "web") (txt "URL")

parse_token-render_example : parse_token (render web_url) ≡ ok web_url
unfolding txt contains
parse_token-render_example = parse_token-render web_url ((refl, refl), refl)

parse_references_lem_example :
    parse_references (txt "http://${{ services.web.host }}/")
    ≡ parse_round parse_references (txt "http://${{ services.web.host }}/")
parse_references_lem_example = parse_references_lem (txt "http://${{ services.web.host }}/")

abbrev web : Service
web = record default_service { path = some (txt "web"); port = some 80 }

abbrev api : Service
api = record default_service {
  image = some (txt "api:1");
  env = (txt "WEB", txt "http://${{ services.web.host }}:${{services.web.port}}") ∷ [];
  depends_on = txt "web" ∷ [];
}

abbrev two_services : RailyardManifest
two_services = record default_manifest { services = (txt "web", web) ∷ (txt "api", api) ∷ [] }

accepted : validate_service two_services (txt "api", api) ≡ []
unfolding trim any contains count_words is_whitespace len_utf8 split split_once strip_prefix
    strip_suffix trim_start len all starts_with ends_with text_eq get split_once_str txt is_enabled
    is_public cons_reference invalid parse_attr parse_env parse_loop parse_named parse_round
    parse_service service parse_references parse_token check_relative_path check_repo is_repo
    is_valid_name report_if validate_service check_names check_paths check_port check_dependency
    check_strategy check_variable check_cron check_found check_healthcheck check_mount check_parsed
    check_reference check_target count_set each if_some needs_port report_dependency
accepted = refl

validate_service-IsSound_example : IsSound two_services (txt "api") api
validate_service-IsSound_example = validate_service-IsSound two_services (txt "api") api accepted
