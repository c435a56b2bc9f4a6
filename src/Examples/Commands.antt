-- ===== src/Examples/Commands.antt =====
-- Commands of the client on the toy machine.
use railyard.Base.{
  ◌≡◌, ◌≢◌, ◌⊎◌, Bool, refl, inl, text_eq, txt, Text, get, split, split_once, ok_or, none, some,
  err, List, [], ◌∷◌, is_none, ok, ◌>>=◌, pure, lift,
}
use railyard.Types.{WhoamiResponse, whoami_path}
use railyard.Manifest.Model.{default_manifest}
use railyard.Manifest.Parse.{parse, parse_value, validated, unless_errors, parse-IsSoundManifest}
use railyard.Manifest.Validate.Services.{each, if_some}
use railyard.Manifest.Validate.Cycle.{edges_of, for_each, visit_all, find_env_reference_cycle}
use railyard.Manifest.Validate.Whole.{validate, IsSoundManifest}
use railyard.Client.Machine.{reads, transmit, read_file}
use railyard.Client.Config.{read_signing_key, parsed_key, stored_key, secret_key}
use railyard.Client.Http.{
  control_plane_api_url, with_path, push_segments, expect, signed_request, with_port,
  signed_request_with_type, prepared, whoami, whoami_outcome,
}
use railyard.Client.Login.Enrol.{login}
use railyard.Client.Login.{find_identity, found_identity, confirmed_identity}
use railyard.Client.Login.Found.{IsConfirmed, find_identity-IsConfirmed}
use railyard.Client.Login.Gate.{IsCurrent, login-IsCurrent}
use railyard.Client.Resolve.Manifests.{LinkedProject}
use railyard.Client.Resolve.Servers.{NamedServer, present, server_project_presence, whoami_presence}
use railyard.Client.Commands.Confined.{IsQuiet, show_whoami, run_query, run_query-IsQuiet}
use railyard.Client.Commands.Link.{link_chosen}
use railyard.Client.Commands.Up.{deploy}
use railyard.Client.Commands.Unconfirmed.{IsRefused, unconfirmed-IsRefused}
use railyard.Examples.Toys.{an_outside, some_formats, a_machine, an_entry}

empty_parsed : parse some_formats (txt "{}") ≡ ok default_manifest
unfolding parse parse_value validated unless_errors validate if_some each find_env_reference_cycle
    edges_of for_each visit_all
empty_parsed = refl

parse-IsSoundManifest_example : IsSoundManifest default_manifest
parse-IsSoundManifest_example =
    parse-IsSoundManifest some_formats (λ edges n. (λ h. h, λ h. h)) (txt "{}") default_manifest
      (inl empty_parsed)

run_query-IsQuiet_example :
    IsQuiet a_machine.files a_machine.asked (run_query an_outside (show_whoami none) a_machine).1
run_query-IsQuiet_example = run_query-IsQuiet an_outside (show_whoami none) a_machine

abbrev a_project : LinkedProject
a_project = record { id = txt "prj_1"; name = txt "app"; manifest_path = none }

abbrev lost_entry : NamedServer
lost_entry = (txt "api", record an_entry { private_key_path = txt "/none" })

unknown_there : (server_project_presence an_outside lost_entry.1 a_project a_machine).0 ≢ ok present
unfolding server_project_presence whoami whoami_outcome signed_request signed_request_with_type
    prepared whoami_path whoami_presence read_signing_key parsed_key read_file get text_eq txt reads
    lift ◌>>=◌
unknown_there e = cc e

unconfirmed-IsRefused_example :
    IsRefused
      (deploy an_outside none (txt "/w") a_project lost_entry)
      (server_project_presence an_outside lost_entry.1 a_project)
      a_machine
    × IsRefused
        (link_chosen an_outside a_project lost_entry)
        (server_project_presence an_outside lost_entry.1 a_project)
        a_machine
unconfirmed-IsRefused_example =
    unconfirmed-IsRefused an_outside a_project lost_entry none (txt "/w") a_machine unknown_there

abbrev stored_entries : List NamedServer
stored_entries =
    (txt "old", record an_entry { server_url = txt "https://old.local" })
    ∷ (txt "api", an_entry)
    ∷ []

abbrev of_every_project : WhoamiResponse → Bool
of_every_project who = is_none who.project_id

abbrev an_identity : WhoamiResponse
an_identity = record {
  user_id = txt "usr_1";
  name = txt "usr_1";
  project_id = none;
  project_name = none;
}

identity_found :
    (find_identity an_outside of_every_project an_entry.server_url stored_entries a_machine).0
    ≡ ok (some (txt "api", an_identity))
unfolding find_identity found_identity confirmed_identity whoami whoami_outcome signed_request
    signed_request_with_type prepared whoami_path read_signing_key parsed_key stored_key secret_key
    read_file get text_eq txt reads lift ◌>>=◌ control_plane_api_url with_path push_segments
    with_port split split_once expect transmit ok_or pure
identity_found = refl

find_identity-IsConfirmed_example :
    IsConfirmed an_outside of_every_project an_entry.server_url stored_entries
      (txt "api")
      an_identity
find_identity-IsConfirmed_example =
    find_identity-IsConfirmed an_outside of_every_project an_entry.server_url stored_entries
      a_machine (txt "api") an_identity identity_found

login-IsCurrent_example :
    IsCurrent an_outside (txt "no invite") a_machine
    ⊎ ((e : Text) × (login an_outside (txt "no invite") none a_machine ≡ (err e, a_machine)))
login-IsCurrent_example = login-IsCurrent an_outside (txt "no invite") none a_machine
