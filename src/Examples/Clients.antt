-- ===== src/Examples/Clients.antt =====
-- The client on the toy machine, and its requests at the toy server.
use railyard.Base.{
  ◌≡◌, ◌⊎◌, ◌↔◌, refl, true, text_eq, txt, Text, get, insert, starts_with, ends_with, filter, find,
  split, split_once, none, some, List, [], ◌∷◌, ok, ok_or, ◌>>=◌, pure, lift,
}
use mathlib.Core.Option
use railyard.Types.{projects_path}
use railyard.Server.Db.{query}
use railyard.Server.Db.Users.{AuthUser, key_owner}
use railyard.Server.Requests.{HttpRequest}
use railyard.Server.Signatures.{in_window, retained}
use railyard.Server.Routes.{is_valid_project_name}
use railyard.Manifest.Validate.Names.{is_valid_name}
use railyard.Client.Paths
use railyard.Client.Paths.{parent, rsplit_once, before_slash}
use railyard.Client.Machine.{
  ClientRequest, there, reads, read_file, write_file, create_dir_all, set_private_permissions,
  at_path,
}
use railyard.Client.Config.{
  config_root, in_client, server_path, key_path, global_config_path, decoded, or_default,
  read_global_config, write_global_config, read_project_binding, record_project_binding,
  rebind_projects, remove_project_binding, without, moved_to, count_bound, write_server,
  read_server, write_signing_key, read_signing_key, parsed_key, stored_key, secret_key,
  sanitize_server_name, trim_matches, trim_start_matches,
}
use railyard.Client.Config.Names.{IsServerName, sanitize_server_name-IsServerName}
use railyard.Client.Config.Places.{IsEntryOf, server_path-IsEntryOf}
use railyard.Client.Config.Stored.{read_signing_key-write_signing_key, read_server-write_server}
use railyard.Client.Config.Bindings.{
  Bindings, Change, record_binding, remove_binding, rebind, effects, perform_all, Represents,
  perform_all-Represents,
}
use railyard.Client.Signing.{random_nonce, public_key_base64}
use railyard.Client.Signing.Accepted.{IsAccepted, prepared-IsAccepted}
use railyard.Client.Http.{
  signed_message, prepared, control_plane_api_url, with_path, push_segments, with_port,
}
use railyard.Client.Init.{sanitize_project_name}
use railyard.Client.Init.Names.{sanitize_project_name-valid}
use railyard.Client.Resolve.Manifests.{find_manifest}
use railyard.Client.Resolve.Walk.{Nearest, find_manifest_iff}
use railyard.Examples.Data.{a_key, a_state}
use railyard.Examples.Toys.{
  an_outside, a_machine, an_entry, server_back, key_back, config_back, hex_lower,
}

sanitize_server_name-IsServerName_example :
    IsServerName (sanitize_server_name (txt "../api.local/"))
sanitize_server_name-IsServerName_example = sanitize_server_name-IsServerName (txt "../api.local/")

entry_placed :
    server_path an_outside (sanitize_server_name (txt "../api.local/"))
    ≡ ok (txt "/h/.config/railyard/client/servers/api-local.json")
unfolding server_path in_client config_root Paths.join sanitize_server_name trim_matches
    trim_start_matches starts_with ends_with text_eq txt
entry_placed = refl

server_path-IsEntryOf_example :
    IsEntryOf an_outside
      (sanitize_server_name (txt "../api.local/"))
      (txt "/h/.config/railyard/client/servers/api-local.json")
server_path-IsEntryOf_example =
    server_path-IsEntryOf an_outside (txt "../api.local/")
      (txt "/h/.config/railyard/client/servers/api-local.json") entry_placed

sanitize_project_name-valid_example :
    (sanitize_project_name (txt "My App!") ≡ [])
    ⊎ ((is_valid_name (sanitize_project_name (txt "My App!")) ≡ true)
        × (is_valid_project_name (sanitize_project_name (txt "My App!")) ≡ true))
sanitize_project_name-valid_example = sanitize_project_name-valid (txt "My App!")

abbrev the_url : Text
the_url = txt "https://api.local/api/projects"

abbrev the_message : ClientRequest
the_message =
    signed_message an_outside a_key an_entry (txt "GET") the_url (txt "api.local") []
      (txt "application/json") a_machine

abbrev the_request : HttpRequest
the_request = record {
  method = the_message.method;
  path_and_query = some (an_outside.urls.from_path the_message.url);
  authority = none;
  header = λ name. get name the_message.headers;
  body = the_message.body;
  signed_hash = none;
  user = none;
}

abbrev the_user : AuthUser
the_user = record { id = txt "usr_1"; name = txt "ann"; project_id = none }

key_there : read_signing_key an_outside (txt "/k") a_machine ≡ ok a_key
unfolding read_signing_key parsed_key stored_key secret_key read_file get text_eq txt
key_there = refl

prepared_request :
    (prepared an_outside an_entry (txt "GET") projects_path [] (txt "application/json") a_machine).0
    ≡ ok the_message
unfolding prepared read_signing_key parsed_key stored_key secret_key read_file get text_eq txt
    projects_path control_plane_api_url with_path push_segments with_port split split_once ◌>>=◌
    lift reads ok_or
prepared_request = refl

prepared-IsAccepted_example : IsAccepted an_outside.crates 1200 the_request a_state the_user
unfolding key_owner query find Option.bind public_key_base64 random_nonce in_window retained filter
    get text_eq txt
prepared-IsAccepted_example =
    prepared-IsAccepted an_outside (λ n. refl) (λ bytes. refl) hex_lower (λ key. refl) (λ key. refl)
      (λ key message. refl) (λ key message. refl) an_entry (txt "GET") projects_path []
      (txt "application/json") a_machine a_key the_message the_request 1200 a_state the_user
      key_there prepared_request
      (record { method = refl; path = refl; header = λ name. refl; body = refl }) refl refl refl

key_written :
    (write_signing_key an_outside (txt "k2") a_key a_machine).0
    ≡ ok (txt "/h/.config/railyard/client/keys/k2.json")
unfolding write_signing_key key_path in_client config_root Paths.join text_eq txt lift ◌>>=◌
    create_dir_all write_file set_private_permissions at_path pure parent rsplit_once before_slash
    starts_with ends_with
key_written = refl

read_signing_key-write_signing_key_example :
    read_signing_key an_outside
      (txt "/h/.config/railyard/client/keys/k2.json")
      (write_signing_key an_outside (txt "k2") a_key a_machine).1
    ≡ ok a_key
unfolding txt
read_signing_key-write_signing_key_example =
    read_signing_key-write_signing_key an_outside (λ bytes. refl) key_back (txt "k2") a_key
      a_machine _ refl key_written

server_written :
    (write_server an_outside (txt "api") an_entry a_machine).0
    ≡ ok (txt "/h/.config/railyard/client/servers/api.json")
unfolding write_server server_path in_client config_root Paths.join text_eq txt lift ◌>>=◌
    create_dir_all write_file at_path pure parent rsplit_once before_slash starts_with ends_with
server_written = refl

server_there :
    read_server an_outside (txt "api") (write_server an_outside (txt "api") an_entry a_machine).1
    ≡ there an_entry
server_there =
    read_server-write_server an_outside server_back (txt "api") an_entry a_machine _ server_written

abbrev some_changes : List Change
some_changes =
    record_binding (txt "p") (txt "a")
    ∷ record_binding (txt "q") (txt "a")
    ∷ rebind (txt "a") (txt "b")
    ∷ remove_binding (txt "q")
    ∷ []

abbrev unbound_all : Bindings
unbound_all q = none

fresh_machine : Represents an_outside a_machine unbound_all
unfolding read_project_binding read_global_config or_default decoded read_file global_config_path
    in_client config_root Paths.join text_eq txt get starts_with ends_with
fresh_machine q = refl

changes_made : (perform_all an_outside some_changes a_machine).0 ≡ ok tt
unfolding record_project_binding rebind_projects remove_project_binding write_global_config
    read_project_binding read_global_config or_default decoded read_file global_config_path
    in_client config_root Paths.join text_eq txt get insert without moved_to count_bound filter lift
    reads ◌>>=◌ pure create_dir_all write_file at_path parent rsplit_once before_slash starts_with
    ends_with
changes_made = refl

perform_all-Represents_example :
    Represents an_outside
      (perform_all an_outside some_changes a_machine).1
      (effects some_changes unbound_all)
perform_all-Represents_example =
    perform_all-Represents an_outside config_back some_changes a_machine unbound_all fresh_machine
      changes_made

find_manifest_iff_example :
    (find_manifest an_outside (txt "/w/app") a_machine
      ≡ ok (some (txt "/w/.railyard.json", txt "{}")))
    ↔ Nearest an_outside a_machine (txt "/w/app") (txt "/w/.railyard.json", txt "{}")
find_manifest_iff_example =
    find_manifest_iff an_outside a_machine (txt "/w/app") (txt "/w/.railyard.json", txt "{}")
