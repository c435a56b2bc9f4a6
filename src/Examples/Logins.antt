-- ===== src/Examples/Logins.antt =====
-- A login by an invite to a project on the toy machine.
use railyard.Base.{
  ◌≡◌, ◌≢◌, ◌∙◌, sym, true, Result, insert, refl, false, text_eq, text_eq_iff, txt, Text, get,
  starts_with, ends_with, split, split_once, none, some, ok, ◌>>=◌, pure, lift,
}
use railyard.AuthProtocol.{InvitePayload, InviteProject}
use railyard.Client.Paths
use railyard.Client.Paths.{parent, rsplit_once, before_slash}
use railyard.Client.Machine.{
  reads, change, print, transmit, read_file, write_file, create_dir_all, set_private_permissions,
  at_path,
}
use railyard.Client.Config.{
  global_config_path, read_server, decoded, or_default, sanitize_server_name, trim_matches,
  trim_start_matches, record_project_binding, read_global_config, write_global_config, config_root,
  in_client, server_path, key_path, write_server, write_signing_key,
}
use railyard.Client.Signing.{generate_signing_key, public_key_base64}
use railyard.Client.Http.{
  redeem_invite, redeem_invite_path, redeem_url, control_plane_api_url, with_path, push_segments,
  expect,
}
use railyard.Client.Login.Enrol.{enrolled, enrol, same_server, bind_invited}
use railyard.Client.Login.Joined.{IsJoined, enrol-IsJoined}
use railyard.Client.Login.{resolve_server_name}
use railyard.Examples.Toys.{an_outside, a_machine, server_back, key_back, config_back, enough}

abbrev an_invite : InvitePayload
an_invite = record {
  server_url = txt "https://api.local";
  server_name = txt "api";
  user_id = txt "usr_1";
  user_name = txt "ann";
  project = none;
  invite_token = txt "t";
  expires_at = 2000;
}

abbrev the_path : Text
the_path = txt "/h/.config/railyard/client/keys/usr_1.json"

abbrev entry_path : Text
entry_path = txt "/h/.config/railyard/client/servers/api.json"

key_located : key_path an_outside (txt "usr_1") ≡ ok the_path
unfolding key_path in_client config_root Paths.join text_eq txt starts_with ends_with
key_located = refl

entry_located : server_path an_outside (txt "api") ≡ ok entry_path
unfolding server_path in_client config_root Paths.join text_eq txt starts_with ends_with
entry_located = refl

abbrev config_path : Text
config_path = txt "/h/.config/railyard/client/config.json"

files_apart : (entry_path ≢ the_path) × (config_path ≢ the_path) × (config_path ≢ entry_path)
unfolding text_eq txt
files_apart = (
  λ e. let same : false ≡ true = (text_eq_iff entry_path the_path).1 e in cc,
  λ e. let same : false ≡ true = (text_eq_iff config_path the_path).1 e in cc,
  λ e. let same : false ≡ true = (text_eq_iff config_path entry_path).1 e in cc,
)

config_located : global_config_path an_outside ≡ ok config_path
unfolding global_config_path in_client config_root Paths.join text_eq txt starts_with ends_with
config_located = refl

abbrev the_project : InviteProject
the_project = record { id = txt "prj_1"; name = txt "app" }

abbrev project_invite : InvitePayload
project_invite = record an_invite { project = some the_project }

redeemed :
    (redeem_invite an_outside project_invite
      (public_key_base64 an_outside (generate_signing_key an_outside a_machine))
      a_machine).0
    ≡ ok (txt "usr_1")
unfolding redeem_invite redeem_url redeem_invite_path control_plane_api_url with_path push_segments
    split split_once expect transmit lift ◌>>=◌ txt
redeemed = refl

name_chosen : resolve_server_name an_outside (some (txt "api")) project_invite ≡ ok (txt "api")
unfolding resolve_server_name sanitize_server_name trim_matches trim_start_matches txt
name_chosen = refl

joined : (enrol an_outside (some (txt "api")) project_invite a_machine).0 ≡ ok tt
unfolding enrol enrolled reads generate_signing_key public_key_base64 redeem_invite redeem_url
    redeem_invite_path control_plane_api_url with_path push_segments split split_once expect
    transmit lift pure ◌>>=◌ txt write_signing_key key_path write_server server_path in_client
    config_root Paths.join text_eq starts_with ends_with create_dir_all write_file
    set_private_permissions at_path parent rsplit_once before_slash print change resolve_server_name
    sanitize_server_name trim_matches trim_start_matches same_server bind_invited
    record_project_binding read_global_config write_global_config global_config_path read_file
    read_server decoded or_default get insert
joined = refl

enrol-IsJoined_example :
    IsJoined an_outside config_back
      (txt "api")
      (txt "prj_1")
      (record {
        server_url = txt "https://api.local";
        key_id = txt "usr_1";
        private_key_path = the_path;
      })
      (generate_signing_key an_outside a_machine)
      (enrol an_outside (some (txt "api")) project_invite a_machine).1
enrol-IsJoined_example =
    enrol-IsJoined an_outside config_back (λ bytes. refl) key_back server_back enough
      (some (txt "api")) project_invite the_project a_machine (txt "api") (txt "usr_1") entry_path
      the_path refl name_chosen redeemed entry_located key_located
      (
        files_apart.0,
        λ e.
            let same : ◌≡◌ {A = Result Text} (ok config_path) (ok entry_path) =
              sym config_located ∙ e in
            files_apart.2 cc,
        λ e.
            let same : ◌≡◌ {A = Result Text} (ok config_path) (ok the_path) =
              sym config_located ∙ e in
            files_apart.1 cc,
      )
      joined
