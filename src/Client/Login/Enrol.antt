-- ===== src/Client/Login/Enrol.antt =====
-- `login` and `login_ssh` of apps/cli/src/commands/login.rs.
use railyard.Base.{
  ◌++◌, not, leb, is_empty, is_some, is_none, unwrap_or, find, map, trim, split, strip_prefix, Text,
  txt, text_eq, Option, none, some, [], ◌∷◌, Result, ok, err, ok_or, ensure, pure, lift, ◌>>=◌,
  ◌>>◌, if◌then◌else◌,
}
use railyard.AuthProtocol
use railyard.AuthProtocol.{InvitePayload, InviteProject, invite_blob_prefix}
use railyard.Types.{WhoamiResponse}
use railyard.Client.Machine.{
  ServerConfig, Act, Outside, Output, Reading, there, missing, broken, reads, print,
}
use railyard.Client.Config.{read_server, record_project_binding, write_server, write_signing_key}
use railyard.Client.Signing.{generate_signing_key, public_key_base64}
use railyard.Client.Http.{redeem_invite}
use railyard.Client.Login.{
  sanitize_user_name, resolve_server_name, existing_different_user_with_same_scope, existing_access,
  supersede_project_entries,
}

module _ (out : Outside) where
  unfoldable pub no_other_user : InvitePayload → Option (Text × WhoamiResponse) → Result (Unit {0})
  no_other_user invite none = ok tt
  no_other_user invite (some (entry_name, who)) = err (
      txt "already logged in to "
      ++ invite.server_url
      ++ txt " as user "
      ++ who.name
      ++ txt " with the same permissions (server "
      ++ entry_name
      ++ txt "); this invite is for user "
      ++ invite.user_name
      ++ txt ". Log out of "
      ++ entry_name
      ++ txt " first")

  -- an entry of the name is one of the same server
  unfoldable pub same_server : Text → InvitePayload → Reading ServerConfig → Result (Unit {0})
  same_server name invite (missing _) = ok tt
  same_server name invite (broken _) = ok tt
  same_server name invite (there existing) =
      ensure (text_eq existing.server_url invite.server_url) (
        txt "server "
        ++ name
        ++ txt " already points at "
        ++ existing.server_url
        ++ txt "; pass --name <name> to pick another name")

  unfoldable pub bind_invited : Text → Option InviteProject → Act (Unit {0})
  unfolding record_project_binding print
  bind_invited server_name none = pure tt
  bind_invited server_name (some project) = do
    record_project_binding out project.id server_name
    print (
        txt "Linked project "
        ++ project.name
        ++ txt " ("
        ++ project.id
        ++ txt ") to "
        ++ server_name)

  -- the redeemed key and the entry of the server on the disk
  unfoldable pub enrolled : Text → InvitePayload → Act (Unit {0})
  unfolding reads generate_signing_key public_key_base64 redeem_invite write_signing_key
      write_server print
  enrolled server_name invite = do
    signing_key ← reads λ m. ok (generate_signing_key out m)
    key_id ← redeem_invite out invite (public_key_base64 out signing_key)
    key_path ← write_signing_key out key_id signing_key
    write_server out server_name
        (record { server_url = invite.server_url; key_id = key_id; private_key_path = key_path })
    print (
        txt "Logged in to "
        ++ invite.server_url
        ++ txt " (key "
        ++ key_id
        ++ txt ", server "
        ++ server_name
        ++ txt ")")

  -- from the choice of the name on
  unfoldable pub enrol : Option Text → InvitePayload → Act (Unit {0})
  unfolding resolve_server_name reads read_server same_server enrolled supersede_project_entries
      bind_invited
  enrol server_name invite = do
    name ← lift (resolve_server_name out server_name invite)
    existing ← reads λ m. ok (read_server out name m)
    lift (same_server name invite existing)
    enrolled name invite
    if is_none invite.project then supersede_project_entries out invite.server_url name else pure tt
    bind_invited name invite.project

  unfoldable pub link_covered :
      Option Text → InvitePayload → InviteProject → Option (Text × WhoamiResponse) → Act (Unit {0})
  unfolding record_project_binding print enrol
  link_covered server_name invite project none = enrol server_name invite
  link_covered server_name invite project (some (entry_name, who)) = do
    record_project_binding out project.id entry_name
    print (
        txt "Already have access to project "
        ++ project.name
        ++ txt " on "
        ++ invite.server_url
        ++ txt " as user "
        ++ who.name
        ++ txt " (server "
        ++ entry_name
        ++ txt "); linked the project — invite left unredeemed")

  unfoldable pub login_invited : Option Text → InvitePayload → Option InviteProject → Act (Unit {0})
  unfolding existing_access link_covered enrol
  login_invited server_name invite none = enrol server_name invite
  login_invited server_name invite (some project) = do
    covered ← existing_access out invite.server_url project.id
    link_covered server_name invite project covered

  unfoldable pub login : (blob : Text) → (server_name : Option Text) → Act (Unit {0})
  unfolding reads existing_different_user_with_same_scope no_other_user login_invited
      AuthProtocol.parse
  login blob server_name = do
    invite ← lift (AuthProtocol.parse out.crates blob)
    now ← reads λ m. ok (out.unix_timestamp m)
    lift (
        ensure (not (leb invite.expires_at now)) (txt "this invite has expired; ask for a new one"))
    other ← existing_different_user_with_same_scope out invite
    lift (no_other_user invite other)
    login_invited server_name invite invite.project

  -- the user to create over SSH
  unfoldable pub remote_user_name : Option Text → Result Text
  unfolding sanitize_user_name
  remote_user_name (some name) = ok name
  remote_user_name none =
      let local =
        unwrap_or (unwrap_or [] (out.variable (txt "USERNAME"))) (out.variable (txt "USER")) in
      let name = sanitize_user_name local in
      if is_empty name
      then err (txt "could not derive a user name from $USER; pass --user <name>")
      else ok name

  -- the lines of the output, trimmed, up to the first that starts as an invite does
  unfoldable pub printed_blob : Text → Text → Output → Result Text
  unfolding split trim find strip_prefix invite_blob_prefix
  printed_blob target user_name output =
      if output.success
      then ok_or
          (find (λ line. is_some (strip_prefix invite_blob_prefix line))
            (map trim (split b'\n' output.stdout)))
          (txt "the remote `user add` printed no invite blob")
      else err (
          txt "`ssh "
          ++ target
          ++ txt " railyard-server user add "
          ++ user_name
          ++ txt "` failed:\n"
          ++ trim output.stderr)

  unfoldable pub login_ssh :
      (target : Text) → (server_name user_flag : Option Text) → Act (Unit {0})
  unfolding remote_user_name print reads printed_blob login
  login_ssh target server_name user_flag = do
    user_name ← lift (remote_user_name user_flag)
    print (txt "Creating user " ++ user_name ++ txt " on " ++ target ++ txt " over SSH…")
    output ← reads (
        out.run (txt "ssh")
          (target ∷ txt "railyard-server" ∷ txt "user" ∷ txt "add" ∷ user_name ∷ []))
    blob ← lift (printed_blob target user_name output)
    login blob server_name

  -- `run`
  unfoldable pub run : (target : Text) → (name user : Option Text) → Act (Unit {0})
  unfolding strip_prefix invite_blob_prefix login login_ssh
  run target name user =
      if is_some (strip_prefix invite_blob_prefix target)
      then login target name
      else login_ssh target name user
