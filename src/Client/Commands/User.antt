-- ===== src/Client/Commands/User.antt =====
-- apps/cli/src/commands/user.rs.
use railyard.Base.{
  ℕ, ◌-◌, ◌/◌, ◌++◌, ◌||◌, not, ltb, length, is_some, is_none, is_some_and, unwrap_or, Bool, true,
  false, Text, txt, Option, none, some, List, [], ◌∷◌, ok, pure, raise, lift, ◌>>=◌, ◌>>◌,
  if◌then◌else◌,
}
use railyard.Types.{UserSummary, WhoamiResponse}
use railyard.Client.Machine.{ServerConfig, Act, Outside, reads, print, confirm, select}
use railyard.Client.Config.{list_servers}
use railyard.Client.Http.{whoami, create_user, list_users, remove_user}
use railyard.Client.Login.{confirmed_identity}
use railyard.Client.Resolve.Manifests.{LinkedProject, manifest_file, confirmed_linked_project}
use railyard.Client.Resolve.Servers.{
  NamedServer, resolve_server, server_named, server_items, take_at,
}
use railyard.Client.Resolve.Offer.{resolve_project_server}

module _ (out : Outside) where
  unfoldable pub format_age : ℕ → Text
  format_age seconds =
      if ltb seconds 60
      then out.crates.number seconds ++ txt "s"
      else if ltb seconds 3600
      then out.crates.number (seconds / 60) ++ txt "m"
      else if ltb seconds 86400
      then out.crates.number (seconds / 3600) ++ txt "h"
      else out.crates.number (seconds / 86400) ++ txt "d"

  unfoldable pub print_invite : Text → Act (Unit {0})
  unfolding print
  print_invite blob = do
    print (txt "Single-use invite, expires in 24h. Redeem with `railyard login <blob>`:")
    print []
    print blob

  -- `matches!`: the server confirms an identity that has no project
  unfoldable pub is_admin_identity : ServerConfig → Act Bool
  unfolding whoami confirmed_identity
  is_admin_identity server m =
      let (r, m') = whoami out server m in
      (ok (is_some_and (λ (w : WhoamiResponse). is_none w.project_id) (confirmed_identity r)), m')

  unfoldable pub admin_servers : List NamedServer → Act (List NamedServer)
  unfolding is_admin_identity
  admin_servers [] = pure []
  admin_servers (entry ∷ rest) = do
    admin ← is_admin_identity entry.1
    others ← admin_servers rest
    pure (if admin then entry ∷ others else others)

  unfoldable pub choose_admin : List NamedServer → Act NamedServer
  unfolding confirm select server_items take_at
  choose_admin [] = raise (
      txt
        "none of your servers answered with an admin identity, and only admins can mint invites; check `railyard whoami`")
  choose_admin (entry ∷ []) = do
    sure ←
        confirm out
          (txt "Only "
            ++ entry.0
            ++ txt " ("
            ++ entry.1.server_url
            ++ txt ") holds an admin identity here. Create the admin invite there?")
          true
    if sure then pure entry else raise (txt "no server chosen; pass --server <name> to pick one")
  choose_admin (a ∷ b ∷ candidates) = do
    choice ←
        select out (txt "Create the admin invite on which server?")
          (server_items (a ∷ b ∷ candidates))
    lift (take_at choice (a ∷ b ∷ candidates))

  unfoldable pub resolve_admin_server :
      (interactive : Bool) → (explicit : Option Text) → Act NamedServer
  unfolding list_servers resolve_server admin_servers choose_admin
  resolve_admin_server interactive explicit = do
    servers ← list_servers out
    if is_some explicit || ltb (length servers) 2 || not interactive
        then resolve_server out explicit
        else (admin_servers servers >>= choose_admin)

  unfoldable pub add_admin : (interactive : Bool) → Text → Option Text → Act (Unit {0})
  unfolding resolve_admin_server create_user print print_invite
  add_admin interactive name server_flag = do
    server ← resolve_admin_server interactive server_flag
    created ← create_user out server.1 name none
    print
        (txt "Created admin user " ++ name ++ txt " with access to all of " ++ server.0 ++ txt ".")
    print_invite created.invite_blob

  unfoldable pub project_server :
      (interactive : Bool) → LinkedProject → (server_flag : Option Text) → Act NamedServer
  unfolding reads server_named resolve_project_server
  project_server interactive project (some name) = reads (server_named out name)
  project_server interactive project none = resolve_project_server out interactive project

  unfoldable pub add_to_project :
      (interactive : Bool) → Text → Option Text → Option LinkedProject → Act (Unit {0})
  unfolding manifest_file project_server create_user print print_invite
  add_to_project interactive name server_flag none = raise (
      txt "no project linked in this directory ("
      ++ manifest_file
      ++ txt
          " with a project.id); run `railyard init` first, or pass --admin to invite someone to a whole server")
  add_to_project interactive name server_flag (some project) = do
    server ← project_server interactive project server_flag
    created ← create_user out server.1 name (some project.id)
    print (
        txt "Created user "
        ++ name
        ++ txt " scoped to project "
        ++ project.name
        ++ txt " on "
        ++ server.0
        ++ txt ".")
    print_invite created.invite_blob

  unfoldable pub add : (interactive : Bool) → Text → (admin : Bool) → Option Text → Act (Unit {0})
  unfolding add_admin confirmed_linked_project add_to_project
  add interactive name true server_flag = add_admin interactive name server_flag
  add interactive name false server_flag = do
    project ← confirmed_linked_project out interactive
    add_to_project interactive name server_flag project

  abbrev pub user_line : ℕ → UserSummary → Text
  user_line now user =
      user.name
      ++ txt "\t"
      ++ user.id
      ++ txt "\t"
      ++ unwrap_or (txt "admin") user.project_id
      ++ txt "\t"
      ++ (if user.has_key then txt "active" else txt "invited")
      ++ txt "\tcreated "
      ++ format_age (now - user.created_at)
      ++ txt " ago"

  unfoldable pub print_users : ℕ → List UserSummary → Act (Unit {0})
  unfolding print format_age
  print_users now [] = pure tt
  print_users now (user ∷ users) = do print (user_line now user); print_users now users

  unfoldable pub list_shown : Text → List UserSummary → Act (Unit {0})
  unfolding reads print print_users
  list_shown empty_line [] = print empty_line
  list_shown empty_line (user ∷ users) = do
    now ← reads λ m. ok (out.unix_timestamp m)
    print_users now (user ∷ users)

  unfoldable pub list : (server_flag : Option Text) → Act (Unit {0})
  unfolding resolve_server list_users list_shown
  list server_flag = do
    server ← resolve_server out server_flag
    users ← list_users out server.1
    list_shown (txt "No users on " ++ server.0 ++ txt ".") users

  unfoldable pub remove : Text → (server_flag : Option Text) → Act (Unit {0})
  unfolding resolve_server remove_user print
  remove name server_flag = do
    server ← resolve_server out server_flag
    found ← remove_user out server.1 name
    if found
        then print (
            txt "Removed user " ++ name ++ txt " from " ++ server.0 ++ txt " and revoked its keys.")
        else print (txt "No user named " ++ name ++ txt " on " ++ server.0 ++ txt ".")
