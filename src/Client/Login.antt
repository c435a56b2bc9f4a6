-- ===== src/Client/Login.antt =====
-- apps/cli/src/commands/login.rs: an invite becomes an entry of a server with a key.
use mathlib.Core.Option
use railyard.Base.{
  ℕ, ◌==◌, ◌||◌, ◌&&◌, ◌++◌, not, leb, is_empty, is_some, is_none, is_some_and, unwrap_or, filter,
  find, map, trim, split, strip_prefix, is_lower, is_digit, Bool, true, false, Text, txt, text_eq,
  Option, none, some, List, [], ◌∷◌, Result, ok, err, ensure, pure, raise, lift, ◌>>=◌, ◌>>◌,
  if◌then◌else◌,
}
use railyard.AuthProtocol
use railyard.AuthProtocol.{InvitePayload, InviteProject, invite_blob_prefix}
use railyard.Types.{WhoamiResponse}
use railyard.Client.Lowercase.{to_lowercase}
use railyard.Client.Machine.{
  ServerConfig, Machine, Act, Outside, Output, Reading, there, missing, broken, reads, print,
}
use railyard.Client.Config.{
  list_servers, read_server, rebind_projects, record_project_binding, remove_server,
  sanitize_server_name, write_server, write_signing_key,
}
use railyard.Client.Signing.{generate_signing_key, public_key_base64}
use railyard.Client.Http.{WhoamiOutcome, identity, rejected, unreachable, whoami, redeem_invite}
use railyard.Client.Resolve.Servers.{NamedServer}
pub mod Enrol
pub mod Enrolled
pub mod Found
pub mod Gate
pub mod Joined

unfoldable pub sanitize_user_name : Text → Text
unfolding to_lowercase
sanitize_user_name raw =
    filter (λ c. is_lower c || is_digit c || c == b'-' || c == b'_') (to_lowercase raw)

-- the identity that a server has confirmed
unfoldable pub confirmed_identity : Result WhoamiOutcome → Option WhoamiResponse
confirmed_identity (ok (identity who)) = some who
confirmed_identity (ok (rejected _)) = none
confirmed_identity (ok unreachable) = none
confirmed_identity (err _) = none

unfoldable pub same_option : Option Text → Option Text → Bool
same_option none none = true
same_option (some a) (some b) = text_eq a b
same_option none (some _) = false
same_option (some _) none = false

-- the first of the names that is not empty
unfoldable pub first_name : List Text → Option Text
first_name names = find (λ name. not (is_empty name)) names

module _ (out : Outside) where
  -- the host of the URL, where it has one
  unfoldable pub host_names : Result Text → List Text
  unfolding sanitize_server_name
  host_names (err _) = []
  host_names (ok url) = elim (out.urls.host_str url) [
    | none ↦ []
    | some host ↦ sanitize_server_name host ∷ []
  ]

  abbrev pub project_names : Option InviteProject → List Text
  project_names none = []
  project_names (some project) = sanitize_server_name project.name ∷ []

  unfoldable pub resolve_server_name : (explicit : Option Text) → InvitePayload → Result Text
  unfolding sanitize_server_name first_name host_names
  resolve_server_name (some raw) invite =
      let name = sanitize_server_name raw in
      if is_empty name then err (txt "server name has no usable characters") else ok name
  resolve_server_name none invite =
      elim (first_name (
        project_names invite.project
        ++ (sanitize_server_name invite.server_name
            ∷ host_names (out.urls.parse invite.server_url)))) [
              | some name ↦ ok name
              | none ↦
                  err (txt "could not derive a server name from this invite; pass --name <name>")
            ]

  -- one entry of the loop: its server is asked, and the loop goes on where it is not wanted
  unfoldable pub found_identity :
      (WhoamiResponse → Bool)
      → Text
      → Option WhoamiResponse
      → Act (Option (Text × WhoamiResponse))
      → Act (Option (Text × WhoamiResponse))
  found_identity wanted name none later = later
  found_identity wanted name (some who) later =
      if wanted who then pure (some (name, who)) else later

  -- the first identity on the server of the URL that is confirmed and wanted
  unfoldable pub find_identity :
      (WhoamiResponse → Bool) → Text → List NamedServer → Act (Option (Text × WhoamiResponse))
  unfolding confirmed_identity found_identity whoami
  find_identity wanted url [] = pure none
  find_identity wanted url ((name, server) ∷ rest) =
      let later = find_identity wanted url rest in
      if text_eq server.server_url url
      then (λ m.
          let (r, m') = whoami out server m in
          found_identity wanted name (confirmed_identity r) later m')
      else later

  abbrev pub project_id_of : Option InviteProject → Option Text
  project_id_of project = Option.map (λ (p : InviteProject). p.id) project

  unfoldable pub existing_different_user_with_same_scope :
      InvitePayload → Act (Option (Text × WhoamiResponse))
  unfolding find_identity list_servers same_option
  existing_different_user_with_same_scope invite = do
    servers ← list_servers out
    find_identity
        (λ who.
          same_option who.project_id (project_id_of invite.project)
          && not (text_eq who.user_id invite.user_id))
        invite.server_url servers

  unfoldable pub existing_access : Text → Text → Act (Option (Text × WhoamiResponse))
  unfolding find_identity list_servers
  existing_access server_url project_id = do
    servers ← list_servers out
    find_identity (λ who. is_none who.project_id || is_some_and (text_eq project_id) who.project_id)
        server_url servers

  -- an entry that is confirmed to be of a project is removed, and its bindings moved
  unfoldable pub supersede_entry : Text → Text → Bool → Act (Unit {0})
  unfolding rebind_projects remove_server print
  supersede_entry name admin_entry false = pure tt
  supersede_entry name admin_entry true = do
    relinked ← rebind_projects out name admin_entry
    remove_server out name
    if relinked == 0
        then print (
            txt "Removed project entry " ++ name ++ txt "; " ++ admin_entry ++ txt " covers it now")
        else print (
            txt "Removed project entry "
            ++ name
            ++ txt " and relinked "
            ++ out.crates.number relinked
            ++ txt " project(s) to "
            ++ admin_entry)

  abbrev pub is_project_scoped : Option WhoamiResponse → Bool
  is_project_scoped who = is_some_and (λ (w : WhoamiResponse). is_some w.project_id) who

  unfoldable pub supersede_entries : Text → Text → List NamedServer → Act (Unit {0})
  unfolding supersede_entry confirmed_identity whoami
  supersede_entries server_url admin_entry [] = pure tt
  supersede_entries server_url admin_entry ((name, server) ∷ rest) =
      let later = supersede_entries server_url admin_entry rest in
      if text_eq name admin_entry || not (text_eq server.server_url server_url)
      then later
      else (λ m.
          let (r, m') = whoami out server m in
          supersede_entry name admin_entry (is_project_scoped (confirmed_identity r)) m')
        >> later

  unfoldable pub supersede_project_entries : Text → Text → Act (Unit {0})
  unfolding list_servers supersede_entries
  supersede_project_entries server_url admin_entry = do
    servers ← list_servers out
    supersede_entries server_url admin_entry servers
