-- ===== src/Client/Commands/Link.antt =====
-- apps/cli/src/commands/link.rs and unlink.rs.
use railyard.Base.{
  ◌++◌, Bool, true, false, Text, txt, Option, none, some, List, [], ◌∷◌, ok_or, pure, raise, lift,
  ◌>>=◌, ◌>>◌, if◌then◌else◌,
}
use railyard.Client.Machine.{Act, Outside, reads, print, select}
use railyard.Client.Config.{list_servers, remove_project_binding}
use railyard.Client.Resolve.Manifests.{LinkedProject, manifest_file, confirmed_linked_project}
use railyard.Client.Resolve.Servers.{
  NamedServer, ProjectBinding, bound, stale, unbound, ProjectPresence, present, absent, unknown,
  project_binding, server_project_presence, link_project, server_items, take_at,
}

abbrev pub described : LinkedProject → Text
described project = project.name ++ txt " (" ++ project.id ++ txt ")"

module _ (out : Outside) where
  -- true where there is nothing to do
  unfoldable pub already_bound : LinkedProject → ProjectBinding → Act Bool
  unfolding print
  already_bound project (bound name _) = do
    print (
        txt "Project "
        ++ described project
        ++ txt " is already linked to "
        ++ name
        ++ txt " — nothing to do.")
    print (txt "To link this project to another server, run `railyard unlink` first.")
    pure true
  already_bound project (stale name) = do
    print (
        txt "note: ignoring the link to " ++ name ++ txt ", which no longer exists on this machine")
    pure false
  already_bound project unbound = pure false

  -- the choice is checked before it is recorded
  unfoldable pub link_checked : LinkedProject → NamedServer → ProjectPresence → Act (Unit {0})
  unfolding link_project
  link_checked project entry present = do link_project out project entry; pure tt
  link_checked project entry absent = raise (
      entry.0
      ++ txt " does not have project "
      ++ described project
      ++ txt "; run `railyard init --server "
      ++ entry.0
      ++ txt "` to create it there")
  link_checked project entry (unknown reason) = raise (
      txt "could not check "
      ++ entry.0
      ++ txt " for project "
      ++ project.name
      ++ txt " ("
      ++ reason
      ++ txt "); restore access there and retry")

  unfoldable pub link_chosen : LinkedProject → NamedServer → Act (Unit {0})
  unfolding server_project_presence link_checked
  link_chosen project entry = do
    presence ← server_project_presence out entry.1 project
    link_checked project entry presence

  unfoldable pub choose_server :
      (interactive : Bool) → LinkedProject → List NamedServer → Act NamedServer
  unfolding select server_items take_at
  choose_server interactive project [] =
      raise (txt "no servers found; run `railyard login <blob>` first")
  choose_server interactive project (entry ∷ servers) =
      if interactive
      then (do
        choice ←
            select out (txt "Link project " ++ project.name ++ txt " to which server?")
              (server_items (entry ∷ servers))
        lift (take_at choice (entry ∷ servers)))
      else raise (
          txt "`railyard link` picks a server interactively; rerun on a TTY (project "
          ++ project.name
          ++ txt ", "
          ++ project.id
          ++ txt ")")

  unfoldable pub link_unbound : (interactive : Bool) → LinkedProject → Act (Unit {0})
  unfolding list_servers choose_server link_chosen
  link_unbound interactive project = do
    servers ← list_servers out
    entry ← choose_server interactive project servers
    link_chosen project entry

  unfoldable pub run_link : (interactive : Bool) → Act (Unit {0})
  unfolding confirmed_linked_project manifest_file reads project_binding already_bound link_unbound
  run_link interactive = do
    found ← confirmed_linked_project out interactive
    project ← lift (
        ok_or found (
          txt "no project in this directory ("
          ++ manifest_file
          ++ txt " with a project.id); run `railyard init` to create one"))
    binding ← reads (project_binding out project.id)
    finished ← already_bound project binding
    if finished then pure tt else link_unbound interactive project

  unfoldable pub unlinked_note : LinkedProject → Option Text → Text
  unfolding manifest_file
  unlinked_note project (some server_name) =
      txt "Unlinked project "
      ++ described project
      ++ txt " from "
      ++ server_name
      ++ txt "; "
      ++ manifest_file
      ++ txt " keeps its id, so `railyard init` can link it again"
  unlinked_note project none =
      txt "Project " ++ described project ++ txt " is not linked to any server — nothing to do."

  unfoldable pub run_unlink : (interactive : Bool) → Act (Unit {0})
  unfolding confirmed_linked_project manifest_file remove_project_binding print unlinked_note
  run_unlink interactive = do
    found ← confirmed_linked_project out interactive
    project ← lift (
        ok_or found (
          txt "no project linked in this directory ("
          ++ manifest_file
          ++ txt " with a project.id)"))
    removed ← remove_project_binding out project.id
    print (unlinked_note project removed)
