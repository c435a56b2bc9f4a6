-- ===== src/Client/Resolve/Offer.antt =====
-- `offer_project_link` and `resolve_project_server` of apps/cli/src/resolve.rs.
use railyard.Base.{
  ◌++◌, join, Bool, true, Text, txt, List, [], ◌∷◌, pure, raise, lift, ◌>>=◌, ◌>>◌, if◌then◌else◌,
}
use railyard.Client.Machine.{Act, Outside, reads, print, confirm, select}
use railyard.Client.Config.{list_servers}
use railyard.Client.Resolve.Manifests.{LinkedProject}
use railyard.Client.Resolve.Servers.{
  NamedServer, ProjectBinding, bound, stale, unbound, take_at, server_items, server_names, survey,
  link_project, project_binding,
}

module _ (out : Outside) where
  abbrev pub of_project : LinkedProject → Text
  of_project project = project.name ++ txt " (" ++ project.id ++ txt ")"

  -- no server has the project
  unfoldable pub none_found : LinkedProject → List Text → Text
  unfolding join
  none_found project [] =
      txt
        "this project is not linked to a server on this machine, and none of your servers have project "
      ++ of_project project
      ++ txt "; run `railyard init` to create it"
  none_found project (u ∷ unchecked) =
      txt
        "this project is not linked to a server on this machine, and no reachable server has project "
      ++ of_project project
      ++ txt "; could not check "
      ++ join (txt ", ") (u ∷ unchecked)
      ++ txt
          " — restore access there before running `railyard init`, which would create the project anew"

  unfoldable pub offer_one : (interactive : Bool) → LinkedProject → NamedServer → Act NamedServer
  unfolding confirm link_project
  offer_one interactive project entry =
      if interactive
      then (do
        sure ←
            confirm out
              (txt "Found project "
                ++ project.name
                ++ txt " on server "
                ++ entry.0
                ++ txt ". Would you like to link it?")
              true
        if sure
            then link_project out project entry
            else raise (txt "this project is not linked to a server on this machine"))
      else raise (
          txt "found project "
          ++ of_project project
          ++ txt " on server "
          ++ entry.0
          ++ txt ", but this directory is not linked to it; rerun interactively to link")

  unfoldable pub offer_several :
      (interactive : Bool) → LinkedProject → List NamedServer → Act NamedServer
  unfolding select link_project take_at server_items join
  offer_several interactive project candidates =
      if interactive
      then (do
        choice ←
            select out
              (txt "Project " ++ project.name ++ txt " exists on several servers; link which one?")
              (server_items candidates)
        entry ← lift (take_at choice candidates)
        link_project out project entry)
      else raise (
          txt "project "
          ++ of_project project
          ++ txt " exists on several servers ("
          ++ join (txt ", ") (server_names candidates)
          ++ txt "); rerun interactively to choose one to link")

  unfoldable pub offer :
      (interactive : Bool)
      → LinkedProject
      → (unchecked : List Text) → List NamedServer
      → Act NamedServer
  unfolding none_found offer_one offer_several
  offer interactive project unchecked [] = raise (none_found project unchecked)
  offer interactive project unchecked (entry ∷ []) = offer_one interactive project entry
  offer interactive project unchecked (a ∷ b ∷ candidates) =
      offer_several interactive project (a ∷ b ∷ candidates)

  unfoldable pub offer_project_link : (interactive : Bool) → LinkedProject → Act NamedServer
  unfolding list_servers survey offer
  offer_project_link interactive project = do
    servers ← list_servers out
    s ← survey out project servers
    offer interactive project s.unchecked s.candidates

  unfoldable pub resolve_binding :
      (interactive : Bool) → LinkedProject → ProjectBinding → Act NamedServer
  unfolding print offer_project_link
  resolve_binding interactive project (bound name server) = pure (name, server)
  resolve_binding interactive project (stale name) = do
    print (
        txt "note: project "
        ++ project.name
        ++ txt " was linked to "
        ++ name
        ++ txt
            ", which no longer exists on this machine; looking for the project on your other servers")
    offer_project_link interactive project
  resolve_binding interactive project unbound = offer_project_link interactive project

  unfoldable pub resolve_project_server : (interactive : Bool) → LinkedProject → Act NamedServer
  unfolding reads project_binding resolve_binding
  resolve_project_server interactive project = do
    binding ← reads (project_binding out project.id)
    resolve_binding interactive project binding
