-- ===== src/Client/Init/Run.antt =====
-- `run` of apps/cli/src/commands/init.rs.
use railyard.Base.{
  ◌==◌, ◌++◌, not, is_some, find, Bool, true, false, Text, txt, text_eq, Option, none, some, [],
  ◌∷◌, pure, raise, lift, ◌>>=◌, ◌>>◌, if◌then◌else◌,
}
use railyard.Types.{ProjectSummary}
use railyard.Manifest.Model
use railyard.Manifest.Model.{Project, RailyardManifest, default_manifest}
use railyard.Client.Paths
use railyard.Client.Machine.{Act, Outside, reads, print, select, input}
use railyard.Client.Config.{record_project_binding}
use railyard.Client.Http.{list_projects, create_project}
use railyard.Client.Resolve.Manifests.{manifest_file, manifest_in, parse_manifest}
use railyard.Client.Resolve.Servers.{
  NamedServer, ProjectBinding, bound, stale, unbound, project_binding,
}
use railyard.Client.Init.{
  confirm_nested_init, confirm_init_outside_git, resolve_project_name, resolve_server_for_init,
  write_manifest, manifest_name,
}

-- the manifest to link: its path, its value, and its text where the file is there
pub record Target : Type 0 where
  pub path : Text
  pub manifest : RailyardManifest
  pub raw : Option Text

-- what is to be created: with the id that the manifest has, or with a new one
pub record Creation : Type 0 where
  pub name : Text
  pub id : Option Text

abbrev pub project_id_in : Option Project → Option Text
project_id_in none = none
project_id_in (some project) = project.id

abbrev pub project_name_in : Option Project → Option Text
project_name_in none = none
project_name_in (some project) = some project.name

abbrev pub described : Text → Text → Text
described name id = name ++ txt " (" ++ id ++ txt ")"

module _ (out : Outside) where
  unfoldable pub target_at : (interactive : Bool) → Text → Option (Text × Text) → Act Target
  unfolding parse_manifest confirm_nested_init confirm_init_outside_git manifest_file
  target_at interactive cwd (some (path, raw)) = do
    manifest ← lift (parse_manifest out path raw)
    pure (record { path = path; manifest = manifest; raw = some raw })
  target_at interactive cwd none = do
    confirm_nested_init out interactive cwd
    confirm_init_outside_git out interactive cwd
    pure (record { path = Paths.join cwd manifest_file; manifest = default_manifest; raw = none })

  abbrev pub is_other : Text → Option Text → Bool
  is_other bound_name none = false
  is_other bound_name (some requested) = not (text_eq requested bound_name)

  -- true where the project is linked already, so that nothing is left to do
  unfoldable pub already_linked : Option Text → Project → Text → ProjectBinding → Act Bool
  unfolding print
  already_linked server_flag project id (bound bound_name _) =
      if is_other bound_name server_flag
      then raise (
          txt "project "
          ++ described project.name id
          ++ txt " is already linked to "
          ++ bound_name
          ++ txt "; run `railyard unlink` first to link it to another server")
      else (do
        print (
            txt "Project "
            ++ described project.name id
            ++ txt " is already linked to "
            ++ bound_name
            ++ txt " — nothing to do.")
        print (txt "To link this project to another server, run `railyard unlink` first.")
        pure true)
  already_linked server_flag project id (stale name) = do
    print (
        txt "note: ignoring the link to " ++ name ++ txt ", which no longer exists on this machine")
    pure false
  already_linked server_flag project id unbound = pure false

  unfoldable pub check_linked_id : Option Text → Project → Option Text → Act Bool
  unfolding reads project_binding already_linked
  check_linked_id server_flag project none = pure false
  check_linked_id server_flag project (some id) = do
    binding ← reads (project_binding out id)
    already_linked server_flag project id binding

  unfoldable pub check_linked : Option Text → Option Project → Act Bool
  unfolding check_linked_id
  check_linked server_flag none = pure false
  check_linked server_flag (some project) = check_linked_id server_flag project project.id

  -- the manifest is written with the project, and the project bound to the server
  unfoldable pub link_target : Target → ProjectSummary → Text → Act (Unit {0})
  unfolding write_manifest record_project_binding Model.link_project
  link_target target project server_name = do
    write_manifest out target.path (Model.link_project project.name project.id target.manifest)
        target.raw
    record_project_binding out project.id server_name

  -- the directory is linked to the project of the server
  unfoldable pub adopt : Target → ProjectSummary → Text → Act (Option Creation)
  unfolding link_target print
  adopt target project server_name = do
    link_target target project server_name
    print (
        txt "Linked this directory to project "
        ++ described project.name project.id
        ++ txt " on "
        ++ server_name)
    pure none

  unfoldable pub replacement_name : Text → ProjectSummary → Act Text
  unfolding input
  replacement_name project_name project =
      if text_eq project_name project.name
      then input out (txt "Name for the new project") (project_name ++ txt "-new")
      else pure project_name

  unfoldable pub replace_id : Text → ProjectSummary → NamedServer → Act (Option Creation)
  unfolding replacement_name print
  replace_id project_name project server = do
    name ← replacement_name project_name project
    print (
        txt "Creating project "
        ++ name
        ++ txt " on "
        ++ described server.0 server.1.server_url
        ++ txt " with a new id")
    pure (some (record { name = name; id = none }))

  -- the choice between the two, where the server has the project
  unfoldable pub choose_existing :
      (interactive : Bool) → Target → Text → ProjectSummary → NamedServer → Act (Option Creation)
  unfolding select adopt replace_id
  choose_existing interactive target project_name project server =
      if interactive
      then (do
        choice ←
            select out
              (txt "Project "
                ++ described project.name project.id
                ++ txt " already exists on "
                ++ server.0
                ++ txt ". What would you like to do?")
              ((txt "Link this directory to project " ++ project.name)
                ∷ txt "Create a new project and replace the ID in this directory"
                ∷ [])
        if choice == 0
            then adopt target project server.0
            else replace_id project_name project server)
      else raise (
          txt "project "
          ++ described project.name project.id
          ++ txt " already exists on "
          ++ server.0
          ++ txt
              "; rerun `railyard init` interactively to link this directory or create a new project")

  unfoldable pub with_existing_id :
      (interactive : Bool)
      → Target
      → Text
      → NamedServer
      → Text
      → Option ProjectSummary
      → Act (Option Creation)
  unfolding choose_existing print
  with_existing_id interactive target project_name server id (some project) =
      choose_existing interactive target project_name project server
  with_existing_id interactive target project_name server id none = do
    print (
        txt "Creating project "
        ++ project_name
        ++ txt " on "
        ++ described server.0 server.1.server_url
        ++ txt " with existing id "
        ++ id)
    pure (some (record { name = project_name; id = some id }))

  -- what to create, or nothing where the directory has been linked to a project that is there
  unfoldable pub creation :
      (interactive : Bool) → Target → Text → NamedServer → Option Text → Act (Option Creation)
  unfolding list_projects with_existing_id print
  creation interactive target project_name server none = do
    print (
        txt "Creating project "
        ++ project_name
        ++ txt " on "
        ++ described server.0 server.1.server_url)
    pure (some (record { name = project_name; id = none }))
  creation interactive target project_name server (some id) = do
    projects ← list_projects out server.1
    with_existing_id interactive target project_name server id
        (find (λ (p : ProjectSummary). text_eq p.id id) projects)

  unfoldable pub create : Target → NamedServer → Option Creation → Act (Unit {0})
  unfolding create_project link_target print manifest_name
  create target server none = pure tt
  create target server (some c) = do
    created ← create_project out server.1 c.name c.id
    link_target target created server.0
    print (
        txt "Created project "
        ++ described created.name created.id
        ++ txt " and linked "
        ++ manifest_name out target.path)

  unfoldable pub init_unlinked :
      (interactive : Bool) → (name server_flag : Option Text) → Target → Act (Unit {0})
  unfolding resolve_project_name resolve_server_for_init creation create
  init_unlinked interactive name server_flag target = do
    project_name ←
        resolve_project_name out name (project_name_in target.manifest.project) (is_some target.raw)
          interactive
    server ← resolve_server_for_init out interactive server_flag
    c ← creation interactive target project_name server (project_id_in target.manifest.project)
    create target server c

  unfoldable pub run : (interactive : Bool) → (name server_flag : Option Text) → Act (Unit {0})
  unfolding reads manifest_in target_at check_linked init_unlinked
  run interactive name server_flag = do
    cwd ← lift out.current_dir
    found ← reads (manifest_in out cwd)
    target ← target_at interactive cwd found
    linked ← check_linked server_flag target.manifest.project
    if linked then pure tt else init_unlinked interactive name server_flag target
