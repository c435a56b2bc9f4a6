-- ===== src/Client/Resolve/Manifests.antt =====
-- The manifest of a directory and the project that it names, in apps/cli/src/resolve.rs.
-- `interactive` is the field of context.rs.
use railyard.Base.{
  ℕ, zero, suc, ◌++◌, length, join, is_some_and, Bool, true, Text, txt, text_eq, Option, none, some,
  List, [], ◌∷◌, Result, ok, err, pure, raise, lift, ◌>>=◌, if◌then◌else◌,
}
use railyard.Manifest.Model.{Project, RailyardManifest}
use railyard.Manifest.Parse.{parse, parse_relaxed}
use railyard.Client.Paths
use railyard.Client.Paths.{parent, file_name, stem_extension}
use railyard.Client.Machine.{
  Machine, Act, Outside, Reading, there, missing, broken, reads, read_file, confirm,
}

unfoldable pub manifest_file : Text
manifest_file = txt ".railyard.json"

unfoldable pub manifest_files : List Text
unfolding manifest_file
manifest_files = manifest_file ∷ txt ".railyard.jsonc" ∷ txt ".railyard.json5" ∷ []

pub record LinkedProject : Type 0 where
  pub id : Text
  pub name : Text
  pub manifest_path : Option Text

-- the file names of what was found
unfoldable pub found_names : List (Text × Text) → List Text
unfolding file_name
found_names [] = []
found_names ((path, _) ∷ found) =
    let names = found_names found in
    elim (file_name path) [ some name ↦ name ∷ names | none ↦ names ]

module _ (out : Outside) where
  abbrev pub found_at :
      Text → Result (List (Text × Text)) → Reading Text → Result (List (Text × Text))
  found_at path (err why) reading = err why
  found_at path (ok found) (there raw) = ok ((path, raw) ∷ found)
  found_at path (ok found) (missing _) = ok found
  found_at path (ok found) (broken why) = err why

  -- the loop over the spellings
  unfoldable pub manifests_at : List Text → Text → Machine → Result (List (Text × Text))
  unfolding Paths.join read_file
  manifests_at [] dir m = ok []
  manifests_at (name ∷ names) dir m = elim (read_file out (Paths.join dir name) m) [
    | broken why ↦ err why
    | missing _ ↦ manifests_at names dir m
    | there raw ↦ found_at (Paths.join dir name) (manifests_at names dir m) (there raw)
  ]

  unfoldable pub only_manifest : Text → List (Text × Text) → Result (Option (Text × Text))
  unfolding join found_names
  only_manifest dir [] = ok none
  only_manifest dir (found ∷ []) = ok (some found)
  only_manifest dir (a ∷ b ∷ found) = err (
      txt "multiple manifests in "
      ++ dir
      ++ txt ": "
      ++ join (txt ", ") (found_names (a ∷ b ∷ found))
      ++ txt "; keep one and delete the rest")

  unfoldable pub manifest_in : Text → Machine → Result (Option (Text × Text))
  unfolding manifests_at only_manifest manifest_files
  manifest_in dir m = elim (manifests_at manifest_files dir m) [
    | err why ↦ err why
    | ok found ↦ only_manifest dir found
  ]

  unfoldable pub find_manifest_from : ℕ → Text → Machine → Result (Option (Text × Text))
  unfolding manifest_in parent
  find_manifest_from zero dir m = ok none
  find_manifest_from (suc fuel) dir m = elim (manifest_in dir m) [
    | err why ↦ err why
    | ok (some found) ↦ ok (some found)
    | ok none ↦ elim (parent dir) [ none ↦ ok none | some up ↦ find_manifest_from fuel up m ]
  ]

  -- each parent is shorter, so that the length is fuel enough
  unfoldable pub find_manifest : Text → Machine → Result (Option (Text × Text))
  unfolding find_manifest_from
  find_manifest start = find_manifest_from (suc (length start)) start

  abbrev pub extension_of : Option Text → Option Text
  extension_of none = none
  extension_of (some name) = (stem_extension name).1

  unfoldable pub parse_manifest : Text → Text → Result RailyardManifest
  unfolding parse parse_relaxed file_name stem_extension
  parse_manifest path raw =
      if is_some_and (text_eq (txt "json")) (extension_of (file_name path))
      then parse out.formats raw
      else parse_relaxed out.formats raw

  -- the project of a manifest that has an id
  unfoldable pub project_with_id : Option Text → Option Project → Option LinkedProject
  project_with_id manifest_path none = none
  project_with_id manifest_path (some project) = elim project.id [
    | none ↦ none
    | some id ↦ some (record { id = id; name = project.name; manifest_path = manifest_path })
  ]

  abbrev pub elsewhere : Text → Text → Option Text
  elsewhere cwd path = if is_some_and (text_eq cwd) (parent path) then none else some path

  unfoldable pub linked_found : Text → Option (Text × Text) → Result (Option LinkedProject)
  unfolding parse_manifest project_with_id parent
  linked_found cwd none = ok none
  linked_found cwd (some (path, raw)) = elim (parse_manifest path raw) [
    | err why ↦ err why
    | ok manifest ↦ ok (project_with_id (elsewhere cwd path) manifest.project)
  ]

  unfoldable pub linked_project : Act (Option LinkedProject)
  unfolding find_manifest linked_found reads
  linked_project = do
    cwd ← lift out.current_dir
    found ← reads (find_manifest cwd)
    lift (linked_found cwd found)

  unfoldable pub confirm_ancestor : (interactive : Bool) → LinkedProject → Act Bool
  unfolding confirm
  confirm_ancestor interactive project = elim project.manifest_path [
    | none ↦ pure true
    | some path ↦
        if interactive
        then confirm out (txt "Use project " ++ project.name ++ txt " from " ++ path ++ txt "?")
            true
        else raise (
            txt "no manifest in this directory, but "
            ++ path
            ++ txt " exists (project "
            ++ project.name
            ++ txt "); rerun from its directory to use it")
  ]

  abbrev pub confirmed : Bool → Option LinkedProject → Option LinkedProject
  confirmed sure project = if sure then project else none

  unfoldable pub confirmed_project : Bool → Option LinkedProject → Act (Option LinkedProject)
  unfolding confirm_ancestor
  confirmed_project interactive none = pure none
  confirmed_project interactive (some project) = do
    sure ← confirm_ancestor interactive project
    pure (confirmed sure (some project))

  unfoldable pub confirmed_linked_project : (interactive : Bool) → Act (Option LinkedProject)
  unfolding linked_project confirmed_project
  confirmed_linked_project interactive = do
    project ← linked_project
    confirmed_project interactive project
