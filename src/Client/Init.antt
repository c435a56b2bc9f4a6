-- ===== src/Client/Init.antt =====
-- apps/cli/src/commands/init.rs: a project on a server, and the directory's manifest linked to it.
use mathlib.Core.Option
use railyard.Base.{
  ℕ, zero, suc, ◌==◌, ◌||◌, ◌&&◌, ◌++◌, not, ltb, length, is_empty, is_some, is_none, is_lower,
  is_digit, ends_with, any, find, map, unwrap_or, Bool, true, false, Text, txt, text_eq, Option,
  none, some, List, [], ◌∷◌, Result, ok, err, pure, raise, lift, ◌>>=◌, ◌>>◌, if◌then◌else◌,
}
use railyard.Types.{ProjectSummary}
use railyard.Manifest.Model
use railyard.Manifest.Model.{Project, RailyardManifest, default_manifest}
use railyard.Manifest.Parse.{to_json_string}
use railyard.Client.Lowercase.{to_lowercase}
use railyard.Client.Paths.{parent, file_name}
use railyard.Client.Paths
use railyard.Client.Machine.{
  Machine, Act, Outside, reads, print, write_file, exists, confirm, select, input,
}
use railyard.Client.Config.{list_servers, record_project_binding, trim_matches}
use railyard.Client.Http.{list_projects, create_project}
use railyard.Client.Resolve.Manifests.{manifest_file, find_manifest, manifest_in, parse_manifest}
use railyard.Client.Resolve.Servers.{
  NamedServer, ProjectBinding, bound, stale, unbound, project_binding, resolve_server, server_items,
  take_at,
}
pub mod Run
pub mod Names

-- one round of the loop over the characters
unfoldable pub push_char : Text → ℕ → Text
push_char name c =
    if is_lower c || is_digit c
    then name ++ c ∷ []
    else if not (is_empty name) && not (ends_with b'-' name)
    then name ++ b'-' ∷ []
    else name

unfoldable pub push_chars : Text → Text → Text
unfolding push_char
push_chars name [] = name
push_chars name (c ∷ rest) = push_chars (push_char name c) rest

-- `truncate`, of a text in ASCII
unfoldable pub truncate : ℕ → Text → Text
truncate n [] = []
truncate zero (_ ∷ _) = []
truncate (suc n) (c ∷ s) = c ∷ truncate n s

unfoldable pub sanitize_project_name : Text → Text
unfolding push_chars to_lowercase truncate trim_matches
sanitize_project_name raw = trim_matches b'-' (truncate 63 (push_chars [] (to_lowercase raw)))

module _ (out : Outside) where
  unfoldable pub manifest_name : Text → Text
  unfolding file_name
  manifest_name path = unwrap_or path (file_name path)

  abbrev pub is_plain_json : Text → Bool
  is_plain_json raw = elim (out.formats.json_from raw) [ ok _ ↦ true | err _ ↦ false ]

  unfoldable pub note_rewritten : Text → Option Text → Act (Unit {0})
  unfolding print manifest_name
  note_rewritten path none = pure tt
  note_rewritten path (some raw) =
      if is_plain_json raw
      then pure tt
      else print (
          txt "note: rewrote "
          ++ manifest_name path
          ++ txt " as plain JSON; comments were not preserved")

  unfoldable pub write_manifest : Text → RailyardManifest → Option Text → Act (Unit {0})
  unfolding write_file to_json_string note_rewritten
  write_manifest path manifest raw = do
    write_file out path (to_json_string out.formats manifest)
    note_rewritten path raw

  abbrev pub project_in : Result RailyardManifest → Option Project
  project_in (err _) = none
  project_in (ok manifest) = manifest.project

  -- the project of a manifest as it is said in a message
  unfoldable pub project_note : Option Project → Text
  project_note none = []
  project_note (some project) = txt " (project " ++ project.name ++ txt ")"

  unfoldable pub unless_refused : Text → Bool → Act (Unit {0})
  unless_refused message sure = if sure then pure tt else raise message

  unfoldable pub confirm_nested : (interactive : Bool) → Option (Text × Text) → Act (Unit {0})
  unfolding confirm unless_refused parse_manifest project_note
  confirm_nested interactive none = pure tt
  confirm_nested interactive (some (found, raw)) =
      let note = found ++ project_note (project_in (parse_manifest out found raw)) in
      if interactive
      then (do
        sure ←
            confirm out
              (txt "Found "
                ++ note
                ++ txt
                    " in a parent directory. Are you sure you want to create a separate project here?")
              false
        unless_refused (txt "init cancelled") sure)
      else raise (
          txt "found "
          ++ note
          ++ txt
              " in a parent directory; init here would create a separate nested project — run it from that directory, or rerun interactively to confirm")

  unfoldable pub confirm_nested_init : (interactive : Bool) → (cwd : Text) → Act (Unit {0})
  unfolding parent reads find_manifest confirm_nested
  confirm_nested_init interactive cwd = elim (parent cwd) [
    | none ↦ pure tt
    | some up ↦ (reads (find_manifest out up)) >>= confirm_nested interactive
  ]

  -- the directory and those above it
  unfoldable pub ancestors_from : ℕ → Text → List Text
  unfolding parent
  ancestors_from zero dir = dir ∷ []
  ancestors_from (suc fuel) dir = elim (parent dir) [
    | none ↦ dir ∷ []
    | some up ↦ dir ∷ ancestors_from fuel up
  ]

  -- each parent is shorter, so that the length is fuel enough
  unfoldable pub in_git : Text → Machine → Bool
  unfolding ancestors_from exists
  in_git cwd m =
      any (λ dir. exists out (Paths.join dir (txt ".git")) m) (ancestors_from (length cwd) cwd)

  unfoldable pub confirm_outside : (interactive : Bool) → Text → Bool → Act (Unit {0})
  unfolding print confirm unless_refused
  confirm_outside interactive cwd true = pure tt
  confirm_outside interactive cwd false =
      if interactive
      then (do
        sure ←
            confirm out
              (txt
                "This directory is not in a git repository, and Railyard works best in one. Create a project here anyway?")
              false
        unless_refused (txt "init cancelled; run `git init` first, then rerun `railyard init`")
            sure)
      else print (txt "note: " ++ cwd ++ txt " is not in a git repository")

  unfoldable pub confirm_init_outside_git : (interactive : Bool) → (cwd : Text) → Act (Unit {0})
  unfolding reads in_git confirm_outside
  confirm_init_outside_git interactive cwd = do
    inside ← reads λ m. ok (in_git cwd m)
    confirm_outside interactive cwd inside

  -- the name of the directory, as a name of a project
  unfoldable pub directory_name : Text → Text
  unfolding file_name sanitize_project_name
  directory_name dir = sanitize_project_name (unwrap_or [] (file_name dir))

  unfoldable pub default_name : (manifest_exists interactive : Bool) → Text → Act Text
  unfolding input
  default_name manifest_exists interactive [] =
      raise (txt "could not derive a project name from this directory; run `railyard init <name>`")
  default_name manifest_exists interactive (c ∷ name) =
      if not manifest_exists && interactive
      then input out (txt "Project name") (c ∷ name)
      else pure (c ∷ name)

  unfoldable pub resolve_project_name :
      (explicit named : Option Text) → (manifest_exists interactive : Bool) → Act Text
  unfolding manifest_file directory_name default_name
  resolve_project_name (some raw) none manifest_exists interactive = pure raw
  resolve_project_name (some raw) (some existing) manifest_exists interactive =
      if text_eq existing raw
      then pure raw
      else raise (
          manifest_file
          ++ txt " already names this project "
          ++ existing
          ++ txt "; rerun without a name or edit the file")
  resolve_project_name none (some existing) manifest_exists interactive = pure existing
  resolve_project_name none none manifest_exists interactive = do
    dir ← lift out.current_dir
    default_name manifest_exists interactive (directory_name dir)

  unfoldable pub resolve_server_for_init :
      (interactive : Bool) → (explicit : Option Text) → Act NamedServer
  unfolding list_servers resolve_server select take_at server_items
  resolve_server_for_init interactive explicit = do
    servers ← list_servers out
    if is_some explicit || ltb (length servers) 2 || not interactive
        then resolve_server out explicit
        else (do
          choice ← select out (txt "Select a server") (server_items servers)
          lift (take_at choice servers))
