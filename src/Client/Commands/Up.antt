-- ===== src/Client/Commands/Up.antt =====
-- apps/cli/src/commands/up.rs: the repository packed and sent as a release. The walk over the
-- repository and the archive are the crates' (`pack`).
use railyard.Base.{
  ℕ, ◌^◌, ◌++◌, ltb, length, is_empty, Bool, true, false, Text, txt, text_eq, trim, Option, none,
  some, List, [], ◌∷◌, Result, ok, err, ok_or, pure, lift, ensure, ◌>>=◌, ◌>>◌, if◌then◌else◌,
}
use railyard.Types.{as_str}
use railyard.Manifest.Model.{RailyardManifest}
use railyard.Client.Paths
use railyard.Client.Paths.{parent}
use railyard.Client.Machine.{
  Machine, Act, Outside, Output, reading_result, reads, print, read_file, write_file, remove_file,
}
use railyard.Client.Http.{create_release}
use railyard.Client.Resolve.Manifests.{
  LinkedProject, manifest_file, find_manifest, parse_manifest, project_with_id, confirm_ancestor,
}
use railyard.Client.Resolve.Servers.{
  NamedServer, ProjectPresence, present, absent, unknown, server_project_presence, server_named,
}
use railyard.Client.Resolve.Offer.{resolve_project_server}

-- the loop over the units: the last one whose power the size reaches
unfoldable pub unit_of : ℕ → List (Text × ℕ) → Option (Text × ℕ)
unit_of bytes [] = none
unit_of bytes ((unit, power) ∷ units) = elim (ltb bytes power) [
  | true ↦ none
  | false ↦ elim (unit_of bytes units) [ some larger ↦ some larger | none ↦ some (unit, power) ]
]

abbrev pub units : List (Text × ℕ)
units =
    (txt "KiB", 1024) ∷ (txt "MiB", 1024 ^ 2) ∷ (txt "GiB", 1024 ^ 3) ∷ (txt "TiB", 1024 ^ 4) ∷ []

-- what `git` has printed, trimmed, where it is a subject
unfoldable pub commit_subject : Result Output → Option Text
unfolding trim
commit_subject (err _) = none
commit_subject (ok output) =
    let subject = trim output.stdout in
    if output.success then (if is_empty subject then none else some subject) else none

module _ (out : Outside) where
  unfoldable pub human_size : ℕ → Text
  unfolding unit_of
  human_size bytes = elim (unit_of bytes units) [
    | none ↦ out.crates.number bytes ++ txt " B"
    | some (unit, power) ↦ out.one_decimal bytes power ++ txt " " ++ unit
  ]

  unfoldable pub latest_commit_subject : Text → Machine → Option Text
  unfolding commit_subject
  latest_commit_subject root m =
      commit_subject
        (out.run (txt "git") (txt "-C" ∷ root ∷ txt "log" ∷ txt "-1" ∷ txt "--pretty=%s" ∷ []) m)

  -- the message that was given, or the subject of the latest commit
  unfoldable pub release_message : Option Text → Text → Machine → Option Text
  unfolding latest_commit_subject
  release_message (some message) root m = some message
  release_message none root m = latest_commit_subject root m

  abbrev pub found_manifest : Option (Text × Text) → Result (Text × Text)
  found_manifest found = ok_or found (
      txt "no " ++ manifest_file ++ txt " found here or in any ancestor; run `railyard init` first")

  abbrev pub valid_manifest : Text → Result RailyardManifest → Result RailyardManifest
  valid_manifest path (ok manifest) = ok manifest
  valid_manifest path (err why) = err (path ++ txt " is invalid:\n" ++ why)

  -- the path of the manifest where it is not in the current directory
  abbrev pub outside_of : Text → Text → Text → Option Text
  outside_of cwd root path = if text_eq root cwd then none else some path

  unfoldable pub project_at : Text → Text → Text → RailyardManifest → Result LinkedProject
  unfolding project_with_id ok_or
  project_at cwd root path manifest =
      ok_or (project_with_id out (outside_of cwd root path) manifest.project)
        (path ++ txt " has no project.id; run `railyard init` to create the project on a server")

  unfoldable pub up_server :
      (interactive : Bool) → LinkedProject → (server_flag : Option Text) → Act NamedServer
  unfolding reads server_named resolve_project_server
  up_server interactive project (some name) = reads (server_named out name)
  up_server interactive project none = resolve_project_server out interactive project

  unfoldable pub must_have : LinkedProject → NamedServer → ProjectPresence → Result (Unit {0})
  must_have project server present = ok tt
  must_have project server absent = err (
      txt "server "
      ++ server.0
      ++ txt " ("
      ++ server.1.server_url
      ++ txt ") does not have project "
      ++ project.name
      ++ txt " ("
      ++ project.id
      ++ txt "); check --server or run `railyard init`")
  must_have project server (unknown reason) = err (
      txt "could not confirm project "
      ++ project.name
      ++ txt " on "
      ++ server.0
      ++ txt ": "
      ++ reason)

  -- `pack_repository`: the archive is written to the path
  unfoldable pub pack_repository : Text → Text → Act ℕ
  unfolding reads write_file
  pack_repository root output = do
    packed ← reads (out.pack root output)
    write_file out output packed.1
    pure packed.0

  -- the result of the removal is dropped
  unfoldable pub discard : Text → Act (Unit {0})
  unfolding remove_file
  discard path m = (ok tt, (remove_file out path m).1)

  unfoldable pub upload : Option Text → Text → LinkedProject → NamedServer → Act (Unit {0})
  unfolding print pack_repository reads read_file release_message create_release discard as_str
      human_size Paths.join
  upload message root project server = do
    print (
        txt "Packing "
        ++ root
        ++ txt " for project "
        ++ project.name
        ++ txt " on "
        ++ server.0
        ++ txt " ("
        ++ server.1.server_url
        ++ txt ")")
    let archive_path = Paths.join out.temp_dir (txt "railyard-up-" ++ project.id ++ txt ".tar.gz")
    files ← pack_repository root archive_path
    archive ← reads λ m. reading_result (read_file out archive_path m)
    print (
        txt "Packed "
        ++ out.crates.number files
        ++ txt " files ("
        ++ human_size (length archive)
        ++ txt ")")
    text ← reads λ m. ok (release_message message root m)
    print (txt "Uploading to " ++ server.0 ++ txt "...")
    release ← create_release out server.1 project.id text archive
    discard archive_path
    print (txt "Release " ++ release.id ++ txt " is " ++ as_str release.status)

  -- from the check that the server has the project on
  unfoldable pub deploy : Option Text → Text → LinkedProject → NamedServer → Act (Unit {0})
  unfolding server_project_presence must_have upload
  deploy message root project server = do
    presence ← server_project_presence out server.1 project
    lift (must_have project server presence)
    upload message root project server

  unfoldable pub run_up :
      (interactive : Bool) → (server_flag message : Option Text) → Act (Unit {0})
  unfolding reads find_manifest manifest_file parent parse_manifest project_at confirm_ancestor
      up_server deploy ok_or ensure
  run_up interactive server_flag message = do
    cwd ← lift out.current_dir
    search ← reads (find_manifest out cwd)
    found ← lift (found_manifest search)
    root ← lift (ok_or (parent found.0) (txt "manifest has no parent directory"))
    manifest ← lift (valid_manifest found.0 (parse_manifest out found.0 found.1))
    project ← lift (project_at cwd root found.0 manifest)
    sure ← confirm_ancestor out interactive project
    lift (ensure sure (txt "up cancelled"))
    server ← up_server interactive project server_flag
    deploy message root project server
