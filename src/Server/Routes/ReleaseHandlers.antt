-- ===== src/Server/Routes/ReleaseHandlers.antt =====
-- The handlers of releases in apps/server/src/api/routes.rs, and the access check before them.
use railyard.Base.{
  ℕ, ◌++◌, not, is_some_and, map, Text, txt, text_eq, is_empty, Bool, Option, none, some, List,
  Result, ok, err, if◌then◌else◌,
}
use railyard.AuthProtocol.{Crates}
use railyard.Types.{ReleaseStatus, ready, failed, unpacking, ReleaseSummary}
use railyard.Server.Db.Users.{AuthUser}
use railyard.Server.Db.Projects.{Project, project_by_id}
use railyard.Server.Db.Releases
use railyard.Server.Db.Releases.{Release, set_release_status}
use railyard.Server.Requests.{Body, Handler, respond, bare, json, refuse_if, with_db}
use railyard.Server.Archive.{Frame, Disk, unpacked}

-- a key of another project
unfoldable pub out_of_scope : AuthUser → Text → Bool
out_of_scope caller project_id =
    is_some_and (λ scope. not (text_eq scope project_id)) caller.project_id

unfoldable pub access_checked : Text → Handler → Result (Option Project) → Handler
access_checked project_id next (ok (some _)) st = next st
access_checked project_id next (ok none) st =
    (respond 404 (txt "no project " ++ project_id ++ txt " on this server"), st)
access_checked project_id next (err error) st = (bare 500, st)

-- `confirm_project_access`, and what follows it
unfoldable pub confirm_project_access : AuthUser → Text → Handler → Handler
unfolding access_checked out_of_scope
confirm_project_access caller project_id next =
    refuse_if (out_of_scope caller project_id)
      (respond 403 (txt "key is not scoped to this project"))
      (with_db (project_by_id project_id) (access_checked project_id next))

-- What an upload takes from outside: the bytes drawn for its id, the frames of its body, the disk,
-- and the clock before and after the archive.
pub record Upload : Type 0 where
  pub id_bytes : List ℕ
  pub frames : List Frame
  pub disk : Disk
  pub now : ℕ
  pub later : ℕ

abbrev pub outcome : Result (Unit {0}) → ReleaseStatus × Option Text
outcome (ok _) = (ready, none)
outcome (err error) = (failed, some error)

abbrev release_body : Upload → Release → ReleaseSummary
release_body upload release = record {
  id = release.id;
  project_id = release.project_id;
  status = ready;
  message = release.message;
  error = none;
  created_at = release.created_at;
  updated_at = upload.later;
}

-- the answer does not depend on whether the status could be stored
unfoldable pub finished : Upload → Release → Result (Unit {0}) → Result (Unit {0}) → Handler
finished upload release (ok _) stored st = (json (Body.release (release_body upload release)), st)
finished upload release (err failure) stored st =
    (respond 400 (txt "release " ++ release.id ++ txt " failed: " ++ failure), st)

unfoldable pub settle : Upload → Release → Result (Unit {0}) → Handler
unfolding finished
settle upload release result st =
    let (status, error) = outcome result in
    with_db (set_release_status release.id status error upload.later)
      (finished upload release result) st

unfoldable pub release_created : Crates → Upload → Option Text → Result Release → Handler
unfolding settle
release_created crates upload signed_hash (ok release) st =
    settle upload release (unpacked crates upload.disk upload.frames signed_hash) st
release_created crates upload signed_hash (err error) st = (bare 500, st)

-- an empty message is none
abbrev nonempty : Option Text → Option Text
nonempty none = none
nonempty (some message) = if is_empty message then none else some message

unfoldable pub create_release :
    Crates → Upload → AuthUser → Text → Option Text → Option Text → Handler
unfolding confirm_project_access release_created
create_release crates upload caller project_id message signed_hash =
    confirm_project_access caller project_id (
      with_db
        (Releases.create_release crates upload.id_bytes project_id unpacking (nonempty message)
          upload.now)
        (release_created crates upload signed_hash))

release_summary : Release → ReleaseSummary
release_summary r = record {
  id = r.id;
  project_id = r.project_id;
  status = r.status;
  message = r.message;
  error = r.error;
  created_at = r.created_at;
  updated_at = r.updated_at;
}

unfoldable pub releases_listed : Result (List Release) → Handler
unfolding release_summary
releases_listed (ok releases) st = (json (Body.releases (map release_summary releases)), st)
releases_listed (err error) st = (bare 500, st)

unfoldable pub list_releases : AuthUser → Text → Handler
unfolding confirm_project_access releases_listed
list_releases caller project_id =
    confirm_project_access caller project_id
      (with_db (Releases.list_releases project_id) releases_listed)
