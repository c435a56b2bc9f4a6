-- ===== src/Server/Db/Releases.antt =====
-- apps/server/src/api/db/release.rs
use railyard.Base.{
  pure, lift, ◌>>=◌, ◌>>◌, ℕ, ◌++◌, ◌&&◌, ◌||◌, not, Bool, Text, txt, text_eq, text_lt, Option,
  none, some, List, [], ◌∷◌, filter, sort_by, update, Result, ok, err,
}
use railyard.AuthProtocol.{Crates}
use railyard.Types.{ReleaseStatus, as_str, parse_status}
use railyard.Server.Db.Schema.{Tables, ReleaseRow, insert_release, i64_lt}
use railyard.Server.Db.Connection.{Action, query, execute, execute_all}

pub record Release : Type 0 where
  pub id : Text
  pub project_id : Text
  pub status : ReleaseStatus
  pub message : Option Text
  pub error : Option Text
  pub created_at : ℕ
  pub updated_at : ℕ

unfoldable pub new_release_id : Crates → List ℕ → Text
new_release_id crates bytes = txt "rel_" ++ crates.hex_encode bytes

unfoldable pub create_release :
    Crates → List ℕ → Text → ReleaseStatus → Option Text → ℕ → Action Release
unfolding new_release_id as_str
create_release crates bytes project_id status message now = do
  let id = new_release_id crates bytes
  execute (
      insert_release (record {
        id = id;
        project_id = project_id;
        status = as_str status;
        message = message;
        error = none;
        created_at = now;
        updated_at = now;
      }))
  pure (record {
    id = id;
    project_id = project_id;
    status = status;
    message = message;
    error = none;
    created_at = now;
    updated_at = now;
  })

abbrev pub with_status : ReleaseStatus → Option Text → ℕ → ReleaseRow → ReleaseRow
with_status status error now r = record r {
  status = as_str status;
  error = error;
  updated_at = now;
}

-- `UPDATE releases SET status = ?2, error = ?3, updated_at = ?4 WHERE id = ?1`
unfoldable pub update_status : Text → ReleaseStatus → Option Text → ℕ → Tables → Tables
update_status id status error now t = record t {
  releases = update (λ (r : ReleaseRow). text_eq r.id id) (with_status status error now) t.releases;
}

unfoldable pub set_release_status : Text → ReleaseStatus → Option Text → ℕ → Action (Unit {0})
unfolding update_status as_str
set_release_status id status error now = execute_all (update_status id status error now)

-- `status_column`; its error reaches the log alone, and the quotes of `{:?}` are left out
unfoldable pub status_column : ReleaseRow → Result ReleaseStatus
unfolding parse_status
status_column r = elim (parse_status r.status) [
  | none ↦ err (txt "unknown release status " ++ r.status)
  | some status ↦ ok status
]

abbrev pub release_from_row : ReleaseRow → ReleaseStatus → Release
release_from_row r status = record {
  id = r.id;
  project_id = r.project_id;
  status = status;
  message = r.message;
  error = r.error;
  created_at = r.created_at;
  updated_at = r.updated_at;
}

-- the loop over the rows, which stops at the first bad status
unfoldable pub read_releases : List ReleaseRow → Result (List Release)
unfolding status_column
read_releases [] = ok []
read_releases (r ∷ rows) =
    let rest = read_releases rows in
    elim (status_column r) [
      | err e ↦ err e
      | ok status ↦ elim rest [ err e ↦ err e | ok done ↦ ok (release_from_row r status ∷ done) ]
    ]

-- `ORDER BY created_at DESC, id DESC`
unfoldable pub release_before : ReleaseRow → ReleaseRow → Bool
release_before a b =
    i64_lt b.created_at a.created_at
    || not (i64_lt a.created_at b.created_at) && not (text_lt a.id b.id)

unfoldable pub list_releases : Text → Action (List Release)
unfolding read_releases
list_releases project_id = do
  rows ← query (λ t.
      sort_by release_before
        (filter (λ (r : ReleaseRow). text_eq r.project_id project_id) t.releases))
  lift (read_releases rows)
