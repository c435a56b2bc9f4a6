-- ===== src/Types.antt =====
-- packages/types: the bodies of the HTTP contract between the command line and the server.
pub mod Status
use railyard.Base.{ℕ, Text, txt, text_eq, Option, none, some, Bool, ◌++◌, if◌then◌else◌}

pub record CreateProjectRequest : Type 0 where
  pub name : Text
  pub id : Option Text

pub record ProjectSummary : Type 0 where
  pub id : Text
  pub name : Text
  pub created_at : ℕ

unfoldable pub projects_path : Text
projects_path = txt "/api/projects"

unfoldable pub users_path : Text
users_path = txt "/api/users"

unfoldable pub whoami_path : Text
whoami_path = txt "/api/whoami"

unfoldable pub project_releases_path : Text → Text
project_releases_path project_id = projects_path ++ txt "/" ++ project_id ++ txt "/releases"

pub data ReleaseStatus : Type 0 where
  unpacking ready failed : ReleaseStatus

unfoldable pub as_str : ReleaseStatus → Text
as_str unpacking = txt "unpacking"
as_str ready = txt "ready"
as_str failed = txt "failed"

unfoldable pub parse_status : Text → Option ReleaseStatus
parse_status value =
    if text_eq value (txt "unpacking")
    then some unpacking
    else if text_eq value (txt "ready")
    then some ready
    else if text_eq value (txt "failed")
    then some failed
    else none

pub record ReleaseSummary : Type 0 where
  pub id : Text
  pub project_id : Text
  pub status : ReleaseStatus
  pub message : Option Text
  pub error : Option Text
  pub created_at : ℕ
  pub updated_at : ℕ

pub record CreateUserRequest : Type 0 where
  pub name : Text
  pub project_id : Option Text

pub record CreateUserResponse : Type 0 where
  pub user_id : Text
  pub invite_blob : Text
  pub expires_at : ℕ

pub record UserSummary : Type 0 where
  pub id : Text
  pub name : Text
  pub project_id : Option Text
  pub has_key : Bool
  pub created_at : ℕ

pub record WhoamiResponse : Type 0 where
  pub user_id : Text
  pub name : Text
  pub project_id : Option Text
  pub project_name : Option Text
