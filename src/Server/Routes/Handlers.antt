-- ===== src/Server/Routes/Handlers.antt =====
-- The handlers of users and projects in apps/server/src/api/routes.rs, in the order of the file.
use mathlib.Core.Option
use railyard.Base.{
  ℕ, ◌++◌, not, is_some, is_some_and, filter, map, Text, txt, text_eq, Bool, true, false, Option,
  none, some, List, Result, ok, err,
}
use railyard.AuthProtocol.{Crates, InviteProject}
use railyard.Types.{CreateProjectRequest, ProjectSummary, CreateUserRequest, UserSummary}
use railyard.Server.Db.Users
use railyard.Server.Db.Users.{AuthUser, User}
use railyard.Server.Db.Projects
use railyard.Server.Db.Projects.{Project, project_by_id}
use railyard.Server.Requests.{Body, Response, Handler, respond, bare, json, refuse_if, with_db}
use railyard.Server.Minting.{MintedInvite, Surroundings, mint_invite, validated_name}
use railyard.Server.Routes.Names.{is_valid_project_id, is_valid_project_name}

unfoldable pub identity_of : AuthUser → Option Text → Response
identity_of caller name = json (
    Body.identity (record {
      user_id = caller.id;
      name = caller.name;
      project_id = caller.project_id;
      project_name = name;
    }))

unfoldable pub whoami_found : AuthUser → Result (Option Project) → Handler
unfolding identity_of
whoami_found caller (ok project) st =
    (identity_of caller (Option.map (λ (p : Project). p.name) project), st)
whoami_found caller (err error) st = (bare 500, st)

unfoldable pub whoami_in : AuthUser → Option Text → Handler
unfolding identity_of whoami_found
whoami_in caller none st = (identity_of caller none, st)
whoami_in caller (some id) st = with_db (project_by_id id) (whoami_found caller) st

unfoldable pub whoami : AuthUser → Handler
unfolding whoami_in
whoami caller = whoami_in caller caller.project_id

abbrev pub project_summary : Project → ProjectSummary
project_summary p = record { id = p.id; name = p.name; created_at = p.created_at }

unfoldable pub project_created : Result (Option Project) → Handler
project_created (ok (some project)) st = (json (Body.project (project_summary project)), st)
project_created (ok none) st = (respond 409 (txt "project name or id already exists"), st)
project_created (err error) st = (bare 500, st)

unfoldable pub create_project : Crates → List ℕ → ℕ → AuthUser → CreateProjectRequest → Handler
unfolding project_created
create_project crates bytes now caller request =
    refuse_if (is_some caller.project_id)
      (respond 403 (txt "only server admins can create projects"))
      (refuse_if (not (is_valid_project_name request.name))
        (respond 400
          (txt "project name must be a lowercase DNS label (a-z, 0-9, hyphens; max 63 chars)"))
        (refuse_if (is_some_and (λ id. not (is_valid_project_id id)) request.id)
          (respond 400 (txt "project id must look like prj_<16 hex chars>"))
          (with_db (Projects.create_project crates bytes request.name request.id now)
            project_created)))

unfoldable pub minted_response : Text → Result (Option MintedInvite) → Handler
minted_response name (ok (some minted)) st = (
  json (
      Body.created_user (record {
        user_id = minted.user_id;
        invite_blob = minted.blob;
        expires_at = minted.expires_at;
      })),
  st,
)
minted_response name (ok none) st = (respond 409 (txt "user " ++ name ++ txt " already exists"), st)
minted_response name (err error) st = (bare 500, st)

unfoldable pub mint_in : Crates → Surroundings → CreateUserRequest → Option InviteProject → Handler
unfolding minted_response
mint_in crates around request project st =
    with_db (mint_invite crates around st.config.server_url request.name project)
      (minted_response request.name) st

abbrev invite_project : Project → InviteProject
invite_project p = record { id = p.id; name = p.name }

unfoldable pub mint_found :
    Crates → Surroundings → CreateUserRequest → Text → Result (Option Project) → Handler
unfolding mint_in
mint_found crates around request id (ok (some project)) st =
    mint_in crates around request (some (invite_project project)) st
mint_found crates around request id (ok none) st =
    (respond 404 (txt "no project " ++ id ++ txt " on this server"), st)
mint_found crates around request id (err error) st = (bare 500, st)

-- the project of the new user, where the request names one
unfoldable pub mint_scoped : Crates → Surroundings → CreateUserRequest → Option Text → Handler
unfolding mint_found mint_in
mint_scoped crates around request none st = mint_in crates around request none st
mint_scoped crates around request (some id) st =
    with_db (project_by_id id) (mint_found crates around request id) st

unfoldable pub mint_named : Crates → Surroundings → CreateUserRequest → Result Text → Handler
unfolding mint_scoped
mint_named crates around request (err error) st = (respond 400 error, st)
mint_named crates around request (ok _) st = mint_scoped crates around request request.project_id st

unfoldable pub create_user : Crates → Surroundings → AuthUser → CreateUserRequest → Handler
unfolding mint_named
create_user crates around inviter request =
    refuse_if (is_some inviter.project_id)
      (respond 403 (txt "only server admins can create users and invites"))
      (mint_named crates around request (validated_name crates request.name))

user_summary : User → UserSummary
user_summary u = record {
  id = u.id;
  name = u.name;
  project_id = u.project_id;
  has_key = u.has_key;
  created_at = u.created_at;
}

unfoldable pub users_listed : Result (List User) → Handler
unfolding user_summary
users_listed (ok users) st = (json (Body.users (map user_summary users)), st)
users_listed (err error) st = (bare 500, st)

unfoldable pub list_users : AuthUser → Handler
unfolding users_listed
list_users caller =
    refuse_if (is_some caller.project_id) (respond 403 (txt "only server admins can list users"))
      (with_db Users.list_users users_listed)

unfoldable pub user_removed : Text → Result Bool → Handler
user_removed name (ok true) st = (bare 204, st)
user_removed name (ok false) st = (respond 404 (txt "no user named " ++ name), st)
user_removed name (err error) st = (bare 500, st)

unfoldable pub remove_user : AuthUser → Text → Handler
unfolding user_removed
remove_user caller name =
    refuse_if (is_some caller.project_id) (respond 403 (txt "only server admins can remove users"))
      (with_db (Users.remove_user name) (user_removed name))

-- a project-scoped key sees its own project alone
abbrev pub visible_to : AuthUser → Project → Bool
visible_to caller project = elim caller.project_id [
  | none ↦ true
  | some scope ↦ text_eq project.id scope
]

unfoldable pub projects_listed : AuthUser → Result (List Project) → Handler
projects_listed caller (ok projects) st =
    (json (Body.projects (map project_summary (filter (visible_to caller) projects))), st)
projects_listed caller (err error) st = (bare 500, st)

unfoldable pub list_projects : AuthUser → Handler
unfolding projects_listed
list_projects caller st = with_db Projects.list_projects (projects_listed caller) st
