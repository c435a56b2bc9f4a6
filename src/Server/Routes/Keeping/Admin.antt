-- ===== src/Server/Routes/Keeping/Admin.antt =====
-- What the handlers of users and projects keep.
use railyard.Base.{ℕ, Bool, true, false, Text, Option, none, some, List, Result, ok, err}
use railyard.AuthProtocol.{Crates, InviteProject}
use railyard.Types.{CreateProjectRequest, CreateUserRequest}
use railyard.Server.Db.{Tables}
use railyard.Server.Db.Keeping.{Keeps-query}
use railyard.Server.Db.Users
use railyard.Server.Db.Users.{AuthUser, User}
use railyard.Server.Db.Projects
use railyard.Server.Db.Projects.{Project, project_by_id}
use railyard.Server.Minting.{Surroundings, MintedInvite}
use railyard.Server.Routes.Handlers.{
  whoami_in, create_project, create_user, list_users, remove_user, list_projects, mint_in,
  mint_found, mint_scoped, mint_named, whoami_found, project_created, minted_response, users_listed,
  user_removed, projects_listed,
}
use railyard.Server.Routes.Keeping.Rules.{
  HandlerKeeps, MethodsKeep, with_db-HandlerKeeps, answer-HandlerKeeps, refuse_if-HandlerKeeps,
}

-- the handlers that only read
module _ {Q : Tables → Type 0} where
  whoami_found-HandlerKeeps :
      (caller : AuthUser) (r : Result (Option Project)) → HandlerKeeps Q (whoami_found caller r)
  unfolding whoami_found
  whoami_found-HandlerKeeps caller (ok p) = answer-HandlerKeeps _
  whoami_found-HandlerKeeps caller (err e) = answer-HandlerKeeps _

  pub whoami_in-HandlerKeeps :
      (caller : AuthUser) (scope : Option Text) → HandlerKeeps Q (whoami_in caller scope)
  unfolding whoami_in project_by_id
  whoami_in-HandlerKeeps caller none = answer-HandlerKeeps _
  whoami_in-HandlerKeeps caller (some id) =
      with_db-HandlerKeeps _ _ (Keeps-query _) (whoami_found-HandlerKeeps caller)

  users_listed-HandlerKeeps : (r : Result (List User)) → HandlerKeeps Q (users_listed r)
  unfolding users_listed
  users_listed-HandlerKeeps (ok us) = answer-HandlerKeeps _
  users_listed-HandlerKeeps (err e) = answer-HandlerKeeps _

  pub list_users-HandlerKeeps : (caller : AuthUser) → HandlerKeeps Q (list_users caller)
  unfolding list_users Users.list_users
  list_users-HandlerKeeps caller =
      search (refuse_if-HandlerKeeps, with_db-HandlerKeeps, Keeps-query, users_listed-HandlerKeeps)

  projects_listed-HandlerKeeps :
      (caller : AuthUser) (r : Result (List Project)) → HandlerKeeps Q (projects_listed caller r)
  unfolding projects_listed
  projects_listed-HandlerKeeps caller (ok ps) = answer-HandlerKeeps _
  projects_listed-HandlerKeeps caller (err e) = answer-HandlerKeeps _

  pub list_projects-HandlerKeeps : (caller : AuthUser) → HandlerKeeps Q (list_projects caller)
  unfolding list_projects Projects.list_projects
  list_projects-HandlerKeeps caller =
      with_db-HandlerKeeps _ _ (Keeps-query _) (projects_listed-HandlerKeeps caller)

module _ {crates : Crates} {Q : Tables → Type 0} (keep : MethodsKeep crates Q) where
  project_created-HandlerKeeps : (r : Result (Option Project)) → HandlerKeeps Q (project_created r)
  unfolding project_created
  project_created-HandlerKeeps (ok (some p)) = answer-HandlerKeeps _
  project_created-HandlerKeeps (ok none) = answer-HandlerKeeps _
  project_created-HandlerKeeps (err e) = answer-HandlerKeeps _

  pub create_project-HandlerKeeps :
      (bytes : List ℕ) (now : ℕ) (caller : AuthUser) (request : CreateProjectRequest)
      → HandlerKeeps Q (create_project crates bytes now caller request)
  unfolding create_project
  create_project-HandlerKeeps bytes now caller request =
      search
        (refuse_if-HandlerKeeps, with_db-HandlerKeeps, keep.creating, project_created-HandlerKeeps)

  minted_response-HandlerKeeps :
      (name : Text) (r : Result (Option MintedInvite)) → HandlerKeeps Q (minted_response name r)
  unfolding minted_response
  minted_response-HandlerKeeps name (ok (some m)) = answer-HandlerKeeps _
  minted_response-HandlerKeeps name (ok none) = answer-HandlerKeeps _
  minted_response-HandlerKeeps name (err e) = answer-HandlerKeeps _

  mint_in-HandlerKeeps :
      (around : Surroundings) (request : CreateUserRequest) (project : Option InviteProject)
      → HandlerKeeps Q (mint_in crates around request project)
  unfolding mint_in
  mint_in-HandlerKeeps around request project = record {
    from = λ st q.
        (with_db-HandlerKeeps _ _ (keep.minting around st.config.server_url request.name project)
            (minted_response-HandlerKeeps request.name)).from
          st q;
  }

  mint_found-HandlerKeeps :
      (around : Surroundings) (request : CreateUserRequest) (id : Text)
      (r : Result (Option Project))
      → HandlerKeeps Q (mint_found crates around request id r)
  unfolding mint_found
  mint_found-HandlerKeeps around request id (ok (some p)) = mint_in-HandlerKeeps around request _
  mint_found-HandlerKeeps around request id (ok none) = answer-HandlerKeeps _
  mint_found-HandlerKeeps around request id (err e) = answer-HandlerKeeps _

  mint_scoped-HandlerKeeps :
      (around : Surroundings) (request : CreateUserRequest) (scope : Option Text)
      → HandlerKeeps Q (mint_scoped crates around request scope)
  unfolding mint_scoped project_by_id
  mint_scoped-HandlerKeeps around request none = mint_in-HandlerKeeps around request none
  mint_scoped-HandlerKeeps around request (some id) =
      with_db-HandlerKeeps _ _ (Keeps-query _) (mint_found-HandlerKeeps around request id)

  mint_named-HandlerKeeps :
      (around : Surroundings) (request : CreateUserRequest) (r : Result Text)
      → HandlerKeeps Q (mint_named crates around request r)
  unfolding mint_named
  mint_named-HandlerKeeps around request (err e) = answer-HandlerKeeps _
  mint_named-HandlerKeeps around request (ok _) =
      mint_scoped-HandlerKeeps around request request.project_id

  pub create_user-HandlerKeeps :
      (around : Surroundings) (inviter : AuthUser) (request : CreateUserRequest)
      → HandlerKeeps Q (create_user crates around inviter request)
  unfolding create_user
  create_user-HandlerKeeps around inviter request =
      search (refuse_if-HandlerKeeps, mint_named-HandlerKeeps)

  user_removed-HandlerKeeps : (name : Text) (r : Result Bool) → HandlerKeeps Q (user_removed name r)
  unfolding user_removed
  user_removed-HandlerKeeps name (ok true) = answer-HandlerKeeps _
  user_removed-HandlerKeeps name (ok false) = answer-HandlerKeeps _
  user_removed-HandlerKeeps name (err e) = answer-HandlerKeeps _

  pub remove_user-HandlerKeeps :
      (caller : AuthUser) (name : Text) → HandlerKeeps Q (remove_user caller name)
  unfolding remove_user
  remove_user-HandlerKeeps caller name =
      search
        (refuse_if-HandlerKeeps, with_db-HandlerKeeps, keep.removing, user_removed-HandlerKeeps)
