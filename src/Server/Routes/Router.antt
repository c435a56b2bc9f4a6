-- ===== src/Server/Routes/Router.antt =====
-- The routers of apps/server/src/api/routes.rs. Which call a request is, with its path parameters and
-- its parsed body, is the work of axum and serde: a call comes as a value.
use railyard.Base.{ℕ, ◌++◌, Text, txt, Bool, true, false, Option, none, some, List, if◌then◌else◌}
use railyard.AuthProtocol.{Crates, RedeemInviteRequest}
use railyard.Types.{CreateProjectRequest, CreateUserRequest}
use railyard.Server.Db.Users.{AuthUser}
use railyard.Server.Requests.{HttpRequest, ApiConfig, Body, Handler, json, bare}
use railyard.Server.Minting.{Surroundings}
use railyard.Server.Signatures
use railyard.Server.Signatures.{verify_signature, verify_body_hash}
use railyard.Server.Routes.Handlers.{
  whoami, create_project, create_user, list_users, remove_user, list_projects,
}
use railyard.Server.Routes.ReleaseHandlers.{Upload, create_release, list_releases}

-- A call of a protected route, with the randomness, the clock and the disk that it meets.
pub data Call : Type 0 where
  root : Call
  list_all_projects : Call
  new_project : (bytes : List ℕ) (now : ℕ) → CreateProjectRequest → Call
  list_all_users : Call
  new_user : Surroundings → CreateUserRequest → Call
  drop_user : (name : Text) → Call
  who_am_i : Call
  project_releases : (project_id : Text) → Call
  new_release : Upload → (project_id : Text) → (message : Option Text) → Call

root_text : Crates → ApiConfig → Text
root_text crates config =
    txt "Railyard API is running.\nproxy="
    ++ config.proxy_addr
    ++ txt "\napi="
    ++ config.api_addr
    ++ txt "\nservices="
    ++ crates.number config.service_upstreams

-- the handler of a call, for the caller that the middleware has attached
unfoldable pub handle : Crates → Call → AuthUser → Option Text → Handler
unfolding root_text
handle crates root caller hash st = (json (Body.plain (root_text crates st.config)), st)
handle crates list_all_projects caller hash st = list_projects caller st
handle crates (new_project bytes now request) caller hash st =
    create_project crates bytes now caller request st
handle crates list_all_users caller hash st = list_users caller st
handle crates (new_user around request) caller hash st = create_user crates around caller request st
handle crates (drop_user name) caller hash st = remove_user caller name st
handle crates who_am_i caller hash st = whoami caller st
handle crates (project_releases project_id) caller hash st = list_releases caller project_id st
handle crates (new_release upload project_id message) caller hash st =
    create_release crates upload caller project_id message hash st

-- the releases routes lie outside the layer that buffers and hashes the body
unfoldable pub is_buffered : Call → Bool
is_buffered (project_releases _) = false
is_buffered (new_release _ _ _) = false
is_buffered _ = true

-- A handler that finds no `AuthUser` extension is refused by the extractor.
unfoldable pub for_user : Crates → Call → Option Text → Option AuthUser → Handler
for_user crates call hash none st = (bare 500, st)
for_user crates call hash (some caller) st = handle crates call caller hash st

unfoldable pub with_caller : Crates → Call → HttpRequest → Handler
unfolding for_user
with_caller crates call request = for_user crates call request.signed_hash request.user

unfoldable pub protected_routes : Crates → Call → HttpRequest → Handler
unfolding with_caller is_buffered
protected_routes crates call request =
    if is_buffered call
    then verify_body_hash crates request (with_caller crates call)
    else with_caller crates call request

-- the caller of the admin socket
abbrev pub local_admin : AuthUser
local_admin = record { id = txt "local"; name = txt "local"; project_id = none }

unfoldable pub admin_routes : Crates → Call → HttpRequest → Handler
unfolding protected_routes
admin_routes crates call request =
    protected_routes crates call (record request { user = some local_admin })

-- The public surface: a protected call behind its signature, the redemption of an invite, the health
-- check.
pub data SignedCall : Type 0 where
  protected : Call → HttpRequest → SignedCall
  redeem : RedeemInviteRequest → SignedCall
  healthz : SignedCall

unfoldable pub signed_routes : Crates → ℕ → SignedCall → Handler
unfolding protected_routes
signed_routes crates now (protected call request) st =
    verify_signature crates now request (protected_routes crates call) st
signed_routes crates now (redeem request) st = Signatures.redeem_invite crates now request st
signed_routes crates now healthz st = (json (Body.plain (txt "ok")), st)
