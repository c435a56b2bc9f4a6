-- ===== src/Server/Requests.antt =====
-- What the handlers of apps/server/src/api see: the request, the shared state and the response.
use railyard.Base.{ℕ, Text, Bool, true, false, Option, List, Stateful, Result}
use railyard.Types.{ProjectSummary, ReleaseSummary, UserSummary, CreateUserResponse, WhoamiResponse}
use railyard.Server.Db.{Db}
use railyard.Server.Db.Users.{AuthUser}

-- A header is its value as text, where it is there and is text. `signed_hash` and `user` are the
-- extensions that the middleware inserts.
pub record HttpRequest : Type 0 where
  pub method : Text
  pub path_and_query : Option Text
  pub authority : Option Text
  pub header : Text → Option Text
  pub body : List ℕ
  pub signed_hash : Option Text
  pub user : Option AuthUser

-- `Config` as far as the API reads it, the parts of it already printed
pub record ApiConfig : Type 0 where
  pub proxy_addr : Text
  pub api_addr : Text
  pub server_url : Text
  pub service_upstreams : ℕ

pub record ApiState : Type 0 where
  pub config : ApiConfig
  pub db : Db
  pub seen_nonces : List (Text × ℕ)

pub data Body : Type 0 where
  empty : Body
  plain : Text → Body
  project : ProjectSummary → Body
  projects : List ProjectSummary → Body
  release : ReleaseSummary → Body
  releases : List ReleaseSummary → Body
  users : List UserSummary → Body
  created_user : CreateUserResponse → Body
  identity : WhoamiResponse → Body
  redeemed : Text → Body

pub record Response : Type 0 where
  pub status : ℕ
  pub body : Body

abbrev pub respond : ℕ → Text → Response
respond status message = record { status = status; body = plain message }

abbrev pub bare : ℕ → Response
bare status = record { status = status; body = empty }

abbrev pub json : Body → Response
json body = record { status = 200; body = body }

abbrev pub Handler : Type 0
Handler = ApiState → Response × ApiState

-- a method of the database, run on the state's database
unfoldable pub on_db : {A : Type 0} → Stateful Db A → Stateful ApiState A
on_db m st = let (r, db') = m st.db in (r, record st { db = db' })

-- a handler that goes on with the outcome of a method of the database
unfoldable pub with_db : {A : Type 0} → Stateful Db A → (Result A → Handler) → Handler
with_db m k st = let (r, db') = m st.db in k r (record st { db = db' })

-- an early return: the answer where the test holds, the rest of the handler where it does not
unfoldable pub refuse_if : Bool → Response → Handler → Handler
refuse_if true answer next st = (answer, st)
refuse_if false answer next st = next st
