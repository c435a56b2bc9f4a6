-- ===== src/Server/Routes/Keeping/Rules.antt =====
-- One rule for each way to build a handler, about a predicate of the tables.
use railyard.Base.{ℕ, Bool, true, false, Text, Option, List, Result, Keeps}
use railyard.AuthProtocol.{Crates, InviteProject}
use railyard.Types.{ReleaseStatus}
use railyard.Server.Db.{Tables, Action}
use railyard.Server.Db.Keeping.{OnTables}
use railyard.Server.Db.Users
use railyard.Server.Db.Users.{AuthUser, User}
use railyard.Server.Db.Projects
use railyard.Server.Db.Releases
use railyard.Server.Db.Projects.{Project, project_by_id}
use railyard.Server.Db.Invites
use railyard.Server.Requests.{ApiState, Response, Handler, refuse_if, with_db}
use railyard.Server.Minting.{Surroundings, mint_invite}

-- the tables in the outcome of a handler satisfy `Q`
pub record Kept (Q : Tables → Type 0) (o : Response × ApiState) : Type 0 where
  pub holds : Q o.1.db.tables

-- the tables after the handler satisfy `Q` if those before it do
pub record HandlerKeeps (Q : Tables → Type 0) (h : Handler) : Type 0 where
  pub from : (st : ApiState) → Q st.db.tables → Kept Q (h st)

module _ {Q : Tables → Type 0} where
  pub with_db-HandlerKeeps :
      {A : Type 0} (m : Action A) (k : Result A → Handler)
      → Keeps (OnTables Q) m
      → ((r : Result A) → HandlerKeeps Q (k r))
      → HandlerKeeps Q (with_db m k)
  unfolding with_db
  with_db-HandlerKeeps m k keeps next = record {
    from = λ st q.
        (next (m st.db).0).from (record st { db = (m st.db).1 })
          (keeps.from st.db (record { holds = q })).holds;
  }

  -- a handler that answers at once
  pub answer-HandlerKeeps : (r : Response) → HandlerKeeps Q (λ st. (r, st))
  answer-HandlerKeeps r = record { from = λ st q. record { holds = q } }

  pub refuse_if-HandlerKeeps :
      (test : Bool) (answer : Response) (next : Handler)
      → HandlerKeeps Q next
      → HandlerKeeps Q (refuse_if test answer next)
  unfolding refuse_if
  refuse_if-HandlerKeeps true answer next h = record { from = λ st q. record { holds = q } }
  refuse_if-HandlerKeeps false answer next h = record { from = h.from }

-- The methods of `Db` that write, as the handlers call them, keep `Q`.
pub record MethodsKeep (crates : Crates) (Q : Tables → Type 0) : Type 0 where
  pub minting :
      (around : Surroundings) (url name : Text) (project : Option InviteProject)
      → Keeps (OnTables Q) (mint_invite crates around url name project)
  pub removing : (name : Text) → Keeps (OnTables Q) (Users.remove_user name)
  pub creating :
      (bytes : List ℕ) (name : Text) (id : Option Text) (now : ℕ)
      → Keeps (OnTables Q) (Projects.create_project crates bytes name id now)
  pub releasing :
      (bytes : List ℕ) (project_id : Text) (status : ReleaseStatus) (message : Option Text)
      (now : ℕ)
      → Keeps (OnTables Q) (Releases.create_release crates bytes project_id status message now)
  pub settling :
      (id : Text) (status : ReleaseStatus) (error : Option Text) (now : ℕ)
      → Keeps (OnTables Q) (Releases.set_release_status id status error now)
  pub redeeming :
      (hash key : Text) (now : ℕ) → Keeps (OnTables Q) (Invites.redeem_invite hash key now)
