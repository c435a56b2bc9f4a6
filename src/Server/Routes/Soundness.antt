-- ===== src/Server/Routes/Soundness.antt =====
-- The well-formedness of the database, through every call of the API.
use railyard.Base.{
  ℕ, ◌≡◌, refl, ap, ◌∙◌, Text, Option, none, some, ok, Keeps, Keeps-bind_after, keeps_rules,
  state-bind-pure, pure, ◌>>=◌,
}
use mathlib.Core.Path.{subst⁻¹}
use railyard.AuthProtocol.{Crates, InviteProject}
use railyard.Server.Db.{Db, Tables}
use railyard.Server.Db.Users.{create_user}
use railyard.Server.Db.Keeping.{OnTables}
use railyard.Server.Db.Keyed.{
  IsKeyed, create_user-KeepsKeys, create_invite-KeepsKeys, remove_user-KeepsKeys,
  create_project-KeepsKeys, create_release-KeepsKeys, set_release_status-KeepsKeys,
  redeem_invite-KeepsKeys,
}
use railyard.Server.Db.Enrolled.{IsEnrolled, HasUser}
use railyard.Server.Db.Enrolled.Methods.{
  create_user-KeepsEnrolled, create_user-HasUser, remove_user-KeepsEnrolled,
  create_project-KeepsEnrolled, create_release-KeepsEnrolled, set_release_status-KeepsEnrolled,
  redeem_invite-KeepsEnrolled, create_invite-IsEnrolled,
}
use railyard.Server.Minting.{Surroundings, mint_invite, enrol}
use railyard.Server.Requests.{HttpRequest, ApiState}
use railyard.Server.Routes.Router.{Call, SignedCall, signed_routes, admin_routes}
use railyard.Server.Routes.Keeping.{
  MethodsKeep, signed_routes-HandlerKeeps, protected_routes-HandlerKeeps,
}

module _ (crates : Crates) (around : Surroundings) (url : Text) where
  enrol-KeepsKeys :
      (name server : Text) (project : Option InviteProject) (created : Option Text)
      → Keeps (OnTables IsKeyed) (enrol crates around url name server project created)
  unfolding enrol
  enrol-KeepsKeys name server project none = search keeps_rules
  enrol-KeepsKeys name server project (some id) = search (keeps_rules, create_invite-KeepsKeys)

  mint_invite-KeepsKeys :
      (name : Text) (project : Option InviteProject)
      → Keeps (OnTables IsKeyed) (mint_invite crates around url name project)
  unfolding mint_invite
  mint_invite-KeepsKeys name project =
      search (keeps_rules, create_user-KeepsKeys, enrol-KeepsKeys) depth 9

  enrol-IsEnrolled :
      (name server : Text) (project : Option InviteProject) (created : Option Text) (db : Db)
      → ((id : Text) → created ≡ some id → HasUser id db.tables.users)
      → IsEnrolled db.tables
      → IsEnrolled (enrol crates around url name server project created db).1.tables
  unfolding enrol pure
  enrol-IsEnrolled name server project none db has h = h
  enrol-IsEnrolled name server project (some id) db has h =
      subst⁻¹ (λ (d : Db). IsEnrolled d.tables) (state-bind-pure _ (λ _. _) _)
        (create_invite-IsEnrolled id _ around.now _ db (has id refl) h)

  mint_created-KeepsEnrolled :
      (name server : Text) (project : Option InviteProject) (scope : Option Text)
      → Keeps (OnTables IsEnrolled) (
          create_user crates around.id_bytes name scope around.now
          >>= enrol crates around url name server project)
  mint_created-KeepsEnrolled name server project scope =
      Keeps-bind_after _ _ (create_user-KeepsEnrolled crates around.id_bytes name scope around.now)
        λ created db done before after. record {
          holds =
              enrol-IsEnrolled name server project created _
                (λ id e.
                  create_user-HasUser crates around.id_bytes name scope around.now db id
                    (done ∙ ap ok e))
                after.holds;
        }

  mint_invite-KeepsEnrolled :
      (name : Text) (project : Option InviteProject)
      → Keeps (OnTables IsEnrolled) (mint_invite crates around url name project)
  unfolding mint_invite
  mint_invite-KeepsEnrolled raw project = search (keeps_rules, mint_created-KeepsEnrolled) depth 9

MethodsKeep-IsKeyed : (crates : Crates) → MethodsKeep crates IsKeyed
MethodsKeep-IsKeyed crates = record {
  minting = mint_invite-KeepsKeys crates;
  removing = remove_user-KeepsKeys;
  creating = create_project-KeepsKeys crates;
  releasing = create_release-KeepsKeys crates;
  settling = set_release_status-KeepsKeys;
  redeeming = redeem_invite-KeepsKeys;
}

MethodsKeep-IsEnrolled : (crates : Crates) → MethodsKeep crates IsEnrolled
MethodsKeep-IsEnrolled crates = record {
  minting = mint_invite-KeepsEnrolled crates;
  removing = remove_user-KeepsEnrolled;
  creating = create_project-KeepsEnrolled crates;
  releasing = create_release-KeepsEnrolled crates;
  settling = set_release_status-KeepsEnrolled;
  redeeming = redeem_invite-KeepsEnrolled;
}

-- The ids and names of users and of projects, the token hashes and the release ids are unique, and
-- every invite is that of a user.
pub record IsSound (t : Tables) : Type 0 where
  pub keyed : IsKeyed t
  pub enrolled : IsEnrolled t

-- Every call of the public surface, whatever it is and whichever statements of it fail, leaves a
-- sound database sound.
pub signed_routes-IsSound :
    (crates : Crates) (now : ℕ) (call : SignedCall) (st : ApiState)
    → IsSound st.db.tables
    → IsSound (signed_routes crates now call st).1.db.tables
signed_routes-IsSound crates now call st h = record {
  keyed =
      ((signed_routes-HandlerKeeps (MethodsKeep-IsKeyed crates) now call).from st h.keyed).holds;
  enrolled =
      ((signed_routes-HandlerKeeps (MethodsKeep-IsEnrolled crates) now call).from st
        h.enrolled).holds;
}

-- Every call through the admin socket, whichever statements of it fail, leaves a sound database
-- sound.
pub admin_routes-IsSound :
    (crates : Crates) (call : Call) (request : HttpRequest) (st : ApiState)
    → IsSound st.db.tables
    → IsSound (admin_routes crates call request st).1.db.tables
unfolding admin_routes
admin_routes-IsSound crates call request st h = record {
  keyed =
      ((protected_routes-HandlerKeeps (MethodsKeep-IsKeyed crates) call _).from st h.keyed).holds;
  enrolled =
      ((protected_routes-HandlerKeeps (MethodsKeep-IsEnrolled crates) call _).from st
        h.enrolled).holds;
}
