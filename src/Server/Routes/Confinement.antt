-- ===== src/Server/Routes/Confinement.antt =====
-- A project-scoped key acts on its own project alone.
use mathlib.Core.Path.{subst, subst⁻¹}
use railyard.Base.{
  ℕ, ◌≡◌, refl, sym, ap, ◌∙◌, not, false, Text, text_eq, text_eq_iff, text_eq_refl, Option, none,
  some, List, [], ◌∷◌, filter, update, has_key, any, Result, ok, err, Result-cases, Bool-cases, inl,
  inr, >>=-eq-ok, state-bind-pure, pure, arith,
}
use railyard.AuthProtocol.{Crates}
use railyard.Types.{ReleaseStatus, unpacking}
use railyard.Server.Db.{Db, Tables, ReleaseRow}
use railyard.Server.Db.Inserts.{insert_release-eq-ok}
use railyard.Server.Db.Keeping.{tables-execute, tables-execute_all, tables-query, execute-eq-ok}
use railyard.Server.Db.Users.{AuthUser}
use railyard.Server.Db.Projects.{Project, project_by_id}
use railyard.Server.Db.Releases
use railyard.Server.Db.Releases.{Release, set_release_status, update_status, with_status}
use railyard.Server.Requests.{ApiState, Handler, with_db, refuse_if}
use railyard.Server.Routes.Handlers.{create_project, create_user, list_users, remove_user, whoami}
use railyard.Server.Routes.ReleaseHandlers.{
  Upload, outcome, access_checked, confirm_project_access, out_of_scope, finished, settle,
  release_created, create_release,
}
use railyard.Server.Routes.Router.{Call, handle}
use railyard.Server.Routes.Keeping.{
  list_projects-HandlerKeeps, whoami_in-HandlerKeeps, list_releases-HandlerKeeps,
}

-- the releases of other projects
abbrev pub foreign : Text → List ReleaseRow → List ReleaseRow
foreign scope rows = filter (λ (r : ReleaseRow). not (text_eq r.project_id scope)) rows

-- From `t` to `t'` nothing has changed but releases of the project `scope`.
pub record IsConfined (scope : Text) (t t' : Tables) : Type 0 where
  pub users : t'.users ≡ t.users
  pub invites : t'.invites ≡ t.invites
  pub projects : t'.projects ≡ t.projects
  pub releases : foreign scope t'.releases ≡ foreign scope t.releases

IsConfined-refl : (scope : Text) (t : Tables) → IsConfined scope t t
IsConfined-refl scope t = record { users = refl; invites = refl; projects = refl; releases = refl }

-- an update of a release that is not there changes nothing
update_absent :
    (id : Text) (status : ReleaseStatus) (error : Option Text) (now : ℕ) (rows : List ReleaseRow)
    → has_key (λ (r : ReleaseRow). r.id) id rows ≡ false
    → update (λ (r : ReleaseRow). text_eq r.id id) (with_status status error now) rows ≡ rows
unfolding update any
update_absent id status error now [] h = refl
update_absent id status error now (r ∷ rows) h =
    ground (arith, update_absent id status error now rows)

module _ (scope : Text) (t : Tables) (row : ReleaseRow) (own : row.project_id ≡ scope) where
  inserted-IsConfined : IsConfined scope t (record t { releases = row ∷ t.releases })
  unfolding filter
  inserted-IsConfined = record {
    users = refl;
    invites = refl;
    projects = refl;
    releases = rw own (rw (text_eq_refl scope) refl);
  }

  settled-IsConfined :
      (status : ReleaseStatus) (error : Option Text) (now : ℕ)
      → has_key (λ (r : ReleaseRow). r.id) row.id t.releases ≡ false
      → IsConfined scope t
          (update_status row.id status error now (record t { releases = row ∷ t.releases }))
  unfolding update_status update filter
  settled-IsConfined status error now fresh = record {
    users = refl;
    invites = refl;
    projects = refl;
    releases = rw (text_eq_refl row.id) (
        rw own (
          rw (text_eq_refl scope)
            (rw (update_absent row.id status error now t.releases fresh) refl)));
  }

-- what a release that `create_release` reports has left in the tables
created :
    (crates : Crates) (bytes : List ℕ) (project_id : Text) (message : Option Text) (now : ℕ)
    (db : Db) (release : Release)
    → (Releases.create_release crates bytes project_id unpacking message now db).0 ≡ ok release
    → (row : ReleaseRow) × (row.project_id ≡ project_id)
      × (row.id ≡ release.id)
      × (has_key (λ (r : ReleaseRow). r.id) row.id db.tables.releases ≡ false)
      × ((Releases.create_release crates bytes project_id unpacking message now db).1.tables
          ≡ record db.tables { releases = row ∷ db.tables.releases })
unfolding Releases.create_release pure
created crates bytes project_id message now db release e =
    let (n, did, e₁, s₁) = >>=-eq-ok _ _ db e in
    let (t, done, same) = execute-eq-ok _ db n did in
    let (is_t, fresh) = insert_release-eq-ok db.tables t n _ done in
    (_, refl, cc, fresh, ap (λ r. r.1.tables) s₁ ∙ same ∙ is_t)

finished-state :
    (upload : Upload) (release : Release) (r stored : Result (Unit {0})) (st : ApiState)
    → (finished upload release r stored st).1 ≡ st
unfolding finished
finished-state upload release (ok _) stored st = refl
finished-state upload release (err e) stored st = refl

module _ (scope : Text) (t : Tables) (row : ReleaseRow) (own : row.project_id ≡ scope) where
  settle-IsConfined :
      (upload : Upload) (release : Release) (r : Result (Unit {0})) (st : ApiState)
      → row.id ≡ release.id
      → has_key (λ (r : ReleaseRow). r.id) row.id t.releases ≡ false
      → st.db.tables ≡ record t { releases = row ∷ t.releases }
      → IsConfined scope t (settle upload release r st).1.db.tables
  unfolding settle with_db set_release_status
  settle-IsConfined upload release r st is_id fresh now_there =
      subst⁻¹ (λ (s : ApiState). IsConfined scope t s.db.tables)
        (finished-state upload release r _ _)
        (elim (tables-execute_all _ st.db) [
          | inl same ↦
              subst⁻¹ (IsConfined scope t) (same ∙ now_there) (inserted-IsConfined scope t row own)
          | inr changed ↦
              subst⁻¹ (IsConfined scope t)
                (changed
                  ∙ ap (update_status release.id (outcome r).0 (outcome r).1 upload.later) now_there
                  ∙ ap
                      (λ id.
                        update_status id (outcome r).0 (outcome r).1 upload.later
                          (record t { releases = row ∷ t.releases }))
                      (sym is_id))
                (settled-IsConfined scope t row own (outcome r).0 (outcome r).1 upload.later fresh)
        ])

module _ (crates : Crates) (scope : Text) (upload : Upload) (message hash : Option Text) where
  abbrev creating : Db → Result Release × Db
  creating = Releases.create_release crates upload.id_bytes scope unpacking message upload.now

  creating-IsConfined : (db : Db) → IsConfined scope db.tables (creating db).1.tables
  unfolding Releases.create_release
  creating-IsConfined db =
      subst⁻¹ (λ (d : Db). IsConfined scope db.tables d.tables) (state-bind-pure _ _ db)
        (elim (tables-execute _ db) [
          | inl same ↦ subst⁻¹ (IsConfined scope db.tables) same (IsConfined-refl scope db.tables)
          | inr (n, t, done, e) ↦
              subst⁻¹ (IsConfined scope db.tables)
                (e ∙ (insert_release-eq-ok db.tables t n _ done).0)
                (inserted-IsConfined scope db.tables _ refl)
        ])

  -- the upload, once access is confirmed
  upload-IsConfined :
      (st : ApiState)
      → IsConfined scope st.db.tables
          (with_db creating (release_created crates upload hash) st).1.db.tables
  unfolding with_db release_created
  upload-IsConfined st = elim (Result-cases (creating st.db).0) [
    | inr (why, e) ↦ rw (e, release_created) (creating-IsConfined st.db)
    | inl (release, e) ↦
        let (row, own, is_id, fresh, after) =
          created crates upload.id_bytes scope message upload.now st.db release e in
        rw (e, release_created)
          (settle-IsConfined scope st.db.tables row own upload release _ _ is_id fresh after)
  ]

-- a scoped caller that is let through names its own project
in_scope-eq :
    (caller : AuthUser) (scope id : Text)
    → caller.project_id ≡ some scope
    → out_of_scope caller id ≡ false
    → id ≡ scope
unfolding out_of_scope
in_scope-eq caller scope id scoped within = ground (arith, text_eq_iff scope id)

module _ (scope id : Text) (st : ApiState) (next : Handler) where
  checked-IsConfined :
      (r : Result (Option Project)) (st' : ApiState)
      → st'.db.tables ≡ st.db.tables
      → IsConfined scope st.db.tables (next st').1.db.tables
      → IsConfined scope st.db.tables (access_checked id next r st').1.db.tables
  unfolding access_checked
  checked-IsConfined (ok (some p)) st' same h = h
  checked-IsConfined (ok none) st' same h =
      subst⁻¹ (IsConfined scope st.db.tables) same (IsConfined-refl scope st.db.tables)
  checked-IsConfined (err e) st' same h =
      subst⁻¹ (IsConfined scope st.db.tables) same (IsConfined-refl scope st.db.tables)

  confirm-IsConfined :
      (caller : AuthUser)
      → caller.project_id ≡ some scope
      → ((st' : ApiState)
          → id ≡ scope
          → st'.db.tables ≡ st.db.tables
          → IsConfined scope st'.db.tables (next st').1.db.tables)
      → IsConfined scope st.db.tables (confirm_project_access caller id next st).1.db.tables
  unfolding confirm_project_access refuse_if with_db project_by_id
  confirm-IsConfined caller scoped h = elim (Bool-cases (out_of_scope caller id)) [
    | inl out ↦ rw (out, refuse_if) (IsConfined-refl scope st.db.tables)
    | inr within ↦
        let st' : ApiState = record st { db = (project_by_id id st.db).1 } in
        let same = tables-query _ st.db in
        rw (within, refuse_if)
          (checked-IsConfined _ st' same (
            subst (λ t. IsConfined scope t (next st').1.db.tables) same
              (h st' (in_scope-eq caller scope id scoped within) same)))
  ]

-- A project-scoped caller changes nothing but releases of its own project, whatever it calls and
-- whichever statements fail: users, invites, projects and the releases of other projects are as
-- before.
pub handle-IsConfined :
    (crates : Crates) (call : Call) (caller : AuthUser) (hash : Option Text) (scope : Text)
    (st : ApiState)
    → caller.project_id ≡ some scope
    → IsConfined scope st.db.tables (handle crates call caller hash st).1.db.tables
unfolding handle create_project create_user list_users remove_user refuse_if whoami
handle-IsConfined crates Call.root caller hash scope st scoped = IsConfined-refl scope st.db.tables
handle-IsConfined crates Call.list_all_projects caller hash scope st scoped =
    ((list_projects-HandlerKeeps {Q = IsConfined scope st.db.tables} caller).from st
      (IsConfined-refl scope st.db.tables)).holds
handle-IsConfined crates (Call.new_project bytes now request) caller hash scope st scoped =
    rw scoped (IsConfined-refl scope st.db.tables)
handle-IsConfined crates Call.list_all_users caller hash scope st scoped =
    rw scoped (IsConfined-refl scope st.db.tables)
handle-IsConfined crates (Call.new_user around request) caller hash scope st scoped =
    rw scoped (IsConfined-refl scope st.db.tables)
handle-IsConfined crates (Call.drop_user name) caller hash scope st scoped =
    rw scoped (IsConfined-refl scope st.db.tables)
handle-IsConfined crates Call.who_am_i caller hash scope st scoped =
    ((whoami_in-HandlerKeeps {Q = IsConfined scope st.db.tables} caller caller.project_id).from st
      (IsConfined-refl scope st.db.tables)).holds
handle-IsConfined crates (Call.project_releases id) caller hash scope st scoped =
    ((list_releases-HandlerKeeps {Q = IsConfined scope st.db.tables} caller id).from st
      (IsConfined-refl scope st.db.tables)).holds
handle-IsConfined crates (Call.new_release upload id message) caller hash scope st scoped =
    unfold create_release in
    confirm-IsConfined scope id st _ caller scoped
      λ st' own same. rw own (upload-IsConfined crates scope upload _ hash st')
