-- ===== src/Server/Routes/Keeping/Uploads.antt =====
-- What the handlers of releases keep, and with them the routers.
use railyard.Base.{
  ℕ, Text, Option, none, some, List, Result, ok, err, Result-cases, Option-cases, Bool-cases, inl,
  inr, keeps_rules,
}
use railyard.AuthProtocol.{Crates, RedeemInviteRequest}
use railyard.Server.Db.{Tables}
use railyard.Server.Db.Keeping.{Keeps-query}
use railyard.Server.Db.Users.{AuthUser}
use railyard.Server.Db.Projects.{Project, project_by_id}
use railyard.Server.Db.Releases.{Release, list_releases}
use railyard.Server.Requests.{Handler, HttpRequest}
use railyard.Server.Signatures
use railyard.Server.Signatures.{
  verify_body_hash, check_body, verify_signature, proceed, checked_request, redeemed_response,
}
use railyard.Server.Signatures.Accepted.{tables-checked_request}
use mathlib.Core.Path.{subst⁻¹}
use railyard.Server.Routes.ReleaseHandlers
use railyard.Server.Routes.ReleaseHandlers.{
  Upload, access_checked, confirm_project_access, finished, settle, release_created, create_release,
  releases_listed,
}
use railyard.Server.Routes.Handlers.{whoami}
use railyard.Server.Routes.Router.{
  Call, SignedCall, handle, with_caller, for_user, is_buffered, protected_routes, signed_routes,
}
use railyard.Server.Routes.Keeping.Rules.{
  HandlerKeeps, MethodsKeep, with_db-HandlerKeeps, answer-HandlerKeeps, refuse_if-HandlerKeeps,
}
use railyard.Server.Routes.Keeping.Admin.{
  whoami_in-HandlerKeeps, create_project-HandlerKeeps, create_user-HandlerKeeps,
  list_users-HandlerKeeps, remove_user-HandlerKeeps, list_projects-HandlerKeeps,
}

module _ {Q : Tables → Type 0} where
  access_checked-HandlerKeeps :
      (id : Text) (next : Handler)
      → HandlerKeeps Q next
      → (r : Result (Option Project)) → HandlerKeeps Q (access_checked id next r)
  unfolding access_checked
  access_checked-HandlerKeeps id next h (ok (some p)) = record { from = h.from }
  access_checked-HandlerKeeps id next h (ok none) = answer-HandlerKeeps _
  access_checked-HandlerKeeps id next h (err e) = answer-HandlerKeeps _

  confirm-HandlerKeeps :
      (caller : AuthUser) (id : Text) (next : Handler)
      → HandlerKeeps Q next
      → HandlerKeeps Q (confirm_project_access caller id next)
  unfolding confirm_project_access project_by_id
  confirm-HandlerKeeps caller id next h =
      refuse_if-HandlerKeeps _ _ _
        (with_db-HandlerKeeps _ _ (Keeps-query _) (access_checked-HandlerKeeps id next h))

  finished-HandlerKeeps :
      (upload : Upload) (release : Release) (r stored : Result (Unit {0}))
      → HandlerKeeps Q (finished upload release r stored)
  unfolding finished
  finished-HandlerKeeps upload release (ok _) stored = answer-HandlerKeeps _
  finished-HandlerKeeps upload release (err e) stored = answer-HandlerKeeps _

  releases_listed-HandlerKeeps : (r : Result (List Release)) → HandlerKeeps Q (releases_listed r)
  unfolding releases_listed
  releases_listed-HandlerKeeps (ok rs) = answer-HandlerKeeps _
  releases_listed-HandlerKeeps (err e) = answer-HandlerKeeps _

  pub list_releases-HandlerKeeps :
      (caller : AuthUser) (id : Text) → HandlerKeeps Q (ReleaseHandlers.list_releases caller id)
  unfolding ReleaseHandlers.list_releases list_releases
  list_releases-HandlerKeeps caller id =
      confirm-HandlerKeeps caller id _
        (with_db-HandlerKeeps _ _ (search (keeps_rules, Keeps-query)) releases_listed-HandlerKeeps)

module _ {crates : Crates} {Q : Tables → Type 0} (keep : MethodsKeep crates Q) where
  settle-HandlerKeeps :
      (upload : Upload) (release : Release) (r : Result (Unit {0}))
      → HandlerKeeps Q (settle upload release r)
  unfolding settle
  settle-HandlerKeeps upload release r = record {
    from = λ st q.
        (with_db-HandlerKeeps _ _ (keep.settling release.id _ _ upload.later)
            (finished-HandlerKeeps upload release r)).from
          st q;
  }

  release_created-HandlerKeeps :
      (upload : Upload) (hash : Option Text) (r : Result Release)
      → HandlerKeeps Q (release_created crates upload hash r)
  unfolding release_created
  release_created-HandlerKeeps upload hash (ok release) = settle-HandlerKeeps upload release _
  release_created-HandlerKeeps upload hash (err e) = answer-HandlerKeeps _

  create_release-HandlerKeeps :
      (upload : Upload) (caller : AuthUser) (id : Text) (message hash : Option Text)
      → HandlerKeeps Q (create_release crates upload caller id message hash)
  unfolding create_release
  create_release-HandlerKeeps upload caller id message hash = confirm-HandlerKeeps caller id _ (
      with_db-HandlerKeeps _ _ (keep.releasing upload.id_bytes id _ _ upload.now)
        (release_created-HandlerKeeps upload hash))

  -- every call of a protected route
  pub handle-HandlerKeeps :
      (call : Call) (caller : AuthUser) (hash : Option Text)
      → HandlerKeeps Q (handle crates call caller hash)
  unfolding handle whoami
  handle-HandlerKeeps Call.root caller hash = record { from = λ st q. record { holds = q } }
  handle-HandlerKeeps Call.list_all_projects caller hash = list_projects-HandlerKeeps caller
  handle-HandlerKeeps (Call.new_project bytes now request) caller hash =
      create_project-HandlerKeeps keep bytes now caller request
  handle-HandlerKeeps Call.list_all_users caller hash = list_users-HandlerKeeps caller
  handle-HandlerKeeps (Call.new_user around request) caller hash =
      create_user-HandlerKeeps keep around caller request
  handle-HandlerKeeps (Call.drop_user name) caller hash = remove_user-HandlerKeeps keep caller name
  handle-HandlerKeeps Call.who_am_i caller hash = whoami_in-HandlerKeeps caller caller.project_id
  handle-HandlerKeeps (Call.project_releases id) caller hash = list_releases-HandlerKeeps caller id
  handle-HandlerKeeps (Call.new_release upload id message) caller hash =
      create_release-HandlerKeeps upload caller id message hash

  for_user-HandlerKeeps :
      (call : Call) (hash : Option Text) (user : Option AuthUser)
      → HandlerKeeps Q (for_user crates call hash user)
  unfolding for_user
  for_user-HandlerKeeps call hash none = answer-HandlerKeeps _
  for_user-HandlerKeeps call hash (some caller) = record {
    from = (handle-HandlerKeeps call caller hash).from;
  }

  verify_body_hash-HandlerKeeps :
      (request : HttpRequest) (next : HttpRequest → Handler)
      → HandlerKeeps Q (next request)
      → HandlerKeeps Q (verify_body_hash crates request next)
  unfolding verify_body_hash check_body
  verify_body_hash-HandlerKeeps request next h = elim (Option-cases request.signed_hash) [
    | inl e ↦ rw (e, verify_body_hash) h
    | inr (hash, e) ↦
        rw (e, verify_body_hash) (refuse_if-HandlerKeeps _ _ _ (refuse_if-HandlerKeeps _ _ _ h))
  ]

  pub protected_routes-HandlerKeeps :
      (call : Call) (request : HttpRequest) → HandlerKeeps Q (protected_routes crates call request)
  unfolding protected_routes with_caller
  protected_routes-HandlerKeeps call request =
      let called = for_user-HandlerKeeps call request.signed_hash request.user in
      elim (Bool-cases (is_buffered call)) [
        | inl e ↦ rw e (verify_body_hash-HandlerKeeps request (with_caller crates call) called)
        | inr e ↦ rw e called
      ]

  redeemed_response-HandlerKeeps : (r : Result (Option Text)) → HandlerKeeps Q (redeemed_response r)
  unfolding redeemed_response
  redeemed_response-HandlerKeeps (ok (some id)) = answer-HandlerKeeps _
  redeemed_response-HandlerKeeps (ok none) = answer-HandlerKeeps _
  redeemed_response-HandlerKeeps (err e) = answer-HandlerKeeps _

  redeem_invite-HandlerKeeps :
      (now : ℕ) (request : RedeemInviteRequest)
      → HandlerKeeps Q (Signatures.redeem_invite crates now request)
  unfolding Signatures.redeem_invite
  redeem_invite-HandlerKeeps now request = refuse_if-HandlerKeeps _ _ _ (
      with_db-HandlerKeeps _ _ (keep.redeeming _ request.public_key now)
        redeemed_response-HandlerKeeps)

  verify_signature-HandlerKeeps :
      (now : ℕ) (request : HttpRequest) (next : HttpRequest → Handler)
      → ((r : HttpRequest) → HandlerKeeps Q (next r))
      → HandlerKeeps Q (verify_signature crates now request next)
  unfolding verify_signature proceed
  verify_signature-HandlerKeeps now request next h = record {
    from = λ st q.
        let q' = subst⁻¹ Q (tables-checked_request crates now request st) q in
        elim (Result-cases (checked_request crates now request st).0) [
          | inl (r, e) ↦ rw (e, proceed) ((h r).from _ q')
          | inr (why, e) ↦ rw (e, proceed) (record { holds = q' })
        ];
  }

  -- every call of the public surface
  pub signed_routes-HandlerKeeps :
      (now : ℕ) (call : SignedCall) → HandlerKeeps Q (signed_routes crates now call)
  unfolding signed_routes
  signed_routes-HandlerKeeps now (SignedCall.protected call request) = record {
    from =
        (verify_signature-HandlerKeeps now request (protected_routes crates call)
          (protected_routes-HandlerKeeps call)).from;
  }
  signed_routes-HandlerKeeps now (SignedCall.redeem request) = record {
    from = (redeem_invite-HandlerKeeps now request).from;
  }
  signed_routes-HandlerKeeps now SignedCall.healthz = answer-HandlerKeeps _
