-- ===== src/Server/AdminCli/Removal.antt =====
-- The command `user remove` against the daemon whose admin socket it speaks to.
use mathlib.Core.Path.{subst⁻¹}
use railyard.Base.{
  ℕ, ◌≡◌, refl, sym, ap, ◌∙◌, ◌++◌, Bool, true, false, Text, txt, Option-cases, none, List, [], ◌∷◌,
  Result, ok, err, inl, inr, >>=-eq-ok, raise,
}
use railyard.AuthProtocol.{Crates}
use railyard.Types.{users_path}
use railyard.Server.Db.{Db}
use railyard.Server.Db.Users
use railyard.Server.Db.Keyed.{IsKeyed}
use railyard.Server.Db.Removing.{IsRemoved, remove_user-IsRemoved}
use railyard.Server.Requests.{HttpRequest, ApiState, Body, Response, refuse_if, with_db}
use railyard.Server.Signatures.{verify_body_hash}
use railyard.Server.Routes.{
  Call, handle, is_buffered, for_user, with_caller, protected_routes, admin_routes, user_removed,
  remove_user,
}
use railyard.Server.AdminCli.{Socket, Terminal, print, admin_request, removal_shown, remove}

-- what the handler of a removal answers from the outcome of the database's method
abbrev dropped : Text → Result Bool × Db → ApiState → Response × ApiState
dropped name (r, db) st = user_removed name r (record st { db = db })

db-dropped :
    (name : Text) (r : Result Bool) (db : Db) (st : ApiState) → (dropped name (r, db) st).1.db ≡ db
unfolding user_removed
db-dropped name (ok true) db st = refl
db-dropped name (ok false) db st = refl
db-dropped name (err _) db st = refl

admin_routes-drop_user :
    (crates : Crates) (name : Text) (request : HttpRequest) (st : ApiState)
    → request.signed_hash ≡ none
    → admin_routes crates (Call.drop_user name) request st
      ≡ dropped name (Users.remove_user name st.db) st
unfolding admin_routes protected_routes is_buffered verify_body_hash with_caller for_user handle
    remove_user refuse_if with_db
admin_routes-drop_user crates name request st unsigned = rw unsigned refl

abbrev removal_line : Text → Bool → Text
removal_line name true = txt "Removed user " ++ name ++ txt " and revoked its key."
removal_line name false = txt "No user named " ++ name ++ txt "."

-- an answer of the daemon as the client of the socket gets it
abbrev pub carried : (Body → List ℕ) → Response × ApiState → Result (ℕ × List ℕ) × ApiState
carried bytes_of (response, st) = (ok (response.status, bytes_of response.body), st)

-- The command has told what the daemon has done: it has removed the user of the name, or there was
-- none.
pub record IsShown (name : Text) (before after : Terminal ApiState) : Type 0 where
  pub met : Bool
  pub removed : IsRemoved name met before.daemon.db.tables after.daemon.db.tables
  pub shown : after.lines ≡ removal_line name met ∷ before.lines

module _ (socket : Socket ApiState) (name : Text) where
  admin_request-eq-ok :
      (method path : Text) (t : Terminal ApiState) (a : ℕ × List ℕ)
      → (admin_request socket method path none t).0 ≡ ok a
      → ((socket.exchange method path ((txt "host", txt "railyard") ∷ []) [] t.daemon).0 ≡ ok a)
        × ((admin_request socket method path none t).1 ≡ record {
          lines = t.lines;
          daemon = (socket.exchange method path ((txt "host", txt "railyard") ∷ []) [] t.daemon).1;
        })
  unfolding admin_request
  admin_request-eq-ok method path t a = elim (Option-cases (socket.unreachable t.daemon)) [
    | inr (why, e) ↦ rw (e, admin_request) (λ h. cc)
    | inl e ↦ rw (e, admin_request) (λ h. (h, refl))
  ]

  -- the status tells what the database's method has returned
  shown_removal :
      (bytes_of : Body → List ℕ) (r : Result Bool) (db : Db) (st : ApiState) (a : ℕ × List ℕ)
      (t : Terminal ApiState) {u : Unit {0}}
      → (carried bytes_of (dropped name (r, db) st)).0 ≡ ok a
      → (removal_shown socket name a t).0 ≡ ok u
      → (met : Bool) × (r ≡ ok met)
        × ((removal_shown socket name a t).1
            ≡ record { lines = removal_line name met ∷ t.lines; daemon = t.daemon })
  unfolding user_removed removal_shown print raise
  shown_removal bytes_of (ok true) db st a t e =
      let answer : (204, bytes_of Body.empty) ≡ a = cc in rw (← answer) (λ h. (true, refl, refl))
  shown_removal bytes_of (ok false) db st a t e =
      let answer : (404, bytes_of (Body.plain (txt "no user named " ++ name))) ≡ a = cc in
      rw (← answer) (λ h. (false, refl, refl))
  shown_removal bytes_of (err why) db st a t e =
      let answer : (500, bytes_of Body.empty) ≡ a = cc in rw (← answer) (λ h. cc)

module _ (crates : Crates) (socket : Socket ApiState) (bytes_of : Body → List ℕ) (name : Text)
    (request : HttpRequest) (unsigned : request.signed_hash ≡ none)
    (served : (st : ApiState)
      → socket.exchange
          (txt "DELETE")
          (users_path ++ txt "/" ++ name)
          ((txt "host", txt "railyard") ∷ [])
          []
          st
        ≡ carried bytes_of (admin_routes crates (Call.drop_user name) request st)) where
  -- Where the admin routes answer the command's request as the removal of the name, and the keys of
  -- the database are unique: a `user remove` that succeeds prints one line, which tells whether a
  -- user had the name, and leaves the database without that user and its invites, and nothing
  -- else in it changed.
  pub remove-IsShown :
      (t : Terminal ApiState) {u : Unit {0}}
      → IsKeyed t.daemon.db.tables
      → (remove socket name t).0 ≡ ok u
      → IsShown name t (remove socket name t).1
  unfolding remove user_removed
  remove-IsShown t keyed h =
      let path = users_path ++ txt "/" ++ name in
      let (a, asked, e₁, s₁) =
        >>=-eq-ok (admin_request socket (txt "DELETE") path none) (removal_shown socket name) t h in
      let (answered, left) = admin_request-eq-ok socket name (txt "DELETE") path t a asked in
      let answer =
        served t.daemon
        ∙ ap (carried bytes_of) (admin_routes-drop_user crates name request t.daemon unsigned) in
      let dropping = Users.remove_user name t.daemon.db in
      let (met, told, shown) =
        shown_removal socket name bytes_of dropping.0 dropping.1 t.daemon a _
          (ap (λ x. x.0) (sym answer) ∙ answered) e₁ in
      let removed = remove_user-IsRemoved name t.daemon.db met keyed told in
      let whole = ap (λ x. x.1) s₁ ∙ shown in
      let tables : (remove socket name t).1.daemon.db.tables ≡ dropping.1.tables =
        ap (λ (x : Terminal ApiState). x.daemon.db.tables) (whole)
        ∙ ap (λ (x : Terminal ApiState). x.daemon.db.tables) left
        ∙ ap (λ (x : Result (ℕ × List ℕ) × ApiState). x.1.db.tables) answer
        ∙ ap (λ (x : Db). x.tables) (db-dropped name dropping.0 dropping.1 t.daemon) in
      record {
        met = met;
        removed = subst⁻¹ (λ after. IsRemoved name met t.daemon.db.tables after) tables removed;
        shown =
            ap (λ (x : Terminal ApiState). x.lines) whole
            ∙ ap (λ (x : Terminal ApiState). removal_line name met ∷ x.lines) left;
      }
