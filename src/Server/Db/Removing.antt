-- ===== src/Server/Db/Removing.antt =====
-- What `remove_user` leaves where names and ids are unique.
use mathlib.Core.Option
use mathlib.Core.Path.{subst, subst⁻¹}
use railyard.Base.{
  ◌≡◌, refl, sym, ap, ◌∙◌, Bool, true, false, not, Text, text_eq, text_eq_iff, Option, none, some,
  List, [], ◌∷◌, find, filter, any, has_key, Distinct, Result, ok, Bool-cases, inl, inr, >>=-eq-ok,
  pure, arith,
}
use railyard.Server.Db.Schema.{Tables, UserRow, InviteRow}
use railyard.Server.Db.Connection.{Db}
use railyard.Server.Db.Keeping.{execute_all-eq-ok, query-eq-ok, tables-query}
use railyard.Server.Db.Users.{
  remove_user, remove_found, user_id_by_name, delete_invites, delete_user,
}
use railyard.Server.Db.Keyed.{IsKeyed}

module _ {A : Type 0} (key : A → Text) where
  filter-absent :
      (k : Text) (rows : List A)
      → has_key key k rows ≡ false
      → filter (λ r. not (text_eq (key r) k)) rows ≡ rows
  unfolding filter any
  filter-absent k [] h = refl
  filter-absent k (r ∷ rows) h = ground (arith, filter-absent k rows)

  filter-first :
      (r : A) (rows : List A)
      → has_key key (key r) rows ≡ false
      → filter (λ x. not (text_eq (key x) (key r))) (r ∷ rows) ≡ rows
  unfolding filter
  filter-first r rows h =
      let same : text_eq (key r) (key r) ≡ true = (text_eq_iff (key r) (key r)).1 refl in
      rw same (filter-absent (key r) rows h)

  -- a row that is found has not a key that no row has
  find-apart :
      (k : Text) (test : A → Bool) (rows : List A) (found : A)
      → has_key key k rows ≡ false
      → find test rows ≡ some found
      → text_eq (key found) k ≡ false
  unfolding find any
  find-apart k test [] found h e = cc
  find-apart k test (r ∷ rows) found h e = elim (Bool-cases (test r)) [
    | inl t ↦
        let same : some r ≡ some found = rw t at e in
        let eq : r ≡ found = cc in rw (← eq) (ground arith)
    | inr f ↦ find-apart k test rows found (ground arith) (rw f at e)
  ]

abbrev named : Text → UserRow → Bool
named name u = text_eq u.name name

-- to delete the row that is found by its name, by its id, is to delete what has the name
delete_by_id :
    (name : Text) (rows : List UserRow) (found : UserRow)
    → Distinct (λ (u : UserRow). u.id) rows
    → Distinct (λ (u : UserRow). u.name) rows
    → find (named name) rows ≡ some found
    → filter (λ u. not (text_eq u.id found.id)) rows ≡ filter (λ u. not (named name u)) rows
unfolding filter find
delete_by_id name [] found ids names e = cc
delete_by_id name (u ∷ rows) found (i, ids) (n, names) e = elim (Bool-cases (text_eq u.name name)) [
  | inl t ↦
      let found_here : some u ≡ some found = rw t at e in
      let eq : u ≡ found = cc in
      let called : u.name ≡ name = (text_eq_iff u.name name).0 t in
      ap (λ (x : UserRow). filter (λ (r : UserRow). not (text_eq r.id x.id)) (u ∷ rows)) (sym eq)
      ∙ filter-first _ u rows i
      ∙ sym (
          ap (λ k. filter (λ (r : UserRow). not (text_eq r.name k)) (u ∷ rows)) (sym called)
          ∙ filter-first _ u rows n)
  | inr f ↦
      let behind : find (named name) rows ≡ some found = rw f at e in
      let apart = find-apart (λ (r : UserRow). r.id) u.id (named name) rows found i behind in
      let differs : text_eq u.id found.id ≡ false =
        ground (arith, text_eq_iff u.id found.id, text_eq_iff found.id u.id) in
      rw (differs, f) (ap (λ rest. u ∷ rest) (delete_by_id name rows found ids names behind))
]

-- what the removal of a name has done, with whether it met a user
pub record IsRemoved (name : Text) (met : Bool) (before after : Tables) : Type 0 where
  pub users : after.users ≡ filter (λ u. not (named name u)) before.users
  pub told : met ≡ any (named name) before.users
  pub invites :
      (u : UserRow)
      → find (named name) before.users ≡ some u
      → after.invites ≡ filter (λ (i : InviteRow). not (text_eq i.user_id u.id)) before.invites
  pub projects : after.projects ≡ before.projects
  pub releases : after.releases ≡ before.releases

any-found :
    (test : UserRow → Bool) (rows : List UserRow) (u : UserRow)
    → find test rows ≡ some u
    → any test rows ≡ true
unfolding find any
any-found test [] u e = cc
any-found test (r ∷ rows) u e = ground (arith, any-found test rows u)

any-lost :
    (test : UserRow → Bool) (rows : List UserRow) → find test rows ≡ none → any test rows ≡ false
unfolding find any
any-lost test [] e = refl
any-lost test (r ∷ rows) e = ground (arith, any-lost test rows)

some-injective : {A : Type 0} {a b : A} → some a ≡ some b → a ≡ b
some-injective e = cc

deleted-IsRemoved :
    (name : Text) (t : Tables) (u : UserRow)
    → IsKeyed t
    → find (named name) t.users ≡ some u
    → IsRemoved name true t (delete_user u.id (delete_invites u.id t))
unfolding delete_user delete_invites
deleted-IsRemoved name t u k e = record {
  users = delete_by_id name t.users u k.user_ids k.user_names e;
  told = sym (any-found (named name) t.users u e);
  invites = λ v f.
      ap (λ (w : UserRow). filter (λ (i : InviteRow). not (text_eq i.user_id w.id)) t.invites)
        (some-injective (sym e ∙ f));
  projects = refl;
  releases = refl;
}

unmet-IsRemoved :
    (name : Text) (t : Tables) → find (named name) t.users ≡ none → IsRemoved name false t t
unmet-IsRemoved name t e =
    let absent = any-lost (named name) t.users e in
    record {
      users = sym (filter-absent (λ (u : UserRow). u.name) name t.users absent);
      told = sym absent;
      invites = λ u f. cc;
      projects = refl;
      releases = refl;
    }

remove_found-eq-ok :
    (id : Text) (db : Db) (b : Bool)
    → (remove_found (some id) db).0 ≡ ok b
    → (b ≡ true)
      × ((remove_found (some id) db).1.tables ≡ delete_user id (delete_invites id db.tables))
unfolding remove_found pure
remove_found-eq-ok id db b e =
    let (u, cleared, e₁, s₁) = >>=-eq-ok _ _ db e in
    let (v, deleted, e₂, s₂) = >>=-eq-ok _ _ _ e₁ in
    (
      cc,
      ap (λ r. r.1.tables) (s₁ ∙ s₂)
          ∙ execute_all-eq-ok (delete_user id) _ deleted
          ∙ ap (delete_user id) (execute_all-eq-ok (delete_invites id) db cleared),
    )

abbrev id_of : Option UserRow → Option Text
id_of o = Option.map (λ (u : UserRow). u.id) o

-- the rest of the removal, after the look at the users
remove_found-IsRemoved :
    (name : Text) (t : Tables) (o : Option UserRow) (db : Db) (b : Bool)
    → IsKeyed t
    → find (named name) t.users ≡ o
    → db.tables ≡ t
    → (remove_found (id_of o) db).0 ≡ ok b
    → IsRemoved name b t (remove_found (id_of o) db).1.tables
unfolding remove_found pure
remove_found-IsRemoved name t none db b k e same h =
    let told : b ≡ false = cc in
    subst⁻¹ (λ met. IsRemoved name met t db.tables) told
      (subst⁻¹ (λ after. IsRemoved name false t after) same (unmet-IsRemoved name t e))
remove_found-IsRemoved name t (some u) db b k e same h =
    let (told, left) = remove_found-eq-ok u.id db b h in
    subst⁻¹ (λ met. IsRemoved name met t (remove_found (some u.id) db).1.tables) told
      (subst⁻¹ (λ after. IsRemoved name true t after)
        (left ∙ ap (λ x. delete_user u.id (delete_invites u.id x)) same)
        (deleted-IsRemoved name t u k e))

-- In a database with unique keys, a removal that succeeds tells whether a user had the name, leaves
-- the other users, and of the invites those of other users, in their order, and nothing else changed.
pub remove_user-IsRemoved :
    (name : Text) (db : Db) (b : Bool)
    → IsKeyed db.tables
    → (remove_user name db).0 ≡ ok b
    → IsRemoved name b db.tables (remove_user name db).1.tables
unfolding remove_user user_id_by_name remove_found pure
remove_user-IsRemoved name db b k e =
    let (found, looked, e₁, s₁) = >>=-eq-ok (user_id_by_name name) remove_found db e in
    let is_found = query-eq-ok _ db found looked in
    let rest =
      remove_found-IsRemoved name db.tables (find (named name) db.tables.users)
        (user_id_by_name name db).1 b k refl
        (tables-query
          (λ (t : Tables).
            Option.map (λ (u : UserRow). u.id) (find (λ u. text_eq u.name name) t.users))
          db)
        (subst (λ o. (remove_found o (user_id_by_name name db).1).0 ≡ ok b) is_found e₁) in
    subst⁻¹ (λ (r : Result Bool × Db). IsRemoved name b db.tables r.1.tables)
      (s₁ ∙ ap (λ o. remove_found o (user_id_by_name name db).1) is_found) rest
