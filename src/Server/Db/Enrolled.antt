-- ===== src/Server/Db/Enrolled.antt =====
-- No invite is left without its user: every statement of `Db` keeps it.
pub mod Methods
use railyard.Base.{
  ℕ, ◌≡◌, refl, ◌∙◌, Bool, true, false, not, Text, Option, none, some, List, [], ◌∷◌, ok, All,
  All-filter, Bool-cases, inl, inr, any, has_key, has_key-update, update, filter, Keeps,
  Keeps-bind_after, keeps_rules, >>=-eq-ok, state-bind-pure, text_eq, text_eq_iff, text_eq_refl,
  arith, is_some, pure,
}
use mathlib.Core.Path.{subst⁻¹}
use railyard.AuthProtocol.{Crates}
use railyard.Types.{ReleaseStatus}
use railyard.Server.Db.Schema.{
  Tables, UserRow, InviteRow, ProjectRow, ReleaseRow, insert_user, insert_invite, insert_project,
  insert_release,
}
use railyard.Server.Db.Connection.{Db, Action, execute_all}
use railyard.Server.Db.Inserts.{
  insert_user-eq-ok, insert_invite-eq-ok, insert_project-eq-ok, insert_release-eq-ok,
}
use railyard.Server.Db.Keeping.{
  OnTables, keeping_rules, execute-eq-ok, execute_all-eq-ok, tables-execute, tables-execute_all,
  Keeps-execute_all,
}
use railyard.Server.Db.Users.{
  create_user, user_id_by_name, remove_user, remove_found, add_user, delete_user, delete_invites,
}
use railyard.Server.Db.Invites.{
  create_invite, redeem_invite, consume, redeemable, mark_redeemed, invite_user, register_key,
  set_public_key,
}
use railyard.Server.Db.Projects.{create_project, id_taken, insert_new}
use railyard.Server.Db.Releases.{create_release, set_release_status, update_status}

abbrev pub HasUser : Text → List UserRow → Type 0
HasUser id users = has_key (λ (u : UserRow). u.id) id users ≡ true

pub record IsEnrolled (t : Tables) : Type 0 where
  pub of_users : All (λ (i : InviteRow). HasUser i.user_id t.users) t.invites

-- what holds of the users of `us` for each invite holds of `vs`, where these have all their ids
pub All-HasUser :
    (us vs : List UserRow) (invites : List InviteRow)
    → ((id : Text) → HasUser id us → HasUser id vs)
    → All (λ (i : InviteRow). HasUser i.user_id us) invites
    → All (λ (i : InviteRow). HasUser i.user_id vs) invites
All-HasUser us vs [] keep h = tt
All-HasUser us vs (i ∷ invites) keep (p, h) = (keep i.user_id p, All-HasUser us vs invites keep h)

pub insert_user-IsEnrolled :
    (r : UserRow) (t t' : Tables) (n : ℕ)
    → insert_user r t ≡ ok (n, t')
    → IsEnrolled t
    → IsEnrolled t'
unfolding any
insert_user-IsEnrolled r t t' n e k = rw ((insert_user-eq-ok t t' n r e).0) (record {
  of_users = All-HasUser t.users (r ∷ t.users) t.invites (λ id h. ground arith) k.of_users;
})

-- an invite of a user that is there
pub insert_invite-IsEnrolled :
    (r : InviteRow) (t t' : Tables) (n : ℕ)
    → HasUser r.user_id t.users
    → insert_invite r t ≡ ok (n, t')
    → IsEnrolled t
    → IsEnrolled t'
insert_invite-IsEnrolled r t t' n u e k =
    rw ((insert_invite-eq-ok t t' n r e).0) (record { of_users = (u, k.of_users) })

pub insert_project-IsEnrolled :
    (r : ProjectRow) (t t' : Tables) (n : ℕ)
    → insert_project r t ≡ ok (n, t')
    → IsEnrolled t
    → IsEnrolled t'
insert_project-IsEnrolled r t t' n e k =
    rw ((insert_project-eq-ok t t' n r e).0) (record { of_users = k.of_users })

pub insert_release-IsEnrolled :
    (r : ReleaseRow) (t t' : Tables) (n : ℕ)
    → insert_release r t ≡ ok (n, t')
    → IsEnrolled t
    → IsEnrolled t'
insert_release-IsEnrolled r t t' n e k =
    rw ((insert_release-eq-ok t t' n r e).0) (record { of_users = k.of_users })

pub set_public_key-IsEnrolled :
    (key id : Text) (t : Tables) → IsEnrolled t → IsEnrolled (set_public_key key id t)
unfolding set_public_key
set_public_key-IsEnrolled key id t k = record {
  of_users =
      All-HasUser t.users _ t.invites (λ i h. has_key-update _ _ _ (λ r. refl) i t.users ∙ h)
        k.of_users;
}

pub update_status-IsEnrolled :
    (id : Text) (status : ReleaseStatus) (error : Option Text) (now : ℕ) (t : Tables)
    → IsEnrolled t
    → IsEnrolled (update_status id status error now t)
unfolding update_status
update_status-IsEnrolled id status error now t k = record { of_users = k.of_users }

pub marked-HasUser :
    (users : List UserRow) (test : InviteRow → Bool) (now : ℕ) (invites : List InviteRow)
    → All (λ (i : InviteRow). HasUser i.user_id users) invites
    → All (λ (i : InviteRow). HasUser i.user_id users) (update test (mark_redeemed now) invites)
unfolding update
marked-HasUser users test now [] h = tt
marked-HasUser users test now (i ∷ invites) (p, h) = elim (Bool-cases (test i)) [
  | inl e ↦ rw e (p, marked-HasUser users test now invites h)
  | inr e ↦ rw e (p, marked-HasUser users test now invites h)
]

pub consume-IsEnrolled :
    (hash : Text) (now : ℕ) (t t' : Tables) (n : ℕ)
    → ok (consume hash now t) ≡ ok (n, t')
    → IsEnrolled t
    → IsEnrolled t'
unfolding consume
consume-IsEnrolled hash now t t' n e k =
    let same : (consume hash now t).1 ≡ t' = cc in
    rw (← same)
      (record { of_users = marked-HasUser t.users (redeemable hash now) now t.invites k.of_users })

pub delete_invites-IsEnrolled :
    (id : Text) (t : Tables) → IsEnrolled t → IsEnrolled (delete_invites id t)
unfolding delete_invites
delete_invites-IsEnrolled id t k = record { of_users = All-filter _ _ t.invites k.of_users }

pub has_key-delete :
    (id j : Text) (users : List UserRow)
    → text_eq j id ≡ false
    → HasUser j users
    → HasUser j (filter (λ (u : UserRow). not (text_eq u.id id)) users)
unfolding any filter
has_key-delete id j [] ne h = h
has_key-delete id j (u ∷ users) ne h =
    ground
      (arith, text_eq_iff j id, text_eq_iff u.id id, text_eq_iff u.id j, has_key-delete id j users)

pub spared-HasUser :
    (id : Text) (users : List UserRow) (invites : List InviteRow)
    → All (λ (i : InviteRow). HasUser i.user_id users) invites
    → All
        (λ (i : InviteRow).
          HasUser i.user_id (filter (λ (u : UserRow). not (text_eq u.id id)) users))
        (filter (λ (i : InviteRow). not (text_eq i.user_id id)) invites)
unfolding filter
spared-HasUser id users [] h = tt
spared-HasUser id users (i ∷ invites) (p, h) = elim (Bool-cases (text_eq i.user_id id)) [
  | inl e ↦ rw e (spared-HasUser id users invites h)
  | inr e ↦ rw e (has_key-delete id i.user_id users e p, spared-HasUser id users invites h)
]

-- With its invites gone, a user can be deleted.
pub delete_both-IsEnrolled :
    (id : Text) (t : Tables) → IsEnrolled t → IsEnrolled (delete_user id (delete_invites id t))
unfolding delete_user delete_invites
delete_both-IsEnrolled id t k = record { of_users = spared-HasUser id t.users t.invites k.of_users }

pub ruleset enrolled_rules = (
  keeps_rules, keeping_rules, insert_user-IsEnrolled, insert_project-IsEnrolled,
  insert_release-IsEnrolled, delete_invites-IsEnrolled, consume-IsEnrolled,
  set_public_key-IsEnrolled, update_status-IsEnrolled,
)
