-- ===== src/Server/Db/Schema.antt =====
-- The tables that `SCHEMA` of apps/server/src/api/db/mod.rs declares. An INSERT is refused where a
-- PRIMARY KEY or UNIQUE column has the value already. Times are stored as `i64` bit patterns.
use railyard.Base.{
  ℕ, ◌+◌, ◌%◌, ◌^◌, Text, txt, Option, List, ◌∷◌, Bool, ◌||◌, Result, ok, err, has_key, ltb,
  if◌then◌else◌,
}

pub record UserRow : Type 0 where
  pub id : Text
  pub name : Text
  pub public_key : Option Text
  pub project_id : Option Text
  pub created_at : ℕ

pub record InviteRow : Type 0 where
  pub token_hash : Text
  pub user_id : Text
  pub expires_at : ℕ
  pub redeemed_at : Option ℕ
  pub created_at : ℕ

pub record ProjectRow : Type 0 where
  pub id : Text
  pub name : Text
  pub created_at : ℕ

pub record ReleaseRow : Type 0 where
  pub id : Text
  pub project_id : Text
  pub status : Text
  pub message : Option Text
  pub error : Option Text
  pub created_at : ℕ
  pub updated_at : ℕ

pub record Tables : Type 0 where
  pub users : List UserRow
  pub invites : List InviteRow
  pub projects : List ProjectRow
  pub releases : List ReleaseRow

-- `a as i64 < b as i64` for `a b : u64`
unfoldable pub i64_lt : ℕ → ℕ → Bool
i64_lt a b = ltb ((a + 2 ^ 63) % 2 ^ 64) ((b + 2 ^ 63) % 2 ^ 64)

-- The statements that write.
unfoldable pub insert_user : UserRow → Tables → Result (ℕ × Tables)
insert_user r t =
    if has_key (λ (u : UserRow). u.id) r.id t.users
      || has_key (λ (u : UserRow). u.name) r.name t.users
    then err (txt "UNIQUE constraint failed: users")
    else ok (1, record t { users = r ∷ t.users })

unfoldable pub insert_invite : InviteRow → Tables → Result (ℕ × Tables)
insert_invite r t =
    if has_key (λ (i : InviteRow). i.token_hash) r.token_hash t.invites
    then err (txt "UNIQUE constraint failed: invites.token_hash")
    else ok (1, record t { invites = r ∷ t.invites })

unfoldable pub insert_project : ProjectRow → Tables → Result (ℕ × Tables)
insert_project r t =
    if has_key (λ (p : ProjectRow). p.id) r.id t.projects
      || has_key (λ (p : ProjectRow). p.name) r.name t.projects
    then err (txt "UNIQUE constraint failed: projects")
    else ok (1, record t { projects = r ∷ t.projects })

unfoldable pub insert_release : ReleaseRow → Tables → Result (ℕ × Tables)
insert_release r t =
    if has_key (λ (p : ReleaseRow). p.id) r.id t.releases
    then err (txt "UNIQUE constraint failed: releases.id")
    else ok (1, record t { releases = r ∷ t.releases })
