-- ===== src/Server/Db/Inserts.antt =====
-- What an INSERT that succeeds has done, and that its keys were new.
use railyard.Base.{ℕ, ◌≡◌, false, ok, ◌∷◌, has_key, arith}
use railyard.Server.Db.Schema.{
  Tables, UserRow, InviteRow, ProjectRow, ReleaseRow, insert_user, insert_invite, insert_project,
  insert_release,
}

module _ (t t' : Tables) (n : ℕ) where
  pub insert_user-eq-ok :
      (r : UserRow)
      → insert_user r t ≡ ok (n, t')
      → (t' ≡ record t { users = r ∷ t.users })
        × (has_key (λ (u : UserRow). u.id) r.id t.users ≡ false)
        × (has_key (λ (u : UserRow). u.name) r.name t.users ≡ false)
  unfolding insert_user
  insert_user-eq-ok r e = (ground arith, ground arith, ground arith)

  pub insert_invite-eq-ok :
      (r : InviteRow)
      → insert_invite r t ≡ ok (n, t')
      → (t' ≡ record t { invites = r ∷ t.invites })
        × (has_key (λ (i : InviteRow). i.token_hash) r.token_hash t.invites ≡ false)
  unfolding insert_invite
  insert_invite-eq-ok r e = (ground arith, ground arith)

  pub insert_project-eq-ok :
      (r : ProjectRow)
      → insert_project r t ≡ ok (n, t')
      → (t' ≡ record t { projects = r ∷ t.projects })
        × (has_key (λ (p : ProjectRow). p.id) r.id t.projects ≡ false)
        × (has_key (λ (p : ProjectRow). p.name) r.name t.projects ≡ false)
  unfolding insert_project
  insert_project-eq-ok r e = (ground arith, ground arith, ground arith)

  pub insert_release-eq-ok :
      (r : ReleaseRow)
      → insert_release r t ≡ ok (n, t')
      → (t' ≡ record t { releases = r ∷ t.releases })
        × (has_key (λ (x : ReleaseRow). x.id) r.id t.releases ≡ false)
  unfolding insert_release
  insert_release-eq-ok r e = (ground arith, ground arith)
