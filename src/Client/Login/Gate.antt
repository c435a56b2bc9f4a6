-- ===== src/Client/Login/Gate.antt =====
-- What a login requires of an invite before it does anything.
use railyard.Base.{
  ◌≡◌, ◌⊎◌, ◌<◌, Bool-cases, leb, refl, Text, txt, Option, inl, inr, ok, err, Result-cases, ensure,
  lift, ◌>>=◌, arith,
}
use railyard.AuthProtocol
use railyard.AuthProtocol.{InvitePayload}
use railyard.Client.Machine.{Machine, Outside, reads}
use railyard.Client.Login.Enrol.{login}

module _ (out : Outside) where
  -- the blob is an invite that expires after now
  pub record IsCurrent (blob : Text) (m : Machine) : Type 0 where
    pub invite : InvitePayload
    pub parsed : AuthProtocol.parse out.crates blob ≡ ok invite
    pub current : out.unix_timestamp m < invite.expires_at

  -- For any text, either it is an invite that expires after now, or the login with it fails and
  -- leaves the machine as it was, so that nothing is printed, asked, written or sent.
  pub login-IsCurrent :
      (blob : Text) (name : Option Text) (m : Machine)
      → IsCurrent blob m ⊎ ((e : Text) × (login out blob name m ≡ (err e, m)))
  unfolding login lift reads ◌>>=◌ ensure
  login-IsCurrent blob name m = elim (Result-cases (AuthProtocol.parse out.crates blob)) [
    | inl (invite, e) ↦ elim (Bool-cases (leb invite.expires_at (out.unix_timestamp m))) [
      | inl old ↦ inr (txt "this invite has expired; ask for a new one", rw (e, old) refl)
      | inr f ↦ inl (record { invite = invite; parsed = e; current = ground arith })
    ]
    | inr (why, e) ↦ inr (why, rw e refl)
  ]
