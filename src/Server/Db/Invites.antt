-- ===== src/Server/Db/Invites.antt =====
-- apps/server/src/api/db/invite.rs
use mathlib.Core.Option
use railyard.Base.{
  pure, raise, ◌>>=◌, ◌>>◌, ℕ, ◌==◌, ◌&&◌, Bool, Text, txt, text_eq, as_bytes, Option, none, some,
  is_none, find, update, filter, length, ok, if◌then◌else◌,
}
use railyard.AuthProtocol.{Crates}
use railyard.Server.Db.Schema.{Tables, UserRow, InviteRow, insert_invite, i64_lt}
use railyard.Server.Db.Connection.{Action, query, execute, execute_all}

unfoldable pub token_hash : Crates → Text → Text
token_hash crates token = crates.hex_encode (crates.sha256 (as_bytes token))

unfoldable pub create_invite : Text → Text → ℕ → ℕ → Action ℕ
create_invite user_id hash now expires_at = execute (
    insert_invite (record {
      token_hash = hash;
      user_id = user_id;
      expires_at = expires_at;
      redeemed_at = none;
      created_at = now;
    }))

-- `token_hash = ?2 AND redeemed_at IS NULL AND expires_at > ?1`
unfoldable pub redeemable : Text → ℕ → InviteRow → Bool
redeemable hash now i =
    text_eq i.token_hash hash && is_none i.redeemed_at && i64_lt now i.expires_at

abbrev pub mark_redeemed : ℕ → InviteRow → InviteRow
mark_redeemed now i = record i { redeemed_at = some now }

-- the UPDATE that consumes an invite, with the number of rows that it changed
unfoldable pub consume : Text → ℕ → Tables → ℕ × Tables
unfolding redeemable
consume hash now t = (
  length (filter (redeemable hash now) t.invites),
  record t { invites = update (redeemable hash now) (mark_redeemed now) t.invites },
)

-- `UPDATE users SET public_key = ?1 WHERE id = ?2`
unfoldable pub set_public_key : Text → Text → Tables → Tables
set_public_key key user_id t = record t {
  users =
      update (λ (u : UserRow). text_eq u.id user_id) (λ u. record u { public_key = some key })
        t.users;
}

unfoldable pub invite_user : Text → Action (Option Text)
invite_user hash = query (λ t.
    Option.map (λ (i : InviteRow). i.user_id) (find (λ i. text_eq i.token_hash hash) t.invites))

unfoldable pub register_key : Text → Option Text → Action (Option Text)
register_key key none = raise (txt "redeemed invite row disappeared")
register_key key (some user_id) = do execute_all (set_public_key key user_id); pure (some user_id)

unfoldable pub redeem_invite : Text → Text → ℕ → Action (Option Text)
unfolding consume invite_user register_key set_public_key
redeem_invite hash public_key now = do
  consumed ← execute (λ t. ok (consume hash now t))
  if consumed == 0 then pure none else do found ← invite_user hash; register_key public_key found
