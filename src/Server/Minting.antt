-- ===== src/Server/Minting.antt =====
-- apps/server/src/api/invite.rs: a user together with the invite that enrols it.
use mathlib.Core.Option
use railyard.Base.{
  ℕ, ◌+◌, ◌*◌, ◌++◌, ◌==◌, ◌&&◌, ◌||◌, not, all, is_empty, is_lower, is_digit, split_first, trim,
  Text, txt, Bool, Option, none, some, List, Result, ok, err, pure, lift, ◌>>=◌, ◌>>◌,
  if◌then◌else◌,
}
use railyard.AuthProtocol.{Crates, InviteProject, encode}
use railyard.Server.Db.{Action}
use railyard.Server.Db.Users.{create_user}
use railyard.Server.Db.Invites.{create_invite, token_hash}

abbrev pub invite_ttl_seconds : ℕ
invite_ttl_seconds = 24 * 60 * 60

pub record MintedInvite : Type 0 where
  pub user_id : Text
  pub blob : Text
  pub expires_at : ℕ

abbrev pub is_user_char : ℕ → Bool
is_user_char c = is_lower c || is_digit c || c == b'-' || c == b'_'

unfoldable pub validated_name : Crates → Text → Result Text
validated_name crates name =
    if not (is_empty name) && all is_user_char name
    then ok name
    else err
        (txt "user name " ++ crates.debug name ++ txt " must be lowercase letters, digits, - or _")

-- `RAILYARD_SERVER_NAME` where it is set, or the first label of the host's name
abbrev named_by : Option Text → Result Text → Result Text
named_by (some name) hostname = ok name
named_by none (ok hostname) = ok (split_first b'.' hostname)
named_by none (err why) = err why

abbrev trimmed_name : Text → Result Text
trimmed_name name =
    if is_empty name
    then err (txt "could not determine a server name from the hostname; set RAILYARD_SERVER_NAME")
    else ok name

unfoldable pub server_name : Option Text → Result Text → Result Text
server_name override hostname = elim (named_by override hostname) [
  | err why ↦ err why
  | ok name ↦ trimmed_name (trim name)
]

-- What a call of `mint_invite` takes from outside: the variable, the host's name or the error
-- of asking for it, the bytes
-- drawn for the user's id and for the token, and the clock.
pub record Surroundings : Type 0 where
  pub override : Option Text
  pub hostname : Result Text
  pub id_bytes : List ℕ
  pub token_bytes : List ℕ
  pub now : ℕ

unfoldable pub random_token : Crates → List ℕ → Text
random_token crates bytes = crates.url_safe_encode bytes

module _ (crates : Crates) (around : Surroundings) (server_url : Text) where
  abbrev pub token : Text
  token = random_token crates around.token_bytes

  abbrev pub expires : ℕ
  expires = around.now + invite_ttl_seconds

  -- the invite of a user that `create_user` has made
  unfoldable pub enrol :
      Text → Text → Option InviteProject → Option Text → Action (Option MintedInvite)
  enrol name server project none = pure none
  enrol name server project (some user_id) = do
    create_invite user_id (token_hash crates token) around.now expires
    pure (
        some (record {
          user_id = user_id;
          blob = encode crates (record {
            server_url = server_url;
            server_name = server;
            user_id = user_id;
            user_name = name;
            project = project;
            invite_token = token;
            expires_at = expires;
          });
          expires_at = expires;
        }))

  unfoldable pub mint_invite : Text → Option InviteProject → Action (Option MintedInvite)
  unfolding enrol random_token
  mint_invite raw project = do
    name ← lift (validated_name crates raw)
    server ← lift (server_name around.override around.hostname)
    created ←
        create_user crates around.id_bytes name (Option.map (λ (p : InviteProject). p.id) project)
          around.now
    enrol name server project created
