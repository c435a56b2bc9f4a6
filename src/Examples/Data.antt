-- ===== src/Examples/Data.antt =====
-- Toy crates, and a server with one admin, one invite and one project.
use railyard.Base.{ℕ, ◌==◌, ◌&&◌, true, Text, txt, get, length, Option, none, some, [], ◌∷◌}
use railyard.AuthProtocol.{Crates}
use railyard.Server.Db.{Db, Tables, UserRow, InviteRow}
use railyard.Server.Requests.{HttpRequest, ApiConfig, ApiState}

abbrev first_code : Text → Option ℕ
first_code [] = none
first_code (c ∷ _) = some c

-- Hashes and encodings leave the bytes as they are, and a signature is right if it has 64 bytes.
abbrev pub toy : Crates
toy = record {
  hex_encode = λ bytes. bytes;
  sha256 = λ bytes. bytes;
  base64_decode = λ text. some text;
  url_safe_encode = λ bytes. bytes;
  url_safe_decode = λ text. some text;
  is_verifying_key = λ bytes. true;
  verify = λ key message signature. length key == 32 && length signature == 64;
  invite_to_json = λ payload. [];
  invite_from_json = λ json. none;
  number = λ n. n ∷ [];
  parse_u64 = first_code;
  debug = λ text. text;
}

abbrev pub a_key : Text
a_key = txt "abcdefghijklmnopqrstuvwxyz012345"

abbrev pub a_signature : Text
a_signature = txt "abcdefghijklmnopqrstuvwxyz012345abcdefghijklmnopqrstuvwxyz012345"

abbrev pub ann : UserRow
ann = record {
  id = txt "usr_1";
  name = txt "ann";
  public_key = some a_key;
  project_id = none;
  created_at = 5;
}

abbrev pub an_invite : InviteRow
an_invite = record {
  token_hash = txt "token";
  user_id = txt "usr_1";
  expires_at = 2000;
  redeemed_at = none;
  created_at = 5;
}

abbrev pub some_tables : Tables
some_tables = record { users = ann ∷ []; invites = an_invite ∷ []; projects = []; releases = [] }

abbrev pub some_db : Db
some_db = record { tables = some_tables; faults = λ n. none; statements = 0 }

abbrev pub a_config : ApiConfig
a_config = record { proxy_addr = []; api_addr = []; server_url = []; service_upstreams = 0 }

abbrev pub a_state : ApiState
a_state = record { config = a_config; db = some_db; seen_nonces = [] }

-- the headers of a request with its timestamp
abbrev pub headers_at : ℕ → Text → Option Text
headers_at stamp name = get name (
    (txt "x-railyard-signature-version", txt "v1")
    ∷ (txt "x-railyard-key-id", txt "usr_1")
    ∷ (txt "x-railyard-nonce", txt "n")
    ∷ (txt "x-railyard-content-sha256", [])
    ∷ (txt "x-railyard-signature", a_signature)
    ∷ (txt "x-railyard-timestamp", stamp ∷ [])
    ∷ (txt "host", txt "api.local")
    ∷ [])

abbrev pub request_at : ℕ → HttpRequest
request_at stamp = record {
  method = txt "GET";
  path_and_query = some (txt "/v1/users");
  authority = none;
  header = headers_at stamp;
  body = [];
  signed_hash = none;
  user = none;
}
