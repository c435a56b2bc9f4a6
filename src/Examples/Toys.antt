-- ===== src/Examples/Toys.antt =====
-- A toy machine with a key, one entry of a server and a manifest, and the libraries of the client.
use railyard.Base.{
  ℕ, zero, suc, ◌+◌, ◌++◌, ◌≡◌, refl, ap, ◌∙◌, map, lower, to_ascii_lowercase, Text, txt, none,
  some, List, [], ◌∷◌, Result, ok, err, arith, if◌then◌else◌, text_eq, length,
}
use railyard.AuthProtocol.{Crates}
use railyard.Manifest.Model.{default_manifest}
use railyard.Manifest.Parse.{Formats, fits}
use railyard.Manifest.Validate.Cycle.{Edges}
use railyard.Client.Machine.{
  ServerConfig, GlobalConfig, StoredPrivateKey, answered, Machine, Json, Urls, Outside,
}
use railyard.Examples.Data.{toy, a_key, a_signature}

-- texts one after another, each with an end mark
abbrev pub put : Text → Text → Text
put [] rest = 0 ∷ rest
put (c ∷ t) rest = suc c ∷ put t rest

abbrev onto : ℕ → List Text → List Text
onto c [] = (c ∷ []) ∷ []
onto c (t ∷ ts) = (c ∷ t) ∷ ts

abbrev pub texts : Text → List Text
texts [] = []
texts (zero ∷ s) = [] ∷ texts s
texts (suc c ∷ s) = onto c (texts s)

texts-put : (t rest : Text) → texts (put t rest) ≡ t ∷ texts rest
texts-put [] rest = refl
texts-put (c ∷ t) rest = ap (onto c) (texts-put t rest)

abbrev pub server_to : ServerConfig → Text
server_to s = put s.server_url (put s.key_id (put s.private_key_path []))

abbrev server_of : List Text → Result ServerConfig
server_of (a ∷ b ∷ c ∷ []) = ok (record { server_url = a; key_id = b; private_key_path = c })
server_of _ = err (txt "invalid")

abbrev pub key_to : StoredPrivateKey → Text
key_to s = put s.key_id (put s.secret_key_base64 [])

abbrev key_of : List Text → Result StoredPrivateKey
key_of (a ∷ b ∷ []) = ok (record { key_id = a; secret_key_base64 = b })
key_of _ = err (txt "invalid")

abbrev put_pairs : List (Text × Text) → Text
put_pairs [] = []
put_pairs ((a, b) ∷ rest) = put a (put b (put_pairs rest))

abbrev pairs : List Text → List (Text × Text)
pairs (a ∷ b ∷ rest) = (a, b) ∷ pairs rest
pairs (a ∷ []) = []
pairs [] = []

abbrev pub config_to : GlobalConfig → Text
config_to c = put_pairs c.projects

abbrev pub refused : {A : Type 0} → Text → Result A
refused raw = err (txt "invalid")

abbrev pub a_json : Json
a_json = record {
  server_to = server_to;
  server_from = λ raw. server_of (texts raw);
  config_to = config_to;
  config_from = λ raw. ok (record { projects = pairs (texts raw) });
  key_to = key_to;
  key_from = λ raw. key_of (texts raw);
  redeem_to = λ r. r.invite_token;
  create_project_to = λ r. r.name;
  create_user_to = λ r. r.name;
  redeemed_from = λ raw. ok raw;
  project_from = refused;
  projects_from = refused;
  release_from = refused;
  created_user_from = refused;
  users_from = refused;
  identity_from =
      λ raw. ok (record { user_id = raw; name = raw; project_id = none; project_name = none });
}

pub server_back : (s : ServerConfig) → a_json.server_from (server_to s) ≡ ok s
server_back s = ap server_of (
    texts-put s.server_url _
    ∙ ap (λ ts. s.server_url ∷ ts)
        (texts-put s.key_id _ ∙ ap (λ ts. s.key_id ∷ ts) (texts-put s.private_key_path [])))

pub key_back : (s : StoredPrivateKey) → a_json.key_from (key_to s) ≡ ok s
key_back s =
    ap key_of (texts-put s.key_id _ ∙ ap (λ ts. s.key_id ∷ ts) (texts-put s.secret_key_base64 []))

pairs-put_pairs : (m : List (Text × Text)) → pairs (texts (put_pairs m)) ≡ m
pairs-put_pairs [] = refl
pairs-put_pairs ((a, b) ∷ rest) =
    ap pairs (texts-put a _ ∙ ap (λ ts. a ∷ ts) (texts-put b (put_pairs rest)))
    ∙ ap (λ m. (a, b) ∷ m) (pairs-put_pairs rest)

pub config_back : (c : GlobalConfig) → a_json.config_from (config_to c) ≡ ok c
config_back c = ap (λ m. ok (record { projects = m })) (pairs-put_pairs c.projects)

-- a URL is its host's, with its segments behind
abbrev some_urls : Urls
some_urls = record {
  parse = λ text. ok text;
  clear_segments = λ url. some url;
  push_segment = λ segment url. url ++ txt "/" ++ segment;
  set_query = λ query url. url;
  from_path = λ url. url;
  host_str = λ url. some (txt "api.local");
  port = λ url. none;
  form_pair = λ name value. name ++ txt "=" ++ value;
}

abbrev pub some_formats : Formats
some_formats = record {
  json_from = λ raw. ok raw;
  json5_from = λ raw. ok raw;
  deserialize = λ raw. fits default_manifest;
  to_string_pretty = λ m. [];
  order = λ (edges : Edges). map (λ e. e.0) edges;
}

-- hexadecimal digits stand above all letters
abbrev pub client_crates : Crates
client_crates = record toy { hex_encode = map (λ n. n + 1000) }

above_letters : (n : ℕ) → lower (n + 1000) ≡ n + 1000
unfolding lower
above_letters n = ground arith

pub hex_lower :
    (bytes : List ℕ)
    → to_ascii_lowercase (client_crates.hex_encode bytes) ≡ client_crates.hex_encode bytes
unfolding to_ascii_lowercase
hex_lower [] = refl
hex_lower (n ∷ bytes) =
    ap (λ c. c ∷ map (λ k. lower k) (map (λ k. k + 1000) bytes)) (above_letters n)
    ∙ ap (λ s. (n + 1000) ∷ s) (hex_lower bytes)

abbrev zeros : ℕ → List ℕ
zeros zero = []
zeros (suc n) = 0 ∷ zeros n

-- Every request is answered with 200 and the body `usr_1`.
abbrev pub an_outside : Outside
an_outside = record {
  crates = client_crates;
  json = a_json;
  urls = some_urls;
  formats = some_formats;
  base64_encode = λ bytes. bytes;
  verifying_key = λ key. a_key;
  sign = λ key message. a_signature;
  variable = λ name. if text_eq name (txt "HOME") then some (txt "/h") else none;
  current_dir = ok (txt "/w/app");
  fault = λ path. none;
  unix_timestamp = λ m. 1000;
  random_bytes = λ n m. zeros n;
  confirm = λ prompt default m. ok default;
  select = λ prompt items m. ok 0;
  input = λ prompt default m. ok default;
  transmit = λ request m. answered (record { status = 200; body = txt "usr_1" });
  status_text = λ n. n ∷ [];
  run = λ program arguments m. err (txt "not found");
  pack = λ root output m. ok (0, []);
  temp_dir = txt "/tmp";
  one_decimal = λ a b. [];
}

abbrev pub an_entry : ServerConfig
an_entry = record {
  server_url = txt "https://api.local";
  key_id = txt "usr_1";
  private_key_path = txt "/k";
}

abbrev pub a_machine : Machine
a_machine = record {
  files =
      (txt "/k", key_to (record { key_id = txt "usr_1"; secret_key_base64 = a_key }))
      ∷ (txt "/w/.railyard.json", txt "{}")
      ∷ [];
  private = [];
  lines = [];
  asked = [];
  sent = [];
}

pub enough : (n : ℕ) (m : Machine) → length (an_outside.random_bytes n m) ≡ n
enough zero m = refl
enough (suc n) m = ap suc (enough n m)
