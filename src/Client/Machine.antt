-- ===== src/Client/Machine.antt =====
-- The machine on which the client runs, as far as it reads and changes it, and what the client
-- takes from outside: libraries, the environment, the user and the network. Where the client passes
-- on the message of a library or of the system, a short fixed text may stand in its place.
use railyard.Base.{
  ℕ, ◌++◌, not, Bool, any, filter, Text, txt, text_eq, get, insert, Option, none, some, List, ◌∷◌,
  Result, ok, err, Stateful, is_some_and, keys, strip_prefix, is_some, ◌||◌,
}
use railyard.AuthProtocol.{Crates, RedeemInviteRequest}
use railyard.Types.{
  CreateProjectRequest, CreateUserRequest, CreateUserResponse, ProjectSummary, ReleaseSummary,
  UserSummary, WhoamiResponse,
}
use railyard.Manifest.Parse.{Formats}
use railyard.Client.Paths.{parent}

-- `ServerConfig`, `GlobalConfig` and `StoredPrivateKey` of config.rs
pub record ServerConfig : Type 0 where
  pub server_url : Text
  pub key_id : Text
  pub private_key_path : Text

pub record GlobalConfig : Type 0 where
  pub projects : List (Text × Text)

pub record StoredPrivateKey : Type 0 where
  pub key_id : Text
  pub secret_key_base64 : Text

pub record ClientRequest : Type 0 where
  pub method : Text
  pub url : Text
  pub headers : List (Text × Text)
  pub body : List ℕ

pub record Reply : Type 0 where
  pub status : ℕ
  pub body : Text

-- `reqwest`: an answer, an error of connecting or of time, or another error
pub data Sent : Type 0 where
  answered : Reply → Sent
  unreached : (why : Text) → Sent
  unsent : (why : Text) → Sent

-- The files by their paths, the paths with mode 0600, the lines printed on either stream, the
-- questions asked and the requests sent, the last one first.
pub record Machine : Type 0 where
  pub files : List (Text × Text)
  pub private : List Text
  pub lines : List Text
  pub asked : List Text
  pub sent : List ClientRequest

abbrev pub Act : Type 0 → Type 0
Act A = Stateful Machine A

-- `serde_json` on the types that the client reads and writes
pub record Json : Type 0 where
  pub server_to : ServerConfig → Text
  pub server_from : Text → Result ServerConfig
  pub config_to : GlobalConfig → Text
  pub config_from : Text → Result GlobalConfig
  pub key_to : StoredPrivateKey → Text
  pub key_from : Text → Result StoredPrivateKey
  pub redeem_to : RedeemInviteRequest → List ℕ
  pub create_project_to : CreateProjectRequest → List ℕ
  pub create_user_to : CreateUserRequest → List ℕ
  pub redeemed_from : Text → Result Text
  pub project_from : Text → Result ProjectSummary
  pub projects_from : Text → Result (List ProjectSummary)
  pub release_from : Text → Result ReleaseSummary
  pub created_user_from : Text → Result CreateUserResponse
  pub users_from : Text → Result (List UserSummary)
  pub identity_from : Text → Result WhoamiResponse

-- The crate `url`, with a `Url` as the text that it serializes to: `parse`, `path_segments_mut` with
-- `clear`, its `push`, `set_query`, the part from `Position::BeforePath` on, `host_str` and `port`.
pub record Urls : Type 0 where
  pub parse : Text → Result Text
  pub clear_segments : Text → Option Text
  pub push_segment : Text → Text → Text
  pub set_query : Option Text → Text → Text
  pub from_path : Text → Text
  pub host_str : Text → Option Text
  pub port : Text → Option ℕ
  pub form_pair : Text → Text → Text

-- what a program that has run leaves
pub record Output : Type 0 where
  pub success : Bool
  pub stdout : Text
  pub stderr : Text

-- Keys are their 32 bytes. The clock, random bytes, the answers of the user and of the network may
-- depend on all that the client has done so far. `fault` gives the message of a path that the system
-- refuses to read and to write. `pack` walks a repository and gives the number of its files and their
-- archive; `one_decimal` prints the quotient of an `f64` by a power of two.
pub record Outside : Type 0 where
  pub crates : Crates
  pub json : Json
  pub urls : Urls
  pub formats : Formats
  pub base64_encode : List ℕ → Text
  pub verifying_key : List ℕ → List ℕ
  pub sign : List ℕ → List ℕ → List ℕ
  pub variable : Text → Option Text
  pub current_dir : Result Text
  pub fault : Text → Option Text
  pub unix_timestamp : Machine → ℕ
  pub random_bytes : ℕ → Machine → List ℕ
  pub confirm : (prompt : Text) → (default : Bool) → Machine → Result Bool
  pub select : (prompt : Text) → List Text → Machine → Result ℕ
  pub input : (prompt : Text) → (default : Text) → Machine → Result Text
  pub transmit : ClientRequest → Machine → Sent
  pub status_text : ℕ → Text
  pub run : (program : Text) → (arguments : List Text) → Machine → Result Output
  pub pack : (root output : Text) → Machine → Result (ℕ × Text)
  pub temp_dir : Text
  pub one_decimal : (dividend divisor : ℕ) → Text

-- what reading a file gives: its content, `ErrorKind::NotFound`, or another error
pub data Reading (A : Type 0) : Type 0 where
  there : A → Reading A
  missing : (why : Text) → Reading A
  broken : (why : Text) → Reading A

abbrev pub reading_result : {A : Type 0} → Reading A → Result A
reading_result (there a) = ok a
reading_result (missing why) = err why
reading_result (broken why) = err why

-- a step that reads the machine
unfoldable pub reads : {A : Type 0} → (Machine → Result A) → Act A
reads f m = (f m, m)

-- a step that only changes it
unfoldable pub change : (Machine → Machine) → Act (Unit {0})
change f m = (ok tt, f m)

-- `println!` and `eprintln!`
unfoldable pub print : Text → Act (Unit {0})
unfolding change
print line = change λ m. record m { lines = line ∷ m.lines }

module _ (out : Outside) where
  abbrev pub file_reading : (fault content : Option Text) → Reading Text
  file_reading (some why) _ = broken why
  file_reading none (some content) = there content
  file_reading none none = missing (txt "No such file or directory (os error 2)")

  unfoldable pub read_file : Text → Machine → Reading Text
  read_file path m = file_reading (out.fault path) (get path m.files)

  -- a change of the file at the path, where the system does not refuse
  unfoldable pub at_path : Text → (Machine → Machine) → Act (Unit {0})
  at_path path f m = elim (out.fault path) [ some why ↦ (err why, m) | none ↦ (ok tt, f m) ]

  unfoldable pub write_file : Text → Text → Act (Unit {0})
  unfolding at_path
  write_file path content = at_path path λ m. record m { files = insert path content m.files }

  -- `fs::create_dir_all`: a directory is there with its first file, so that only a refusal shows
  unfoldable pub create_dir_all : Option Text → Act (Unit {0})
  unfolding at_path
  create_dir_all none m = (ok tt, m)
  create_dir_all (some dir) m = at_path dir (λ m'. m') m

  unfoldable pub set_private_permissions : Text → Act (Unit {0})
  unfolding at_path
  set_private_permissions path = at_path path λ m. record m { private = path ∷ m.private }

  unfoldable pub remove_file : Text → Act (Unit {0})
  unfolding read_file
  remove_file path m = elim (read_file path m) [
    | there _ ↦ (
      ok tt,
      record m {
        files = filter (λ e. not (text_eq e.0 path)) m.files;
        private = filter (λ p. not (text_eq p path)) m.private;
      },
    )
    | missing why ↦ (err why, m)
    | broken why ↦ (err why, m)
  ]

  -- `fs::read_dir`: the paths in a directory; a directory that is missing has none
  unfoldable pub read_dir : Text → Machine → Result (List Text)
  unfolding parent
  read_dir dir m = elim (out.fault dir) [
    | some why ↦ err why
    | none ↦ ok (filter (λ path. is_some_and (text_eq dir) (parent path)) (keys m.files))
  ]

  -- `exists` of a file or of a directory
  unfoldable pub exists : Text → Machine → Bool
  exists path m =
      any (λ p. text_eq p path || is_some (strip_prefix (path ++ txt "/") p)) (keys m.files)

  unfoldable pub ask : {A : Type 0} → (Machine → Result A) → Text → Act A
  ask answer prompt m = (answer m, record m { asked = prompt ∷ m.asked })

  unfoldable pub confirm : Text → Bool → Act Bool
  unfolding ask
  confirm prompt default = ask (out.confirm prompt default) prompt

  unfoldable pub select : Text → List Text → Act ℕ
  unfolding ask
  select prompt items = ask (out.select prompt items) prompt

  unfoldable pub input : Text → Text → Act Text
  unfolding ask
  input prompt default = ask (out.input prompt default) prompt

  unfoldable pub transmit : ClientRequest → Machine → Sent × Machine
  transmit request m = (out.transmit request m, record m { sent = request ∷ m.sent })
