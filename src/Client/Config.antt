-- ===== src/Client/Config.antt =====
-- apps/cli/src/config.rs: the entries of servers, the keys and the bindings of projects in the
-- client's directory.
use mathlib.Core.List.{reverse}
use railyard.Base.{
  ℕ, suc, ◌+◌, ◌==◌, ◌||◌, ◌++◌, not, ltb, length, map, filter, is_some, is_some_and, Bool, true,
  false, is_empty, is_lower, is_upper, is_digit, Text, txt, text_eq, text_lt, get, insert, Option,
  none, some, List, [], ◌∷◌, Result, ok, err, ok_or, pure, lift, ◌>>=◌, ◌>>◌, if◌then◌else◌,
}
use railyard.Client.Paths.{join, parent, file_name, stem_extension}
use railyard.Client.Machine.{
  ServerConfig, GlobalConfig, StoredPrivateKey, Machine, Act, Outside, Reading, there, missing,
  broken, reading_result, reads, print, read_file, write_file, create_dir_all,
  set_private_permissions, remove_file, read_dir,
}
pub mod Names
pub mod Places
pub mod Stored
pub mod Bindings

-- `trim_matches` of one character
unfoldable pub trim_start_matches : ℕ → Text → Text
trim_start_matches p [] = []
trim_start_matches p (c ∷ s) = let rest = trim_start_matches p s in if c == p then rest else c ∷ s

unfoldable pub trim_matches : ℕ → Text → Text
unfolding trim_start_matches
trim_matches p s = reverse (trim_start_matches p (reverse (trim_start_matches p s)))

abbrev pub is_server_char : ℕ → Bool
is_server_char c = is_lower c || is_upper c || is_digit c || c == b'-' || c == b'_'

unfoldable pub sanitize_server_name : Text → Text
unfolding trim_matches
sanitize_server_name raw = trim_matches b'-' (map (λ c. if is_server_char c then c else b'-') raw)

-- a list sorted by its names; equal names keep their order
unfoldable pub insert_by_name {ℓ} : {A : Type ℓ} → Text × A → List (Text × A) → List (Text × A)
unfolding text_lt
insert_by_name entry [] = entry ∷ []
insert_by_name entry (first ∷ rest) =
    let later = insert_by_name entry rest in
    if text_lt first.0 entry.0 then first ∷ later else entry ∷ first ∷ rest

unfoldable pub sort_by_name {ℓ} : {A : Type ℓ} → List (Text × A) → List (Text × A)
unfolding insert_by_name
sort_by_name [] = []
sort_by_name (entry ∷ rest) = insert_by_name entry (sort_by_name rest)

-- a file as a value
unfoldable pub decoded : {A : Type 0} → (Text → Result A) → Reading Text → Reading A
decoded from (missing why) = missing why
decoded from (broken why) = broken why
decoded from (there raw) = elim (from raw) [ ok a ↦ there a | err why ↦ broken why ]

-- a configuration that is missing is empty
unfoldable pub or_default : Reading GlobalConfig → Result GlobalConfig
or_default (there config) = ok config
or_default (missing _) = ok (record { projects = [] })
or_default (broken why) = err why

-- the map without the key
unfoldable pub without : Text → List (Text × Text) → List (Text × Text)
without k m = filter (λ e. not (text_eq e.0 k)) m

-- the loop over the values: each that is `from` becomes `to`
unfoldable pub moved_to : Text → Text → List (Text × Text) → List (Text × Text)
moved_to from to m = map (λ e. (e.0, if text_eq e.1 from then to else e.1)) m

unfoldable pub count_bound : Text → List (Text × Text) → ℕ
count_bound from [] = 0
count_bound from ((_, server) ∷ m) =
    let rest = count_bound from m in if text_eq server from then suc rest else rest

-- the bytes of a key: exactly 32
unfoldable pub secret_key : Option (List ℕ) → Result (List ℕ)
secret_key none = err (txt "invalid base64")
secret_key (some bytes) =
    if length bytes == 32 then ok bytes else err (txt "secret key must be 32 bytes")

module _ (out : Outside) where
  unfoldable pub config_root : Result Text
  unfolding join
  config_root =
      if is_some (out.variable (txt "RAILYARD_DEV"))
      then ok (txt ".dev-state")
      else elim (out.variable (txt "XDG_CONFIG_HOME")) [
        | some path ↦ ok (join path (txt "railyard"))
        | none ↦ elim (out.variable (txt "HOME")) [
          | some home ↦ ok (join (join home (txt ".config")) (txt "railyard"))
          | none ↦ elim (out.variable (txt "APPDATA")) [
            | some appdata ↦ ok (join appdata (txt "railyard"))
            | none ↦
                err
                  (txt "could not locate a config directory: set XDG_CONFIG_HOME, HOME, or APPDATA")
          ]
        ]
      ]

  -- a path under the client's directory
  unfoldable pub in_client : (Text → Text) → Result Text
  unfolding config_root join
  in_client below = elim config_root [
    | err why ↦ err why
    | ok root ↦ ok (below (join root (txt "client")))
  ]

  unfoldable pub server_path : Text → Result Text
  unfolding in_client join
  server_path server_name =
      in_client λ client. join (join client (txt "servers")) (server_name ++ txt ".json")

  unfoldable pub key_path : Text → Result Text
  unfolding in_client join
  key_path key_id = in_client λ client. join (join client (txt "keys")) (key_id ++ txt ".json")

  unfoldable pub global_config_path : Result Text
  unfolding in_client join
  global_config_path = in_client λ client. join client (txt "config.json")

  unfoldable pub write_server : Text → ServerConfig → Act Text
  write_server server_name server = do
    path ← lift (server_path server_name)
    create_dir_all out (parent path)
    write_file out path (out.json.server_to server)
    pure path

  -- with the kind of its error
  unfoldable pub read_server : Text → Machine → Reading ServerConfig
  unfolding server_path decoded read_file
  read_server server_name m = elim (server_path server_name) [
    | err why ↦ broken why
    | ok path ↦ decoded out.json.server_from (read_file out path m)
  ]

  -- the result of the removal of the key file is dropped
  unfoldable pub remove_key_file : Reading ServerConfig → Act (Unit {0})
  unfolding remove_file
  remove_key_file (there server) m = (ok tt, (remove_file out server.private_key_path m).1)
  remove_key_file (missing _) m = (ok tt, m)
  remove_key_file (broken _) m = (ok tt, m)

  unfoldable pub remove_server : Text → Act (Unit {0})
  unfolding read_server
  remove_server server_name = do
    server ← reads λ m. ok (read_server server_name m)
    remove_key_file server
    path ← lift (server_path server_name)
    remove_file out path

  -- one entry of the directory: nothing, or the server in it; one that does not parse is passed over
  -- with a warning
  unfoldable pub parsed_entry : Text → Result ServerConfig → Act (List (Text × ServerConfig))
  unfolding print
  parsed_entry name (ok server) = pure ((name, server) ∷ [])
  parsed_entry name (err why) = do
    print (txt "warning: skipping unreadable server " ++ name ++ txt ": " ++ why)
    pure []

  unfoldable pub list_named : Text → Text × Option Text → Act (List (Text × ServerConfig))
  unfolding parsed_entry reads
  list_named path (name, extension) =
      if is_some_and (text_eq (txt "json")) extension
      then (do
        raw ← reads λ m. reading_result (read_file out path m)
        parsed_entry name (out.json.server_from raw))
      else pure []

  unfoldable pub list_entry : Text → Act (List (Text × ServerConfig))
  unfolding list_named file_name stem_extension
  list_entry path = elim (file_name path) [
    | none ↦ pure []
    | some name ↦ list_named path (stem_extension name)
  ]

  unfoldable pub list_entries : List Text → Act (List (Text × ServerConfig))
  unfolding list_entry
  list_entries [] = pure []
  list_entries (path ∷ paths) = do
    entry ← list_entry path
    rest ← list_entries paths
    pure (entry ++ rest)

  unfoldable pub list_servers : Act (List (Text × ServerConfig))
  unfolding list_entries in_client join sort_by_name reads
  list_servers = do
    dir ← lift (in_client λ client. join client (txt "servers"))
    paths ← reads (read_dir out dir)
    servers ← list_entries paths
    pure (sort_by_name servers)

  unfoldable pub read_global_config : Machine → Result GlobalConfig
  unfolding global_config_path decoded or_default read_file
  read_global_config m = elim global_config_path [
    | err why ↦ err why
    | ok path ↦ or_default (decoded out.json.config_from (read_file out path m))
  ]

  unfoldable pub write_global_config : GlobalConfig → Act (Unit {0})
  write_global_config config = do
    path ← lift global_config_path
    create_dir_all out (parent path)
    write_file out path (out.json.config_to config)

  unfoldable pub read_project_binding : Text → Machine → Result (Option Text)
  unfolding read_global_config
  read_project_binding project_id m = elim (read_global_config m) [
    | err why ↦ err why
    | ok config ↦ ok (get project_id config.projects)
  ]

  unfoldable pub record_project_binding : Text → Text → Act (Unit {0})
  unfolding reads read_global_config write_global_config
  record_project_binding project_id server_name = do
    config ← reads read_global_config
    write_global_config (record { projects = insert project_id server_name config.projects })

  unfoldable pub remove_project_binding : Text → Act (Option Text)
  unfolding reads read_global_config write_global_config without
  remove_project_binding project_id = do
    config ← reads read_global_config
    if is_some (get project_id config.projects)
        then write_global_config (record { projects = without project_id config.projects })
        else pure tt
    pure (get project_id config.projects)

  unfoldable pub rebind_projects : Text → Text → Act ℕ
  unfolding reads read_global_config write_global_config moved_to count_bound
  rebind_projects from to = do
    config ← reads read_global_config
    if ltb 0 (count_bound from config.projects)
        then write_global_config (record { projects = moved_to from to config.projects })
        else pure tt
    pure (count_bound from config.projects)

  unfoldable pub write_signing_key : Text → List ℕ → Act Text
  write_signing_key key_id signing_key = do
    path ← lift (key_path key_id)
    create_dir_all out (parent path)
    write_file out path (
        out.json.key_to
          (record { key_id = key_id; secret_key_base64 = out.base64_encode signing_key }))
    set_private_permissions out path
    pure path

  unfoldable pub stored_key : Result StoredPrivateKey → Result (List ℕ)
  unfolding secret_key
  stored_key (err why) = err why
  stored_key (ok stored) = secret_key (out.crates.base64_decode stored.secret_key_base64)

  unfoldable pub parsed_key : Result Text → Result (List ℕ)
  unfolding stored_key
  parsed_key (err why) = err why
  parsed_key (ok raw) = stored_key (out.json.key_from raw)

  unfoldable pub read_signing_key : Text → Machine → Result (List ℕ)
  unfolding parsed_key read_file
  read_signing_key path m = parsed_key (reading_result (read_file out path m))
