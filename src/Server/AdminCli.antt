-- ===== src/Server/AdminCli.antt =====
-- apps/server/src/cli/user.rs: the commands `user add`, `user list` and `user remove` of
-- railyard-server, which speak to the daemon through its admin socket.
use railyard.Base.{
  ℕ, ◌-◌, ◌/◌, ◌++◌, ◌&&◌, ◌==◌, ltb, leb, unwrap_or, Text, txt, Bool, true, false, Option, none,
  some, List, [], ◌∷◌, Result, ok, err, Stateful, pure, raise, lift, ◌>>=◌, ◌>>◌, is_some,
  if◌then◌else◌,
}
use railyard.Types.{CreateUserRequest, CreateUserResponse, UserSummary, users_path}
pub mod Removal

-- What the commands take from outside, with `S` the daemon and all else that a call may change: the
-- socket, with the error of connecting to it and an exchange over it, serde_json, the clock, and what
-- prints numbers and bytes. An exchange gets the method, the path, the headers and the body.
pub record Socket (S : Type 0) : Type 0 where
  pub unreachable : S → Option Text
  pub exchange :
      (method path : Text) → List (Text × Text) → (body : List ℕ) → S → Result (ℕ × List ℕ) × S
  pub create_user_to : CreateUserRequest → Result (List ℕ)
  pub created_user_from : List ℕ → Result CreateUserResponse
  pub users_from : List ℕ → Result (List UserSummary)
  pub unix_timestamp : S → ℕ
  pub number : ℕ → Text
  pub status_text : ℕ → Text
  pub from_utf8_lossy : List ℕ → Text

-- the lines printed, the last one first, and the daemon
pub record Terminal (S : Type 0) : Type 0 where
  pub lines : List Text
  pub daemon : S

abbrev is_success : ℕ → Bool
is_success status = leb 200 status && ltb status 300

module _ {S : Type 0} where
  unfoldable pub print : Text → Stateful (Terminal S) (Unit {0})
  print line t = (ok tt, record { lines = line ∷ t.lines; daemon = t.daemon })

module _ {S : Type 0} (socket : Socket S) where
  abbrev pub request_headers : Option (List ℕ) → List (Text × Text)
  request_headers body =
      (txt "host", txt "railyard")
      ∷ (if is_some body then (txt "content-type", txt "application/json") ∷ [] else [])

  unfoldable pub admin_request :
      (method path : Text) → (body : Option (List ℕ)) → Stateful (Terminal S) (ℕ × List ℕ)
  admin_request method path body t = elim (socket.unreachable t.daemon) [
    | some error ↦ (
      err (
          txt "could not reach the railyard-server daemon ("
          ++ error
          ++ txt "); start it with `railyard-server up`"),
      t,
    )
    | none ↦
        let (r, daemon) =
          socket.exchange method path (request_headers body) (unwrap_or [] body) t.daemon in
        (r, record { lines = t.lines; daemon = daemon })
  ]

  unfoldable pub request_failed : Text → ℕ → List ℕ → Text
  request_failed action status body =
      action
      ++ txt " failed ("
      ++ socket.status_text status
      ++ txt "): "
      ++ socket.from_utf8_lossy body

  unfoldable pub format_age : ℕ → Text
  format_age seconds =
      if ltb seconds 60
      then socket.number seconds ++ txt "s"
      else if ltb seconds 3600
      then socket.number (seconds / 60) ++ txt "m"
      else if ltb seconds 86400
      then socket.number (seconds / 3600) ++ txt "h"
      else socket.number (seconds / 86400) ++ txt "d"

  unfoldable pub succeeded : Text → ℕ × List ℕ → Result (List ℕ)
  unfolding request_failed
  succeeded action (status, bytes) =
      if is_success status then ok bytes else err (request_failed action status bytes)

  unfoldable pub add : Text → Stateful (Terminal S) (Unit {0})
  unfolding admin_request succeeded print
  add name = do
    body ← lift (socket.create_user_to (record { name = name; project_id = none }))
    answer ← admin_request (txt "POST") users_path (some body)
    bytes ← lift (succeeded (txt "user creation") answer)
    created ← lift (socket.created_user_from bytes)
    print (txt "Created user " ++ name ++ txt ".")
    print (txt "Single-use invite, expires in 24h. Redeem with `railyard login <blob>`:")
    print []
    print created.invite_blob

  abbrev pub user_line : ℕ → UserSummary → Text
  user_line now user =
      user.name
      ++ txt "\t"
      ++ user.id
      ++ txt "\t"
      ++ unwrap_or (txt "admin") user.project_id
      ++ txt "\t"
      ++ (if user.has_key then txt "active" else txt "invited")
      ++ txt "\tcreated "
      ++ format_age (now - user.created_at)
      ++ txt " ago"

  unfoldable pub print_users : ℕ → List UserSummary → Stateful (Terminal S) (Unit {0})
  unfolding print format_age
  print_users now [] = pure tt
  print_users now (user ∷ users) = do print (user_line now user); print_users now users

  unfoldable pub print_listed : List UserSummary → Stateful (Terminal S) (Unit {0})
  unfolding print print_users
  print_listed [] t = print (txt "No users. Create one with `railyard-server user add <name>`.") t
  print_listed (user ∷ users) t = print_users (socket.unix_timestamp t.daemon) (user ∷ users) t

  unfoldable pub list : Stateful (Terminal S) (Unit {0})
  unfolding admin_request succeeded print_listed
  list = do
    answer ← admin_request (txt "GET") users_path none
    bytes ← lift (succeeded (txt "user listing") answer)
    users ← lift (socket.users_from bytes)
    print_listed users

  unfoldable pub removal_shown : Text → ℕ × List ℕ → Stateful (Terminal S) (Unit {0})
  unfolding print request_failed
  removal_shown name (status, bytes) =
      if status == 204
      then print (txt "Removed user " ++ name ++ txt " and revoked its key.")
      else if status == 404
      then print (txt "No user named " ++ name ++ txt ".")
      else raise (request_failed (txt "user removal") status bytes)

  unfoldable pub remove : Text → Stateful (Terminal S) (Unit {0})
  unfolding admin_request removal_shown
  remove name = do
    answer ← admin_request (txt "DELETE") (users_path ++ txt "/" ++ name) none
    removal_shown name answer
