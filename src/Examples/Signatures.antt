-- ===== src/Examples/Signatures.antt =====
-- The checks of signatures on the toy server.
use railyard.Base.{
  ◌>>=◌, true, false, text_eq_iff, ok_or, get, insert, if◌then◌else◌, text_eq, ensure, find, filter,
  pure, lift, none, ◌<◌, ◌↔◌, arith, ℕ, ◌≡◌, ◌≢◌, refl, txt, some, ok, [],
}
use mathlib.Core.Option
use railyard.Server.Db.{query}
use railyard.Server.Db.Users.{AuthUser, key_owner}
use railyard.Server.Requests.{HttpRequest, ApiState, on_db}
use railyard.Server.Signatures.{
  SignatureHeaders, read_headers, in_window, check_signature, parse_public_key, decode_signature,
  signed_host, canonical_of, header, opened, closing, retained, checked_request, verified,
  record_nonce, identify,
}
use railyard.Server.Signatures.Authentic.{IsAuthentic}
use railyard.Server.Signatures.Credible.{IsCredible, checked_request-IsCredible_iff}
use railyard.Server.Signatures.Replay.{Runs, replay_refused, replay_accepted}
use railyard.Server.Signatures.Raced.{replay_raced}
use railyard.Examples.Data.{toy, a_state, some_db, request_at, a_signature, a_key}

abbrev the_headers : ℕ → SignatureHeaders
the_headers stamp = record {
  key_id = txt "usr_1";
  nonce = txt "n";
  content_sha256 = [];
  signature = a_signature;
  timestamp = stamp;
}

abbrev the_admin : AuthUser
the_admin = record { id = txt "usr_1"; name = txt "ann"; project_id = none }

abbrev passed_on : ℕ → HttpRequest
passed_on stamp = verified (request_at stamp) (the_headers stamp) the_admin

timely_request : (checked_request toy 1000 (request_at 1000) a_state).0 ≡ ok (passed_on 1000)
unfolding checked_request opened closing ◌>>=◌ lift pure read_headers header ok_or get text_eq txt
    ensure in_window identify on_db key_owner query Option.bind find check_signature
    parse_public_key decode_signature signed_host canonical_of record_nonce filter
timely_request = refl

headers_read : (stamp : ℕ) → read_headers toy (request_at stamp) ≡ ok (the_headers stamp)
unfolding read_headers header ok_or get text_eq txt ensure
headers_read stamp = refl

abbrev authentic :
    (stamp : ℕ)
    → in_window 1000 stamp ≡ true
    → IsAuthentic toy 1000 (request_at stamp) (passed_on stamp) a_state
unfolding ◌>>=◌ get text_eq txt key_owner query Option.bind find parse_public_key decode_signature
    signed_host filter retained ok_or
authentic stamp timely = record {
  headers = the_headers stamp;
  stored_key = a_key;
  user = the_admin;
  read = headers_read stamp;
  timely = timely;
  owned = refl;
  signed = record {
    public_key = a_key;
    signature = a_signature;
    host = txt "api.local";
    stored = refl;
    decoded = refl;
    signed_for = refl;
    verifies = refl;
  };
  fresh = refl;
  passed_on = refl;
}

abbrev early_request : IsAuthentic toy 1000 (request_at 1001) (passed_on 1001) a_state
unfolding in_window authentic
early_request = authentic 1001 refl

checked_request-IsCredible_iff_example :
    ((checked_request toy 1000 (request_at 1000) a_state).0 ≡ ok (passed_on 1000))
    ↔ IsCredible toy 1000 (request_at 1000) (passed_on 1000) a_state
checked_request-IsCredible_iff_example =
    checked_request-IsCredible_iff toy 1000 (request_at 1000) (passed_on 1000) a_state

early_ahead : 1000 < 1001
early_ahead = omega arith

early_owned : (key_owner (txt "usr_1") some_db).0 ≡ ok (some (a_key, the_admin))
unfolding key_owner query Option.bind find text_eq txt
early_owned = refl

began : opened toy 1000 (request_at 990) ≡ ok (the_headers 990)
unfolding opened read_headers header ok_or get text_eq txt ensure in_window
began = refl

began_again : opened toy 1200 (request_at 990) ≡ ok (the_headers 990)
unfolding opened read_headers header ok_or get text_eq txt ensure in_window
began_again = refl

ended :
    (closing toy 1000 (request_at 990) (the_headers 990) (a_key, the_admin) a_state).0
    ≡ ok (passed_on 990)
unfolding closing ◌>>=◌ lift pure ok_or get text_eq txt ensure Option.bind check_signature
    parse_public_key decode_signature signed_host canonical_of record_nonce filter retained
ended = refl

-- the state after the first check, which has waited a second for its key
abbrev once : ApiState
once = (closing toy 1000 (request_at 990) (the_headers 990) (a_key, the_admin) a_state).1

-- the same check once more has taken the lock in between
abbrev twice : ApiState
twice = (closing toy 1001 (request_at 990) (the_headers 990) (a_key, the_admin) once).1

replay_refused_example :
    (closing toy 1200 (request_at 990) (the_headers 990) (a_key, the_admin) twice).0
    ≢ ok (passed_on 990)
replay_refused_example =
    replay_refused toy 1 1000 1001 1200 1201 (request_at 990) (request_at 990) (passed_on 990)
      (passed_on 990) (a_key, the_admin) (a_key, the_admin) a_state twice (the_headers 990)
      (omega arith) (omega arith) began (omega arith, omega arith) ended
      (Runs.wait 1201
        (Runs.lock 1001 (request_at 990) (the_headers 990) (a_key, the_admin) Runs.stay
          (omega arith, omega arith))
        (omega arith))
      began_again (omega arith, omega arith)

abbrev prompt_request : IsAuthentic toy 1000 (request_at 1000) (passed_on 1000) a_state
unfolding in_window authentic
prompt_request = authentic 1000 refl

-- a request with another nonce
abbrev other_request : HttpRequest
other_request = record (request_at 1301) {
  header = λ name.
      if text_eq name (txt "x-railyard-nonce")
      then some (txt "m")
      else (request_at 1301).header name;
}

abbrev other_headers : SignatureHeaders
other_headers = record (the_headers 1301) { nonce = txt "m" }

other_began : opened toy 1301 other_request ≡ ok other_headers
unfolding opened read_headers header ok_or get text_eq txt ensure in_window
other_began = refl

other_ended :
    (closing toy 1301 other_request other_headers
      (a_key, the_admin)
      (record (checked_request toy 1000 (request_at 1000) a_state).1 { db = some_db })).0
    ≡ ok (verified other_request other_headers the_admin)
unfolding checked_request opened closing ◌>>=◌ lift pure read_headers header ok_or get text_eq txt
    ensure in_window identify on_db key_owner query Option.bind find check_signature
    parse_public_key decode_signature signed_host canonical_of record_nonce filter retained insert
other_ended = refl

other_nonce : txt "m" ≢ txt "n"
unfolding txt text_eq
other_nonce e = let same : false ≡ true = (text_eq_iff (txt "m") (txt "n")).1 e in cc

replay_raced_example :
    (opened toy 1300 (request_at 1000) ≡ ok (the_headers 1000))
    × ((closing toy 1300
          (request_at 1000)
          (the_headers 1000)
          (a_key, the_admin)
          (closing toy 1301 other_request other_headers
            (a_key, the_admin)
            (record (checked_request toy 1000 (request_at 1000) a_state).1 { db = some_db })).1).0
        ≡ ok (passed_on 1000))
unfolding prompt_request authentic
replay_raced_example =
    replay_raced toy 1000 (request_at 1000) (passed_on 1000) a_state prompt_request other_request
      (verified other_request other_headers the_admin) other_headers (a_key, the_admin) some_db refl
      other_nonce other_ended

replay_accepted_example :
    (checked_request toy 1301
      (request_at 1001)
      (record (checked_request toy 1000 (request_at 1001) a_state).1 { db = some_db })).0
    ≡ ok (passed_on 1001)
unfolding early_request authentic
replay_accepted_example =
    replay_accepted toy 1000 (request_at 1001) (passed_on 1001) a_state early_request some_db
      early_ahead early_owned
