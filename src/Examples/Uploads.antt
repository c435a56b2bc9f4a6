-- ===== src/Examples/Uploads.antt =====
-- An upload, a signed call and a failing redemption on the toy server.
use railyard.Base.{
  ℕ, ◌==◌, ◌≡◌, ◌≢◌, ◌↔◌, ◌⊎◌, refl, find, text_eq, Text, txt, true, none, some, List, [], ◌∷◌, ok,
  err, if◌then◌else◌,
}
use railyard.Server.Db.{Db, db_error, i64_lt}
use railyard.Server.Db.Invites.{redeem_invite, redeemable}
use railyard.Server.Db.Redeeming.{has_hash}
use railyard.Server.Db.SingleUse.{Later}
use railyard.Server.Db.Lost.{redeem_lost}
use railyard.Server.Archive.{Frame, bytes, trailers, Disk, receive_archive}
use railyard.Server.Archive.Accepted.{IsArchive, IsWorking, receive_archive-eq-ok_iff}
use railyard.Server.Routes.{Call}
use railyard.Server.Routes.Authenticated.{IsRefused, IsHandled, signed_routes-protected}
use railyard.Examples.Data.{toy, a_state, some_db, some_tables, request_at, a_key, an_invite}
use railyard.Examples.Database.{keyed}

abbrev a_disk : Disk
a_disk = record { create = none; write = λ n. none; flush = none; unpack = λ file. ok tt }

works : IsWorking a_disk
works = record { creates = refl; writes = λ n. refl; flushes = refl }

abbrev some_frames : List Frame
some_frames = bytes (1 ∷ 2 ∷ []) ∷ trailers ∷ bytes (3 ∷ []) ∷ []

receive_archive-eq-ok_iff_example :
    (receive_archive toy a_disk some_frames (some (1 ∷ 2 ∷ 3 ∷ [])) ≡ ok (1 ∷ 2 ∷ 3 ∷ []))
    ↔ IsArchive toy some_frames (some (1 ∷ 2 ∷ 3 ∷ [])) (1 ∷ 2 ∷ 3 ∷ [])
receive_archive-eq-ok_iff_example =
    receive_archive-eq-ok_iff toy a_disk some_frames (some (1 ∷ 2 ∷ 3 ∷ [])) (1 ∷ 2 ∷ 3 ∷ []) works

signed_routes-protected_example :
    IsRefused toy 1000 (Call.drop_user (txt "ann")) (request_at 1000) a_state
    ⊎ IsHandled toy 1000 (Call.drop_user (txt "ann")) (request_at 1000) a_state
signed_routes-protected_example =
    signed_routes-protected toy 1000 (Call.drop_user (txt "ann")) (request_at 1000) a_state

-- its third statement fails
abbrev failing_db : Db
failing_db = record some_db { faults = λ n. if n == 2 then some (txt "disk full") else none }

found : find (has_hash (txt "token")) some_tables.invites ≡ some an_invite
unfolding find text_eq txt
found = refl

in_time : redeemable (txt "token") 1000 an_invite ≡ true
unfolding redeemable text_eq txt i64_lt
in_time = refl

redeem_lost_example :
    ((redeem_invite (txt "token") a_key 1000 failing_db).0 ≡ err (db_error (txt "disk full")))
    × ((redeem_invite (txt "token") a_key 1000 failing_db).1.tables.users ≡ some_tables.users)
    × ((key' : Text) (now' : ℕ) (later : Db) (id : Text)
        → Later (txt "token") (redeem_invite (txt "token") a_key 1000 failing_db).1 later
        → (redeem_invite (txt "token") key' now' later).0 ≢ ok (some id))
redeem_lost_example =
    redeem_lost (txt "token") a_key 1000 failing_db an_invite (txt "disk full") keyed found in_time
      refl refl refl
