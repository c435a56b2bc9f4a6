-- ===== src/Client/Http.antt =====
-- apps/cli/src/http.rs: the calls of the control plane.
use railyard.Base.{
  ℕ, ◌==◌, ◌&&◌, ◌++◌, leb, ltb, Bool, true, false, is_empty, Text, txt, trim, split, split_once,
  Option, none, some, List, [], ◌∷◌, Result, ok, err, ok_or, raise, lift, ◌>>=◌, if◌then◌else◌,
}
use railyard.AuthProtocol.{InvitePayload}
use railyard.Types.{
  ProjectSummary, ReleaseSummary, UserSummary, CreateUserResponse, WhoamiResponse, projects_path,
  users_path, whoami_path, project_releases_path,
}
use railyard.Client.Machine.{
  ServerConfig, ClientRequest, Reply, Sent, answered, unreached, unsent, Machine, Act, Outside,
  reads, transmit,
}
use railyard.Client.Config.{read_signing_key}
use railyard.Client.Signing.{SignedRequestHeaders, sign_request}

unfoldable pub redeem_invite_path : Text
redeem_invite_path = txt "/api/auth/redeem-invite"

abbrev pub is_success : ℕ → Bool
is_success status = leb 200 status && ltb status 300

abbrev pub on_first : {A B C : Type 0} → (A → B) → A × C → B × C
on_first f (a, c) = (f a, c)

-- the suffix at its question mark
abbrev pub path_query : Text → Text × Option Text
path_query suffix = elim (split_once b'?' suffix) [
  | none ↦ (suffix, none)
  | some (path, query) ↦ (path, some query)
]

-- `{status}` and the text of the answer, behind what failed
abbrev pub failed : Outside → Text → Reply → Text
failed out what reply =
    what ++ txt " failed (" ++ out.status_text reply.status ++ txt "): " ++ reply.body

module _ (out : Outside) where
  -- the loop over the segments: an empty one is passed over
  unfoldable pub push_segments : List Text → Text → Text
  push_segments [] url = url
  push_segments (segment ∷ segments) url =
      push_segments segments (if is_empty segment then url else out.urls.push_segment segment url)

  unfoldable pub with_path : Text × Option Text → Option Text → Result Text
  unfolding push_segments split
  with_path (path, query) none = err (txt "server URL cannot be a cannot-be-a-base URL")
  with_path (path, query) (some url) =
      ok (out.urls.set_query query (push_segments (split b'/' path) url))

  unfoldable pub control_plane_api_url : Text → Text → Result Text
  unfolding with_path split_once
  control_plane_api_url base_url suffix =
      with_path (path_query suffix) (out.urls.clear_segments base_url)

  -- the host as it is signed and sent
  unfoldable pub with_port : Text → Option ℕ → Text
  with_port host none = host
  with_port host (some port) = host ++ txt ":" ++ out.crates.number port

  unfoldable pub header_list : SignedRequestHeaders → Text → List (Text × Text)
  header_list signed host =
      (txt "host", host)
      ∷ (txt "x-railyard-key-id", signed.key_id)
      ∷ (txt "x-railyard-timestamp", out.crates.number signed.timestamp)
      ∷ (txt "x-railyard-nonce", signed.nonce)
      ∷ (txt "x-railyard-content-sha256", signed.content_sha256)
      ∷ (txt "x-railyard-signature", signed.signature)
      ∷ (txt "x-railyard-signature-version", txt "v1")
      ∷ []

  -- from the URL of the request on
  unfoldable pub signed_message :
      List ℕ → ServerConfig → Text → Text → Text → List ℕ → Text → Machine → ClientRequest
  unfolding header_list sign_request
  signed_message signing_key server method url host body content_type m =
      let signed =
        sign_request out signing_key server.key_id method (out.urls.from_path url) host body m in
      record {
        method = method;
        url = url;
        headers =
            if is_empty body
            then header_list signed host
            else header_list signed host ++ (txt "content-type", content_type) ∷ [];
        body = body;
      }

  -- all that comes before the request is sent
  unfoldable pub prepared : ServerConfig → Text → Text → List ℕ → Text → Act ClientRequest
  unfolding reads read_signing_key control_plane_api_url with_port signed_message
  prepared server method suffix body content_type = do
    signing_key ← reads (read_signing_key out server.private_key_path)
    server_url ← lift (out.urls.parse server.server_url)
    url ← lift (control_plane_api_url server_url suffix)
    name ← lift (ok_or (out.urls.host_str url) (txt "server URL is missing a host"))
    reads λ m. ok (
        signed_message signing_key server method url (with_port name (out.urls.port url)) body
          content_type m)

  abbrev pub deliver : Result ClientRequest × Machine → Sent × Machine
  deliver (err why, m) = (unsent why, m)
  deliver (ok request, m) = transmit out request m

  unfoldable pub signed_request_with_type :
      ServerConfig → Text → Text → List ℕ → Text → Machine → Sent × Machine
  unfolding transmit prepared
  signed_request_with_type server method suffix body content_type m =
      deliver (prepared server method suffix body content_type m)

  unfoldable pub signed_request : ServerConfig → Text → Text → List ℕ → Machine → Sent × Machine
  unfolding signed_request_with_type
  signed_request server method suffix body =
      signed_request_with_type server method suffix body (txt "application/json")

  abbrev pub sent_result : Sent → Result Reply
  sent_result (answered reply) = ok reply
  sent_result (unreached why) = err why
  sent_result (unsent why) = err why

  -- `.await?`
  abbrev pub await_reply : (Machine → Sent × Machine) → Act Reply
  await_reply call m = on_first sent_result (call m)

  -- an answer with a status of success, decoded
  unfoldable pub expect : {A : Type 0} → Text → (Text → Result A) → Reply → Result A
  expect what from reply =
      if is_success reply.status then from reply.body else err (failed out what reply)

  unfoldable pub redeem_url : InvitePayload → Result Text
  unfolding control_plane_api_url redeem_invite_path
  redeem_url invite = elim (out.urls.parse invite.server_url) [
    | err why ↦ err why
    | ok base_url ↦ control_plane_api_url base_url redeem_invite_path
  ]

  unfoldable pub redeem_invite : InvitePayload → Text → Act Text
  unfolding redeem_url transmit expect
  redeem_invite invite public_key = do
    url ← lift (redeem_url invite)
    reply ← await_reply (
        transmit out (record {
          method = txt "POST";
          url = url;
          headers = (txt "content-type", txt "application/json") ∷ [];
          body =
              out.json.redeem_to
                (record { invite_token = invite.invite_token; public_key = public_key });
        }))
    lift (expect (txt "invite redemption") out.json.redeemed_from reply)

  unfoldable pub list_projects : ServerConfig → Act (List ProjectSummary)
  unfolding signed_request projects_path
  list_projects server = do
    reply ← await_reply (signed_request server (txt "GET") projects_path [])
    if leb 400 reply.status && ltb reply.status 600
        then raise (txt "HTTP status error (" ++ out.status_text reply.status ++ txt ")")
        else lift (out.json.projects_from reply.body)

  unfoldable pub create_project : ServerConfig → Text → Option Text → Act ProjectSummary
  unfolding signed_request projects_path expect
  create_project server name id = do
    reply ← await_reply (
        signed_request server (txt "POST") projects_path
          (out.json.create_project_to (record { name = name; id = id })))
    lift (expect (txt "project creation") out.json.project_from reply)

  -- the path of a release with its message in the query
  unfoldable pub release_path : Text → Option Text → Text
  unfolding project_releases_path
  release_path project_id none = project_releases_path project_id
  release_path project_id (some message) =
      project_releases_path project_id ++ txt "?" ++ out.urls.form_pair (txt "message") message

  unfoldable pub create_release : ServerConfig → Text → Option Text → List ℕ → Act ReleaseSummary
  unfolding signed_request_with_type release_path expect
  create_release server project_id message archive = do
    reply ← await_reply (
        signed_request_with_type server (txt "POST") (release_path project_id message) archive
          (txt "application/gzip"))
    lift (expect (txt "release upload") out.json.release_from reply)

  unfoldable pub create_user : ServerConfig → Text → Option Text → Act CreateUserResponse
  unfolding signed_request users_path expect
  create_user server name project_id = do
    reply ← await_reply (
        signed_request server (txt "POST") users_path
          (out.json.create_user_to (record { name = name; project_id = project_id })))
    lift (expect (txt "user creation") out.json.created_user_from reply)

  unfoldable pub list_users : ServerConfig → Act (List UserSummary)
  unfolding signed_request users_path expect
  list_users server = do
    reply ← await_reply (signed_request server (txt "GET") users_path [])
    lift (expect (txt "user listing") out.json.users_from reply)

  unfoldable pub removed : Reply → Result Bool
  removed reply =
      if reply.status == 204
      then ok true
      else if reply.status == 404
      then ok false
      else err (failed out (txt "user removal") reply)

  unfoldable pub remove_user : ServerConfig → Text → Act Bool
  unfolding signed_request users_path removed
  remove_user server name = do
    reply ← await_reply (signed_request server (txt "DELETE") (users_path ++ txt "/" ++ name) [])
    lift (removed reply)

pub data WhoamiOutcome : Type 0 where
  identity : WhoamiResponse → WhoamiOutcome
  rejected : (why : Text) → WhoamiOutcome
  unreachable : WhoamiOutcome

module _ (out : Outside) where
  abbrev pub as_identity : Result WhoamiResponse → Result WhoamiOutcome
  as_identity (ok who) = ok (identity who)
  as_identity (err why) = err why

  unfoldable pub whoami_outcome : Sent → Result WhoamiOutcome
  whoami_outcome (unreached _) = ok unreachable
  whoami_outcome (unsent why) = err why
  whoami_outcome (answered reply) =
      if is_success reply.status
      then as_identity (out.json.identity_from reply.body)
      else ok (rejected (txt "(" ++ out.status_text reply.status ++ txt ") " ++ trim reply.body))

  unfoldable pub whoami : ServerConfig → Act WhoamiOutcome
  unfolding signed_request whoami_path whoami_outcome
  whoami server m = on_first whoami_outcome (signed_request out server (txt "GET") whoami_path [] m)
