-- ===== src/Server/Signatures/Signed.antt =====
-- The headers by their names and the signed text line by line, against the steps of the check.
use mathlib.Core.List.{append_assoc}
use mathlib.Core.Path.{subst}
use railyard.Base.{
  ◌≡◌, refl, ap, ◌∙◌, ◌++◌, Text, txt, text_eq_iff, text_eq_refl, some, List, [], ◌∷◌, ok, ok_or,
  ok_or-eq-ok, ensure, ensure-eq-ok,
}
use railyard.Base.Results
use railyard.AuthProtocol.{Crates, canonical_request}
use railyard.Server.Requests.{HttpRequest}
use railyard.Server.Signatures.Headers.{SignatureHeaders, header, read_headers}

-- a text of lines
abbrev pub lines : List Text → Text
lines [] = []
lines (l ∷ []) = l
lines (l ∷ m ∷ ls) = l ++ b'\n' ∷ lines (m ∷ ls)

-- What the client signs: the version, then a field and its value on each line.
abbrev pub signed_text : Crates → HttpRequest → SignatureHeaders → (path host : Text) → Text
signed_text crates request h path host = lines (
    txt "RAILYARD-REQUEST-V1"
    ∷ (txt "key_id:" ++ h.key_id)
    ∷ (txt "timestamp:" ++ crates.number h.timestamp)
    ∷ (txt "nonce:" ++ h.nonce)
    ∷ (txt "method:" ++ request.method)
    ∷ (txt "path:" ++ path)
    ∷ (txt "host:" ++ host)
    ∷ (txt "content_sha256:" ++ h.content_sha256)
    ∷ [])

-- the request has each header, and its version is v1
pub record HasHeaders (crates : Crates) (request : HttpRequest) (h : SignatureHeaders)
    : Type 0 where
  pub version : request.header (txt "x-railyard-signature-version") ≡ some (txt "v1")
  pub key_id : request.header (txt "x-railyard-key-id") ≡ some h.key_id
  pub nonce : request.header (txt "x-railyard-nonce") ≡ some h.nonce
  pub content_sha256 : request.header (txt "x-railyard-content-sha256") ≡ some h.content_sha256
  pub signature : request.header (txt "x-railyard-signature") ≡ some h.signature
  pub stamp : Text
  pub stamped : request.header (txt "x-railyard-timestamp") ≡ some stamp
  pub timestamp : crates.parse_u64 stamp ≡ some h.timestamp

header-eq-ok :
    (request : HttpRequest) (name value : Text)
    → header request name ≡ ok value
    → request.header name ≡ some value
unfolding header
header-eq-ok request name value e = ok_or-eq-ok _ _ _ e

pub read_headers-HasHeaders :
    (crates : Crates) (request : HttpRequest) (h : SignatureHeaders)
    → read_headers crates request ≡ ok h
    → HasHeaders crates request h
unfolding read_headers
read_headers-HasHeaders crates request h e =
    let (version, v, e₁) = Results.>>=-eq-ok _ _ e in
    let (_, v1, e₂) = Results.>>=-eq-ok _ _ e₁ in
    let (key_id, k, e₃) = Results.>>=-eq-ok _ _ e₂ in
    let (nonce, n, e₄) = Results.>>=-eq-ok _ _ e₃ in
    let (content, c, e₅) = Results.>>=-eq-ok _ _ e₄ in
    let (signature, s, e₆) = Results.>>=-eq-ok _ _ e₅ in
    let (stamp, t, e₇) = Results.>>=-eq-ok _ _ e₆ in
    let (timestamp, u, e₈) = Results.>>=-eq-ok _ _ e₇ in
    let is_v1 = (text_eq_iff version (txt "v1")).0 (ensure-eq-ok _ _ v1) in
    let parts : SignatureHeaders = record {
      key_id = key_id;
      nonce = nonce;
      content_sha256 = content;
      signature = signature;
      timestamp = timestamp;
    } in
    let same : parts ≡ h = cc in
    subst (HasHeaders crates request) same (record {
      version = header-eq-ok request _ version v ∙ ap some is_v1;
      key_id = header-eq-ok request _ key_id k;
      nonce = header-eq-ok request _ nonce n;
      content_sha256 = header-eq-ok request _ content c;
      signature = header-eq-ok request _ signature s;
      stamp = stamp;
      stamped = header-eq-ok request _ stamp t;
      timestamp = ok_or-eq-ok _ _ _ u;
    })

pub HasHeaders-read_headers :
    (crates : Crates) (request : HttpRequest) (h : SignatureHeaders)
    → HasHeaders crates request h
    → read_headers crates request ≡ ok h
unfolding read_headers header ok_or ensure
HasHeaders-read_headers crates request h g = rw g.version (
    rw (text_eq_refl (txt "v1")) (
      rw g.key_id
        (rw g.nonce (rw g.content_sha256 (rw g.signature (rw g.stamped (rw g.timestamp refl)))))))

pub signed_text-canonical :
    (crates : Crates) (request : HttpRequest) (h : SignatureHeaders) (path host : Text)
    → canonical_request crates h.key_id h.timestamp h.nonce request.method path host
        h.content_sha256
      ≡ signed_text crates request h path host
unfolding canonical_request txt
signed_text-canonical crates request h path host = simp (append_assoc)
