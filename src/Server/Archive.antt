-- ===== src/Server/Archive.antt =====
-- `receive_archive` and `unpack_archive` of apps/server/src/api/routes.rs: the upload of a release.
pub mod Accepted
use railyard.Base.{
  ℕ, suc, ◌+◌, ◌*◌, ◌++◌, ◌==◌, ltb, not, Bool, Text, txt, text_eq, length, Option, none, some,
  List, [], ◌∷◌, Result, ok, err, ensure, if◌then◌else◌,
}
use railyard.Base.Results.{◌>>=◌, ◌>>◌}
use railyard.AuthProtocol.{Crates}

abbrev pub max_archive_bytes : ℕ
max_archive_bytes = 2 * 1024 * 1024 * 1024

-- a frame of the request's body: bytes, trailers, or the error with which the connection broke
pub data Frame : Type 0 where
  bytes : List ℕ → Frame
  trailers : Frame
  broken : Text → Frame

-- The release's directory: the errors of creating it with its file, of the n-th write to the file
-- and of the flush, where there are any, and what unpacking an archive there comes to.
pub record Disk : Type 0 where
  pub create : Option Text
  pub write : ℕ → Option Text
  pub flush : Option Text
  pub unpack : List ℕ → Result (Unit {0})

abbrev pub unless : Option Text → Result (Unit {0})
unless none = ok tt
unless (some error) = err error

too_large : Text
too_large = txt "archive exceeds the 2147483648 byte limit"

-- The loop over the frames; `n` counts the writes, and the result is what the file holds.
unfoldable pub receive : Disk → ℕ → List ℕ → List Frame → Result (List ℕ)
unfolding too_large
receive disk n file [] = ok file
receive disk n file (broken error ∷ _) = err error
receive disk n file (trailers ∷ frames) = receive disk n file frames
receive disk n file (bytes chunk ∷ frames) =
    let rest = receive disk (suc n) (file ++ chunk) frames in
    if ltb max_archive_bytes (length file + length chunk)
    then err too_large
    else elim (disk.write n) [ some error ↦ err error | none ↦ rest ]

-- the signed hash, where the request has one, is that of the bytes
unfoldable pub hash_agrees : Crates → Option Text → List ℕ → Bool
hash_agrees crates none file = Bool.true
hash_agrees crates (some expected) file = text_eq (crates.hex_encode (crates.sha256 file)) expected

unfoldable pub receive_archive : Crates → Disk → List Frame → Option Text → Result (List ℕ)
unfolding hash_agrees
receive_archive crates disk frames signed_hash = do
  unless disk.create
  file ← receive disk 0 [] frames
  unless disk.flush
  ensure (not (length file == 0))
      (txt "request body must be a gzipped tarball of the project source")
  ensure (hash_agrees crates signed_hash file) (txt "body does not match the signed content hash")
  ok file

-- the archive, received and unpacked
unfoldable pub unpacked : Crates → Disk → List Frame → Option Text → Result (Unit {0})
unpacked crates disk frames signed_hash = do
  file ← receive_archive crates disk frames signed_hash
  disk.unpack file
