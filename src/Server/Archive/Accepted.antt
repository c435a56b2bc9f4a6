-- ===== src/Server/Archive/Accepted.antt =====
-- Which uploads `receive_archive` accepts.
use railyard.Base.{
  ℕ, suc, ◌+◌, ◌≤◌, ◌==◌, ◌≡◌, refl, sym, Option-cases, ap, ◌∙◌, ◌↔◌, ◌++◌, ltb, not, Bool, true,
  false, Bool-cases, Text, length, length-append, Option, none, List, [], ◌∷◌, ok, ensure,
  ensure-eq-ok, inl, inr, arith,
}
use railyard.Base.Results.{>>=-eq-ok}
use railyard.AuthProtocol.{Crates}
use railyard.Server.Archive.{
  Frame, bytes, trailers, broken, Disk, max_archive_bytes, unless, receive, hash_agrees,
  receive_archive,
}

-- the bytes of the frames
unfoldable pub data_of : List Frame → List ℕ
data_of [] = []
data_of (bytes chunk ∷ frames) = chunk ++ data_of frames
data_of (trailers ∷ frames) = data_of frames
data_of (broken _ ∷ frames) = data_of frames

-- no frame is a broken connection
abbrev pub IsWhole : List Frame → Type 0
IsWhole [] = Unit
IsWhole (bytes _ ∷ frames) = IsWhole frames
IsWhole (trailers ∷ frames) = IsWhole frames
IsWhole (broken _ ∷ frames) = ⊥

-- A disk on which no step fails.
pub record IsWorking (disk : Disk) : Type 0 where
  pub creates : disk.create ≡ none
  pub writes : (n : ℕ) → disk.write n ≡ none
  pub flushes : disk.flush ≡ none

-- The bytes that an upload leaves in the file: those of its frames, not none, within the limit, and
-- with the signed hash where there is one.
pub record IsArchive (crates : Crates) (frames : List Frame) (hash : Option Text) (file : List ℕ)
    : Type 0 where
  pub whole : IsWhole frames
  pub all_data : file ≡ data_of frames
  pub nonempty : (length file == 0) ≡ false
  pub within : length file ≤ max_archive_bytes
  pub agrees : hash_agrees crates hash file ≡ true

not-eq-true : (b : Bool) → not b ≡ true → b ≡ false
not-eq-true false h = refl
not-eq-true true h = cc

append_assoc : (xs ys zs : List ℕ) → (xs ++ ys) ++ zs ≡ xs ++ (ys ++ zs)
append_assoc [] ys zs = refl
append_assoc (x ∷ xs) ys zs = ap (λ l. x ∷ l) (append_assoc xs ys zs)

append-nil : (xs : List ℕ) → xs ++ [] ≡ xs
append-nil [] = refl
append-nil (x ∷ xs) = ap (λ l. x ∷ l) (append-nil xs)

module _ (disk : Disk) where
  receive-eq-ok :
      (n : ℕ) (before : List ℕ) (frames : List Frame) (file : List ℕ)
      → length before ≤ max_archive_bytes
      → receive disk n before frames ≡ ok file
      → IsWhole frames × (file ≡ before ++ data_of frames) × (length file ≤ max_archive_bytes)
  unfolding receive data_of
  receive-eq-ok n before [] file le e =
      let same : file ≡ before = cc in (tt, same ∙ sym (append-nil before), rw same le)
  receive-eq-ok n before (broken _ ∷ frames) file le e = cc
  receive-eq-ok n before (trailers ∷ frames) file le e = receive-eq-ok n before frames file le e
  receive-eq-ok n before (bytes chunk ∷ frames) file le e =
      elim (Bool-cases (ltb max_archive_bytes (length before + length chunk))) [
        | inl over ↦ absurd (cc (rw over at e))
        | inr fits ↦ elim (Option-cases (disk.write n)) [
          | inr (why, failed) ↦ absurd (cc (rw failed at (rw fits at e)))
          | inl written ↦
              let (whole, all, within) =
                receive-eq-ok (suc n) (before ++ chunk) frames file
                  (ground (arith, length-append before chunk)) (rw written at (rw fits at e)) in
              (whole, all ∙ append_assoc before chunk (data_of frames), within)
        ]
      ]

  receive-whole :
      IsWorking disk
      → (n : ℕ) (before : List ℕ) (frames : List Frame) → IsWhole frames
      → length (before ++ data_of frames) ≤ max_archive_bytes
      → receive disk n before frames ≡ ok (before ++ data_of frames)
  unfolding receive data_of
  receive-whole w n before [] h le = ap ok (sym (append-nil before))
  receive-whole w n before (broken _ ∷ frames) h le = absurd h
  receive-whole w n before (trailers ∷ frames) h le = receive-whole w n before frames h le
  receive-whole w n before (bytes chunk ∷ frames) h le =
      let same = append_assoc before chunk (data_of frames) in
      let whole = receive-whole w (suc n) (before ++ chunk) frames h (rw same le) in
      let fits : ltb max_archive_bytes (length before + length chunk) ≡ false = ground (
        arith,
        length-append (before ++ chunk) (data_of frames),
        length-append before chunk,
        ap (λ (l : List ℕ). length l) same,
      ) in
      rw fits (rw (w.writes n) (whole ∙ ap ok same))

module _ (crates : Crates) (disk : Disk) (frames : List Frame) (hash : Option Text) where
  receive_archive-IsArchive :
      (file : List ℕ)
      → receive_archive crates disk frames hash ≡ ok file
      → IsArchive crates frames hash file
  unfolding receive_archive
  receive_archive-IsArchive file e =
      let (_, _, e₁) = >>=-eq-ok (unless disk.create) _ e in
      let (got, received, e₂) = >>=-eq-ok (receive disk 0 [] frames) _ e₁ in
      let (_, _, e₃) = >>=-eq-ok (unless disk.flush) _ e₂ in
      let (_, some_data, e₄) = >>=-eq-ok (ensure (not (length got == 0)) _) _ e₃ in
      let (_, agrees, e₅) = >>=-eq-ok (ensure (hash_agrees crates hash got) _) _ e₄ in
      let (whole, all, within) = receive-eq-ok disk 0 [] frames got (omega arith) received in
      let same : got ≡ file = cc in
      record {
        whole = whole;
        all_data = sym same ∙ all;
        nonempty = rw (← same) (not-eq-true _ (ensure-eq-ok _ _ some_data));
        within = rw (← same) within;
        agrees = rw (← same) (ensure-eq-ok _ _ agrees);
      }

  -- On a working disk an upload is accepted exactly if its connection does not break and its bytes
  -- are not none, within 2 GiB, and of the signed hash where there is one; the file holds the bytes
  -- of its frames in their order.
  pub receive_archive-eq-ok_iff :
      (file : List ℕ)
      → IsWorking disk
      → (receive_archive crates disk frames hash ≡ ok file) ↔ IsArchive crates frames hash file
  unfolding receive_archive ensure receive
  receive_archive-eq-ok_iff file w = (
    receive_archive-IsArchive file,
    λ a. rw w.creates (
        rw (receive-whole disk w 0 [] frames a.whole (rw (← a.all_data) a.within))
          (rw w.flushes (rw (← a.all_data) (rw a.nonempty (rw a.agrees refl))))),
  )
