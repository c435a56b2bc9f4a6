-- ===== src/Client/Config/Places.antt =====
-- Where the entry of a server lies on the disk.
use mathlib.Core.List.{append_assoc}
use railyard.Base.{
  ℕ, ◌≡◌, refl, sym, ap, ◌∙◌, inl, inr, ◌++◌, false, Bool-cases, All, contains, ◌||◌, is_empty,
  starts_with, ends_with, Text, txt, text_eq, none, some, [], ◌∷◌, Result-cases, ok, arith,
}
use railyard.Client.Paths.{join, parent, file_name, rsplit_once, before_slash, last_name}
use railyard.Client.Machine.{Outside}
use railyard.Client.Config.{config_root, in_client, server_path, sanitize_server_name}
use railyard.Client.Config.Names.{IsNameChar, IsServerName, sanitize_server_name-IsServerName}

rsplit_once-absent : (p : ℕ) (s : Text) → contains p s ≡ false → rsplit_once p s ≡ none
unfolding rsplit_once contains
rsplit_once-absent p [] h = refl
rsplit_once-absent p (c ∷ s) h = ground (arith, rsplit_once-absent p s)

rsplit_once-append :
    (p : ℕ) (dir file : Text)
    → contains p file ≡ false
    → rsplit_once p (dir ++ p ∷ file) ≡ some (dir, file)
unfolding rsplit_once
rsplit_once-append p [] file h = rw (rsplit_once-absent p file h) ground arith
rsplit_once-append p (c ∷ dir) file h = rw (rsplit_once-append p dir file h) refl

ends_with-append :
    (p : ℕ) (s : Text) (c : ℕ) (t : Text) → ends_with p (s ++ c ∷ t) ≡ ends_with p (c ∷ t)
unfolding ends_with
ends_with-append p [] c t = refl
ends_with-append p (d ∷ []) c t = refl
ends_with-append p (d ∷ e ∷ s) c t = ends_with-append p (e ∷ s) c t

-- a name in a directory that is not empty and does not end in a slash
module _ (c : ℕ) (above file : Text) where
  abbrev dir : Text
  dir = c ∷ above

  join-dir :
      ends_with b'/' dir ≡ false
      → starts_with b'/' file ≡ false
      → join dir file ≡ dir ++ b'/' ∷ file
  unfolding join txt
  join-dir closed relative = rw (relative, closed) (append_assoc dir (b'/' ∷ []) file)

  parent-join :
      ends_with b'/' dir ≡ false
      → starts_with b'/' file ≡ false
      → contains b'/' file ≡ false
      → parent (join dir file) ≡ some dir
  unfolding parent before_slash
  parent-join closed relative plain =
      ap parent (join-dir closed relative)
      ∙ ap before_slash (rsplit_once-append b'/' dir file plain)

  file_name-join :
      ends_with b'/' dir ≡ false
      → starts_with b'/' file ≡ false
      → contains b'/' file ≡ false
      → is_empty file ≡ false
      → text_eq file (txt "..") ≡ false
      → file_name (join dir file) ≡ some file
  unfolding file_name last_name
  file_name-join closed relative plain nonempty proper =
      ap file_name (join-dir closed relative)
      ∙ rw (rsplit_once-append b'/' dir file plain) (rw (nonempty, proper) refl)

-- the directory of the servers, under the root
abbrev pub servers_dir : Text → Text
servers_dir root = join (join root (txt "client")) (txt "servers")

-- a path that is not empty and does not end in a slash
abbrev IsName : Text → Type 0
IsName path = (c : ℕ) × (above : Text) × (path ≡ c ∷ above) × (ends_with b'/' (c ∷ above) ≡ false)

IsName-append : (s : Text) → IsName (s ++ txt "servers")
unfolding txt
IsName-append [] = unfold ends_with in (_, _, refl, refl)
IsName-append (c ∷ s) =
    (c, _, refl, unfold ends_with in ends_with-append b'/' (c ∷ s) b's' (txt "ervers"))

servers_dir-IsName : (root : Text) → IsName (servers_dir root)
unfolding join starts_with
servers_dir-IsName root =
    let client = join root (txt "client") in
    elim (Bool-cases (is_empty client || ends_with b'/' client)) [
      | inl e ↦ unfold txt in rw (e, join) (IsName-append client)
      | inr e ↦ unfold txt in rw (e, join) (IsName-append (client ++ txt "/"))
    ]

plain_name : (name : Text) → All IsNameChar name → contains b'/' (name ++ txt ".json") ≡ false
unfolding contains txt
plain_name [] h = refl
plain_name (c ∷ name) (p, h) = ground (arith, plain_name name h)

relative_name : (name : Text) → All IsNameChar name → starts_with b'/' (name ++ txt ".json") ≡ false
unfolding starts_with txt
relative_name [] h = refl
relative_name (c ∷ name) (p, h) = ground arith

proper_name :
    (name : Text)
    → All IsNameChar name
    → (is_empty (name ++ txt ".json") ≡ false) × (text_eq (name ++ txt ".json") (txt "..") ≡ false)
unfolding text_eq txt
proper_name [] h = (refl, refl)
proper_name (c ∷ name) (p, h) = (refl, ground arith)

-- the path is that of a file of the directory of the servers, with the name and `.json`
pub record IsEntryOf (out : Outside) (name path : Text) : Type 0 where
  pub root : Text
  pub rooted : config_root out ≡ ok root
  pub inside : parent path ≡ some (servers_dir root)
  pub called : file_name path ≡ some (name ++ txt ".json")

server_path-eq-ok :
    (out : Outside) (name path : Text)
    → server_path out name ≡ ok path
    → (root : Text) × (config_root out ≡ ok root)
      × (path ≡ join (servers_dir root) (name ++ txt ".json"))
unfolding server_path in_client
server_path-eq-ok out name path h = elim (Result-cases (config_root out)) [
  | inr (why, e) ↦ cc (rw (e, in_client) at h)
  | inl (root, e) ↦
      let located : ok (join (servers_dir root) (name ++ txt ".json")) ≡ ok path =
        rw (e, in_client) at h in
      (root, e, cc)
]

joined-IsEntryOf :
    (out : Outside) (name root path : Text)
    → IsServerName name
    → config_root out ≡ ok root
    → path ≡ join (servers_dir root) (name ++ txt ".json")
    → IsEntryOf out name path
joined-IsEntryOf out name root path n rooted located =
    let (c, above, same, closed) = servers_dir-IsName root in
    let file = name ++ txt ".json" in
    let relative = relative_name name n.made_of in
    let plain = plain_name name n.made_of in
    let (nonempty, proper) = proper_name name n.made_of in
    let there : path ≡ join (c ∷ above) file = located ∙ ap (λ d. join d file) same in
    record {
      root = root;
      rooted = rooted;
      inside =
          ap parent there ∙ parent-join c above file closed relative plain ∙ ap some (sym same);
      called =
          ap file_name there ∙ file_name-join c above file closed relative plain nonempty proper;
    }

-- Whatever text a name of an entry is made of, the path of the entry, where there is one, lies in the
-- directory of the servers under the client's root itself, and its file is called as the name, with
-- `.json`.
pub server_path-IsEntryOf :
    (out : Outside) (raw path : Text)
    → server_path out (sanitize_server_name raw) ≡ ok path
    → IsEntryOf out (sanitize_server_name raw) path
server_path-IsEntryOf out raw path h =
    let name = sanitize_server_name raw in
    let (root, rooted, located) = server_path-eq-ok out name path h in
    joined-IsEntryOf out name root path (sanitize_server_name-IsServerName raw) rooted located
