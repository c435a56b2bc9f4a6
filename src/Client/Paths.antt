-- ===== src/Client/Paths.antt =====
-- The methods of `std::path` that the client calls, on Unix paths without a trailing slash and
-- without the components `.` and an empty one.
use railyard.Base.{
  ℕ, ◌==◌, ◌++◌, ◌||◌, is_empty, starts_with, ends_with, Text, txt, text_eq, Option, none, some, [],
  ◌∷◌, if◌then◌else◌,
}

-- `rsplit_once` at a character
unfoldable pub rsplit_once : ℕ → Text → Option (Text × Text)
rsplit_once p [] = none
rsplit_once p (c ∷ s) =
    let here : Option (Text × Text) = if c == p then some ([], s) else none in
    elim (rsplit_once p s) [ some (a, b) ↦ some (c ∷ a, b) | none ↦ here ]

-- `join`: an absolute path replaces the directory
unfoldable pub join : Text → Text → Text
join dir name =
    if starts_with b'/' name
    then name
    else if is_empty dir || ends_with b'/' dir
    then dir ++ name
    else dir ++ txt "/" ++ name

-- the directory in front of the last slash
unfoldable pub before_slash : Option (Text × Text) → Option Text
before_slash none = some []
before_slash (some ([], [])) = none
before_slash (some ([], _ ∷ _)) = some (txt "/")
before_slash (some (c ∷ dir, _)) = some (c ∷ dir)

-- `parent`; `pop` goes to the parent, and is false where there is none
unfoldable pub parent : Text → Option Text
unfolding rsplit_once before_slash
parent [] = none
parent (c ∷ path) = before_slash (rsplit_once b'/' (c ∷ path))

unfoldable pub last_name : Text → Option (Text × Text) → Text
last_name path none = path
last_name path (some (_, name)) = name

-- `file_name`: none of the root, of `..` and of the empty path
unfoldable pub file_name : Text → Option Text
unfolding rsplit_once last_name
file_name path =
    let name = last_name path (rsplit_once b'/' path) in
    if is_empty name || text_eq name (txt "..") then none else some name

-- the stem of a file's name and its extension
unfoldable pub stem_extension : Text → Text × Option Text
unfolding rsplit_once
stem_extension name = elim (rsplit_once b'.' name) [
  | none ↦ (name, none)
  | some ([], _) ↦ (name, none)
  | some (c ∷ stem, extension) ↦ (c ∷ stem, some extension)
]
