-- ===== src/Manifest/Validate/Names.antt =====
-- The tests on single texts of packages/manifest/src/validate.rs: names, sizes, repositories and
-- relative paths.
use railyard.Base.{
  ◌==◌, ◌||◌, ◌&&◌, ◌++◌, not, leb, is_empty, all, any, Bool, true, false, Text, txt, text_eq, len,
  starts_with, ends_with, is_lower, is_digit, strip_suffix, split_once, split, contains, Option,
  none, some, List, [], ◌∷◌, if◌then◌else◌,
}

pub record ValidationError : Type 0 where
  pub path : Text
  pub message : Text

-- One error if the test fails the value, none otherwise.
unfoldable pub report_if : Bool → Text → Text → List ValidationError
report_if true path message = record { path = path; message = message } ∷ []
report_if false path message = []

unfoldable pub is_valid_name : Text → Bool
is_valid_name name =
    not (is_empty name)
    && leb (len name) 63
    && all (λ c. is_lower c || is_digit c || c == b'-') name
    && not (starts_with b'-' name)
    && not (ends_with b'-' name)

-- the loop over the suffixes, which stops at the first that fits
unfoldable pub has_size : List Text → Text → Bool
has_size [] memory = false
has_size (suffix ∷ suffixes) memory =
    let rest = has_size suffixes memory in
    elim (strip_suffix suffix memory) [
      | some number ↦ not (is_empty number) && all (λ c. is_digit c) number
      | none ↦ rest
    ]

unfoldable pub is_valid_memory : Text → Bool
unfolding has_size
is_valid_memory memory = has_size (txt "Mi" ∷ txt "Gi" ∷ txt "M" ∷ txt "G" ∷ []) memory

-- the `matches!` of `check_repo`, on the two sides of the slash
unfoldable pub is_repo : Option (Text × Text) → Bool
is_repo (some (owner, name)) =
    not (is_empty owner) && not (is_empty name) && not (contains b'/' name)
is_repo none = false

unfoldable pub check_repo : Text → Text → List ValidationError
unfolding report_if is_repo
check_repo path repo =
    report_if (not (is_repo (split_once b'/' repo))) path
      (txt "`" ++ repo ++ txt "` is not an `owner/name` GitHub repo")

unfoldable pub check_relative_path : Text → Text → List ValidationError
unfolding report_if
check_relative_path at path =
    if starts_with b'/' path
    then report_if true at (txt "`" ++ path ++ txt "` must be relative to the manifest file")
    else report_if (any (text_eq (txt "..")) (split b'/' path)) at
        (txt "`" ++ path ++ txt "` must not escape the manifest file's directory (`..`)")
