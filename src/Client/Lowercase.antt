-- ===== src/Client/Lowercase.antt =====
-- `str::to_lowercase` as far as the names that the client derives go.
use railyard.Base.{ℕ, ◌+◌, ◌==◌, ◌++◌, is_upper, Text, [], ◌∷◌, if◌then◌else◌}

-- Of the characters outside ASCII two have ASCII in their lower case: the Kelvin sign and the dotted
-- capital I. The lower case of all others stays outside ASCII, and they stand as they are.
unfoldable pub lowercase : ℕ → Text
lowercase c =
    if is_upper c
    then (c + 32) ∷ []
    else if c == 0x212a
    then b'k' ∷ []
    else if c == 0x130
    then b'i' ∷ 0x307 ∷ []
    else c ∷ []

unfoldable pub to_lowercase : Text → Text
unfolding lowercase
to_lowercase [] = []
to_lowercase (c ∷ s) = lowercase c ++ to_lowercase s
