-- ===== src/Base/Strings.antt =====
-- A Rust `str` as the list of its code points, with the methods of `str` that the program calls.
-- Byte lengths count the bytes of the UTF-8 encoding.
use Prim.Native.Nat.{ℕ, suc, ◌+◌, ◌/◌, ◌%◌}
use Prim.Native.Char.{code}
use Prim.Native.String.{String}
use mathlib.Core.Path.{◌≡◌, refl}
use mathlib.Core.Logic.{◌↔◌}
use mathlib.Core.Bool.{Bool, true, false, not, ◌&&◌, ◌||◌}
use mathlib.Core.Option
use mathlib.Core.Option.{Option, none, some}
use mathlib.Core.List.{List, [], ◌∷◌, ◌++◌, map, reverse}
use native.Mathlib.Omega.{arith}
use railyard.Base.Tests.{ltb, leb, ◌==◌, if◌then◌else◌}

abbrev pub Text : Type 0
Text = List ℕ

-- the code points of a literal
unfoldable pub txt : String → Text
txt String.[] = []
txt (String.◌∷◌ c s) = code c ∷ txt s

unfoldable pub text_eq : Text → Text → Bool
text_eq [] [] = true
text_eq [] (_ ∷ _) = false
text_eq (_ ∷ _) [] = false
text_eq (a ∷ s) (b ∷ t) = a == b && text_eq s t

pub text_eq-eq : (s t : Text) → text_eq s t ≡ true → s ≡ t
unfolding text_eq
text_eq-eq [] [] h = refl
text_eq-eq [] (_ ∷ _) h = ground arith
text_eq-eq (_ ∷ _) [] h = ground arith
text_eq-eq (a ∷ s) (b ∷ t) h = ground (arith, text_eq-eq s t)

pub text_eq_refl : (s : Text) → text_eq s s ≡ true
unfolding text_eq
text_eq_refl [] = refl
text_eq_refl (a ∷ s) = ground (arith, text_eq_refl s)

-- `s == t` on texts decides equality.
pub text_eq_iff : (s t : Text) → (text_eq s t ≡ true) ↔ (s ≡ t)
text_eq_iff s t = (text_eq-eq s t, λ e. rw e (text_eq_refl t))

-- `char::len_utf8`
unfoldable pub len_utf8 : ℕ → ℕ
len_utf8 c = if ltb c 0x80 then 1 else if ltb c 0x800 then 2 else if ltb c 0x10000 then 3 else 4

-- `str::len`
unfoldable pub len : Text → ℕ
unfolding len_utf8
len [] = 0
len (c ∷ s) = len_utf8 c + len s

-- `strip_prefix`
unfoldable pub strip_prefix : Text → Text → Option Text
strip_prefix [] s = some s
strip_prefix (_ ∷ _) [] = none
strip_prefix (p ∷ ps) (c ∷ s) = if p == c then strip_prefix ps s else none

-- `strip_suffix`, by the reversed texts
unfoldable pub strip_suffix : Text → Text → Option Text
unfolding strip_prefix
strip_suffix p s = Option.map reverse (strip_prefix (reverse p) (reverse s))

-- `starts_with` and `ends_with` of one character
unfoldable pub starts_with : ℕ → Text → Bool
starts_with p [] = false
starts_with p (c ∷ _) = p == c

unfoldable pub ends_with : ℕ → Text → Bool
ends_with p [] = false
ends_with p (c ∷ []) = p == c
ends_with p (_ ∷ d ∷ s) = ends_with p (d ∷ s)

abbrev cons_before : ℕ → Text × Text → Text × Text
cons_before c (a, b) = (c ∷ a, b)

-- `find` of a pattern, as the text before its first occurrence and the text behind it
unfoldable pub split_once_str : Text → Text → Option (Text × Text)
unfolding strip_prefix
split_once_str pat [] = Option.map (λ rest. ([], rest)) (strip_prefix pat [])
split_once_str pat (c ∷ s) =
    let later = Option.map (cons_before c) (split_once_str pat s) in
    elim (strip_prefix pat (c ∷ s)) [ some rest ↦ some ([], rest) | none ↦ later ]

-- `split_once` at a character
unfoldable pub split_once : ℕ → Text → Option (Text × Text)
split_once p [] = none
split_once p (c ∷ s) =
    let later = Option.map (cons_before c) (split_once p s) in
    if c == p then some ([], s) else later

abbrev cons_head : ℕ → List Text → List Text
cons_head c [] = (c ∷ []) ∷ []
cons_head c (part ∷ parts) = (c ∷ part) ∷ parts

-- `split` at a character
unfoldable pub split : ℕ → Text → List Text
split p [] = [] ∷ []
split p (c ∷ s) = let rest = split p s in if c == p then [] ∷ rest else cons_head c rest

-- `split(p).next()`, which every text has
unfoldable pub split_first : ℕ → Text → Text
split_first p [] = []
split_first p (c ∷ s) = let rest = split_first p s in if c == p then [] else c ∷ rest

unfoldable pub contains : ℕ → Text → Bool
contains p [] = false
contains p (c ∷ s) = c == p || contains p s

-- `char::is_whitespace`: the code points of White_Space
unfoldable pub is_whitespace : ℕ → Bool
is_whitespace c =
    leb 9 c && leb c 13
    || c == 32
    || c == 0x85
    || c == 0xa0
    || c == 0x1680
    || leb 0x2000 c && leb c 0x200a
    || c == 0x2028
    || c == 0x2029
    || c == 0x202f
    || c == 0x205f
    || c == 0x3000

unfoldable pub trim_start : Text → Text
unfolding is_whitespace
trim_start [] = []
trim_start (c ∷ s) = let rest = trim_start s in if is_whitespace c then rest else c ∷ s

unfoldable pub trim : Text → Text
unfolding trim_start
trim s = reverse (trim_start (reverse (trim_start s)))

-- `split_whitespace().count()`: the number of runs of other characters
unfoldable pub count_words : Bool → Text → ℕ
unfolding is_whitespace
count_words inside [] = 0
count_words inside (c ∷ s) =
    let rest = count_words (not (is_whitespace c)) s in
    if is_whitespace c || inside then rest else suc rest

abbrev pub is_lower : ℕ → Bool
is_lower c = leb b'a' c && leb c b'z'

abbrev pub is_upper : ℕ → Bool
is_upper c = leb b'A' c && leb c b'Z'

abbrev pub is_digit : ℕ → Bool
is_digit c = leb b'0' c && leb c b'9'

unfoldable pub lower : ℕ → ℕ
lower c = if is_upper c then c + 32 else c

unfoldable pub to_ascii_lowercase : Text → Text
unfolding lower
to_ascii_lowercase = map lower

-- `replace` of one character by another
unfoldable pub replace : ℕ → ℕ → Text → Text
replace a b = map (λ c. if c == a then b else c)

-- `join`
unfoldable pub join : Text → List Text → Text
join sep [] = []
join sep (s ∷ []) = s
join sep (s ∷ t ∷ rest) = s ++ sep ++ join sep (t ∷ rest)

-- the UTF-8 bytes of a code point
unfoldable pub encode_utf8 : ℕ → List ℕ
encode_utf8 c =
    if ltb c 0x80
    then c ∷ []
    else if ltb c 0x800
    then (0xc0 + c / 64) ∷ (0x80 + c % 64) ∷ []
    else if ltb c 0x10000
    then (0xe0 + c / 4096) ∷ (0x80 + c / 64 % 64) ∷ (0x80 + c % 64) ∷ []
    else (0xf0 + c / 262144) ∷ (0x80 + c / 4096 % 64) ∷ (0x80 + c / 64 % 64) ∷ (0x80 + c % 64) ∷ []

-- `as_bytes`
unfoldable pub as_bytes : Text → List ℕ
unfolding encode_utf8
as_bytes [] = []
as_bytes (c ∷ s) = encode_utf8 c ++ as_bytes s

-- the order of texts, which is that of their UTF-8 bytes
unfoldable pub text_lt : Text → Text → Bool
text_lt s [] = false
text_lt [] (_ ∷ _) = true
text_lt (a ∷ s) (b ∷ t) = ltb a b || a == b && text_lt s t
