-- ===== src/Server/Routes/Names.antt =====
-- The names and ids that the handlers of apps/server/src/api/routes.rs accept.
use railyard.Base.{
  ℕ, ◌==◌, ◌&&◌, ◌||◌, leb, not, all, is_empty, is_lower, is_digit, is_some_and, starts_with,
  ends_with, strip_prefix, len, Text, txt, Bool,
}

abbrev pub is_hex_char : ℕ → Bool
is_hex_char c = is_digit c || leb b'a' c && leb c b'f'

unfoldable pub is_valid_project_id : Text → Bool
is_valid_project_id id =
    is_some_and (λ hex. len hex == 16 && all is_hex_char hex) (strip_prefix (txt "prj_") id)

abbrev pub is_label_char : ℕ → Bool
is_label_char c = is_lower c || is_digit c || c == b'-'

unfoldable pub is_valid_project_name : Text → Bool
is_valid_project_name name =
    not (is_empty name)
    && leb (len name) 63
    && all is_label_char name
    && not (starts_with b'-' name)
    && not (ends_with b'-' name)
