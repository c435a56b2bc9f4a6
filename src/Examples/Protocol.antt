-- ===== src/Examples/Protocol.antt =====
-- An invite and a status.
use railyard.Base.{◌≡◌, ◌↔◌, refl, txt, none, some, ok, is_whitespace}
use railyard.AuthProtocol.{Crates, InvitePayload, encode, parse}
use railyard.AuthProtocol.RoundTrip.{parse-encode}
use railyard.Types.{ready, as_str, parse_status}
use railyard.Types.Status.{parse_status_iff}
use railyard.Examples.Data.{toy}

abbrev a_payload : InvitePayload
a_payload = record {
  server_url = txt "https://api.local";
  server_name = txt "box";
  user_id = txt "usr_1";
  user_name = txt "ann";
  project = none;
  invite_token = txt "token";
  expires_at = 2000;
}

-- writes the user's name alone, and reads this payload
abbrev mail : Crates
mail = record toy { invite_to_json = λ p. p.user_name; invite_from_json = λ json. some a_payload }

parse-encode_example : parse mail (encode mail a_payload) ≡ ok a_payload
unfolding txt is_whitespace
parse-encode_example = parse-encode mail a_payload (λ bytes. refl) refl (refl, (refl, (refl, tt)))

parse_status_iff_example : (parse_status (txt "ready") ≡ some ready) ↔ (txt "ready" ≡ as_str ready)
parse_status_iff_example = parse_status_iff (txt "ready") ready
