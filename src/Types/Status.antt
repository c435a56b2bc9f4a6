-- ===== src/Types/Status.antt =====
-- The texts of ReleaseStatus.
use railyard.Base.{◌≡◌, ◌↔◌, refl, Text, txt, text_eq, text_eq_iff, some, ap, ◌∙◌, arith}
use railyard.Types.{ReleaseStatus, unpacking, ready, failed, as_str, parse_status}

parse_status-eq-some :
    (value : Text) (status : ReleaseStatus)
    → parse_status value ≡ some status
    → value ≡ as_str status
unfolding parse_status as_str
parse_status-eq-some value status e = ground (
  arith,
  text_eq_iff value (txt "unpacking"),
  text_eq_iff value (txt "ready"),
  text_eq_iff value (txt "failed"),
)

parse_status-as_str : (status : ReleaseStatus) → parse_status (as_str status) ≡ some status
unfolding parse_status as_str text_eq txt
parse_status-as_str unpacking = refl
parse_status-as_str ready = refl
parse_status-as_str failed = refl

-- A status is read from its own text and from no other.
pub parse_status_iff :
    (value : Text) (status : ReleaseStatus)
    → (parse_status value ≡ some status) ↔ (value ≡ as_str status)
parse_status_iff value status =
    (parse_status-eq-some value status, λ e. ap parse_status e ∙ parse_status-as_str status)
