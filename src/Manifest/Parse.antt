-- ===== src/Manifest/Parse.antt =====
-- The entry points of packages/manifest/src/lib.rs: a text as a manifest that is valid, and back.
use railyard.Base.{
  ◌≡◌, refl, ◌⊎◌, inl, inr, Bool-cases, ◌++◌, map, join, Text, txt, text_eq, List, [], ◌∷◌, Result,
  ok, err, if◌then◌else◌,
}
use mathlib.Core.Path.{subst}
use railyard.Base.Results
use railyard.Base.Results.{◌>>=◌}
use railyard.Manifest.Model.{RailyardManifest}
use railyard.Manifest.Validate.Names.{ValidationError}
use railyard.Manifest.Validate.Cycle.{Edges}
use railyard.Manifest.Validate.Cycle.Correct.{IsOrder}
use railyard.Manifest.Validate.Whole.{validate, IsSoundManifest, validate-IsSoundManifest}

pub data Deserialized : Type 0 where
  fits : RailyardManifest → Deserialized
  misfit : (path message : Text) → Deserialized

-- serde_json, json5 and serde_path_to_error; a JSON value stands as the text that it prints. `order`
-- gives the keys of a hash map in the order in which it is iterated.
pub record Formats : Type 0 where
  pub json_from : Text → Result Text
  pub json5_from : Text → Result Text
  pub deserialize : Text → Deserialized
  pub to_string_pretty : RailyardManifest → Text
  pub order : Edges → List Text

-- `Display` of an error
abbrev pub shown : ValidationError → Text
shown error = error.path ++ txt ": " ++ error.message

module _ (formats : Formats) where
  -- the manifest, if there are no errors
  unfoldable pub unless_errors : RailyardManifest → List ValidationError → Result RailyardManifest
  unfolding join
  unless_errors m [] = ok m
  unless_errors m (error ∷ errors) = err (join (txt "\n") (map shown (error ∷ errors)))

  unfoldable pub validated : Deserialized → Result RailyardManifest
  unfolding unless_errors validate
  validated (misfit path message) =
      if text_eq path (txt ".") then err message else err (path ++ txt ": " ++ message)
  validated (fits m) = unless_errors m (validate formats.order m)

  unfoldable pub parse_value : Text → Result RailyardManifest
  unfolding validated
  parse_value raw = validated (formats.deserialize raw)

  abbrev pub invalid_json : Result Text → Result Text
  invalid_json (ok raw) = ok raw
  invalid_json (err why) = err (txt "invalid JSON: " ++ why)

  unfoldable pub parse : Text → Result RailyardManifest
  unfolding parse_value
  parse input = invalid_json (formats.json_from input) >>= parse_value

  unfoldable pub parse_relaxed : Text → Result RailyardManifest
  unfolding parse_value
  parse_relaxed input = invalid_json (formats.json5_from input) >>= parse_value

  unfoldable pub to_json_string : RailyardManifest → Text
  to_json_string m = formats.to_string_pretty m ++ txt "\n"

  module _ (whole : IsOrder formats.order) where
    unless_errors-eq-ok :
        (m m' : RailyardManifest) (errors : List ValidationError)
        → unless_errors m errors ≡ ok m'
        → (errors ≡ []) × (m ≡ m')
    unfolding unless_errors
    unless_errors-eq-ok m m' [] h = (refl, cc)
    unless_errors-eq-ok m m' (_ ∷ _) h = cc

    validated-IsSoundManifest :
        (d : Deserialized) (m : RailyardManifest) → validated d ≡ ok m → IsSoundManifest m
    unfolding validated
    validated-IsSoundManifest (misfit path message) m h =
        elim (Bool-cases (text_eq path (txt "."))) [
          | inl e ↦ let h' : err message ≡ ok m = rw e at h in cc
          | inr e ↦ let h' : err (path ++ txt ": " ++ message) ≡ ok m = rw e at h in cc
        ]
    validated-IsSoundManifest (fits m') m h =
        let (clean, same) = unless_errors-eq-ok m' m (validate formats.order m') h in
        validate-IsSoundManifest formats.order whole m
          (subst (λ x. validate formats.order x ≡ []) same clean)

    -- A manifest that either parser returns is sound, whatever the order of the hash map's keys: the
    -- name of its project is valid, each service is sound, and no service is on a chain of references
    -- to environment variables that ends where it starts.
    pub parse-IsSoundManifest :
        (input : Text) (m : RailyardManifest)
        → (parse input ≡ ok m) ⊎ (parse_relaxed input ≡ ok m)
        → IsSoundManifest m
    unfolding parse parse_relaxed parse_value
    parse-IsSoundManifest input m (inl h) =
        let (raw, _, e) =
          Results.>>=-eq-ok (invalid_json (formats.json_from input)) parse_value h in
        validated-IsSoundManifest (formats.deserialize raw) m e
    parse-IsSoundManifest input m (inr h) =
        let (raw, _, e) =
          Results.>>=-eq-ok (invalid_json (formats.json5_from input)) parse_value h in
        validated-IsSoundManifest (formats.deserialize raw) m e
