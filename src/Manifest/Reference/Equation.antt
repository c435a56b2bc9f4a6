-- ===== src/Manifest/Reference/Equation.antt =====
-- The loop of `parse_references` ends by its own tests: the fuel is never used up.
use railyard.Base.{
  ℕ, zero, suc, ◌+◌, ◌≤◌, ◌<◌, ◌≡◌, refl, ap, ◌∙◌, Text, txt, strip_prefix, split_once_str, length,
  Option, some, List, [], ◌∷◌, Option-cases, Result, inl, inr, arith,
}
use railyard.Manifest.Reference.{
  Reference, parse_references, parse_loop, parse_round, cons_reference,
}

length-strip_prefix :
    (pat s rest : Text) → strip_prefix pat s ≡ some rest → length rest + length pat ≡ length s
unfolding strip_prefix
length-strip_prefix [] s rest h = grind arith
length-strip_prefix (p ∷ ps) [] rest h = cc
length-strip_prefix (p ∷ ps) (c ∷ s) rest h = grind (arith, length-strip_prefix ps s rest)

abbrev with_before : Text → Text → Option (Text × Text)
with_before a b = some (a, b)

-- what lies behind the first occurrence is shorter by the pattern at least
length-split_once_str :
    (pat s before behind : Text)
    → split_once_str pat s ≡ some (before, behind)
    → length behind + length pat ≤ length s
unfolding split_once_str
length-split_once_str pat [] before behind h = elim (Option-cases (strip_prefix pat [])) [
  | inl e ↦ absurd (cc (rw e at h))
  | inr (rest, e) ↦
      let same : rest ≡ behind = cc (rw e at h) in
      omega (arith, length-strip_prefix pat [] behind (e ∙ ap some same))
]
length-split_once_str pat (c ∷ s) before behind h = elim (Option-cases (strip_prefix pat (c ∷ s))) [
  | inr (rest, e) ↦
      let same : rest ≡ behind = ground (arith, e) in
      omega (arith, length-strip_prefix pat (c ∷ s) behind (e ∙ ap some same))
  | inl e ↦ elim (Option-cases (split_once_str pat s)) [
    | inl later ↦ absurd (ground (arith, e, later))
    | inr ((a, b), later) ↦
        let same : b ≡ behind = ground (arith, e, later) in
        omega (arith, length-split_once_str pat s a behind (later ∙ ap (with_before a) same))
  ]
]

shorter :
    (rest before after_open token behind : Text)
    → split_once_str (txt "${{") rest ≡ some (before, after_open)
    → split_once_str (txt "}}") after_open ≡ some (token, behind)
    → length behind < length rest
unfolding txt
shorter rest before after_open token behind e e' = omega (
  arith,
  length-split_once_str (txt "${{") rest before after_open e,
  length-split_once_str (txt "}}") after_open token behind e',
)

module _ (l k : Text → Result (List Reference)) where
  -- a round looks at the later rounds on shorter texts only
  parse_round_cong :
      (rest : Text)
      → ((t : Text) → length t < length rest → l t ≡ k t)
      → parse_round l rest ≡ parse_round k rest
  unfolding parse_round
  parse_round_cong rest agree = elim (Option-cases (split_once_str (txt "${{") rest)) [
    | inl e ↦ rw (e, parse_round) refl
    | inr ((before, after_open), e) ↦ elim (Option-cases (split_once_str (txt "}}") after_open)) [
      | inl e' ↦ rw (e, parse_round) (rw (e', parse_round) refl)
      | inr ((token, behind), e') ↦
          rw (e, parse_round)
            (rw (e', parse_round)
              (ap (cons_reference _)
                (agree behind (shorter rest before after_open token behind e e'))))
    ]
  ]

parse_loop_fuel :
    (f g : ℕ) (rest : Text)
    → length rest < f
    → length rest < g
    → parse_loop f rest ≡ parse_loop g rest
unfolding parse_loop
parse_loop_fuel zero g rest h k = elim h [ ]
parse_loop_fuel (suc f) zero rest h k = elim k [ ]
parse_loop_fuel (suc f) (suc g) rest h k =
    parse_round_cong (parse_loop f) (parse_loop g) rest
      λ t lt. parse_loop_fuel f g t (omega arith) (omega arith)

-- The loop ends by itself: `parse_references` is one round, with itself for the later rounds. No
-- fuel shows in the equation, so none runs out.
pub parse_references_lem :
    (value : Text) → parse_references value ≡ parse_round parse_references value
unfolding parse_references
parse_references_lem value =
    unfold parse_loop in
    parse_round_cong (parse_loop (length value)) (λ t. parse_loop (suc (length t)) t) value
      λ t lt. parse_loop_fuel (length value) (suc (length t)) t (omega arith) (omega arith)
