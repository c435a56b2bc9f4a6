-- ===== src/Manifest/Validate/Cycle/Walks.antt =====
-- Walks and cycles of a graph given by the targets of its nodes.
use railyard.Base.{
  ◌≡◌, sym, ap, ◌++◌, Text, List, [], ◌∷◌, In, text_eq, text_eq_iff, unwrap_or, some, false,
  Bool-cases, inl, inr,
}
use railyard.Manifest.Validate.Cycle.{Edges, targets, from_first, cycle_at}
use mathlib.Core.Path.{subst, subst⁻¹}

abbrev pub Edge : Edges → Text → Text → Type 0
Edge edges a b = In b (targets edges a)

-- each node of the list has an edge to the next
abbrev pub IsWalk : Edges → List Text → Type 0
IsWalk edges [] = Unit
IsWalk edges (a ∷ []) = Unit
IsWalk edges (a ∷ b ∷ rest) = Edge edges a b × IsWalk edges (b ∷ rest)

-- a walk of one edge at least
pub data Leads (edges : Edges) : Text → Text → Type 0 where
  edge : {a b : Text} → Edge edges a b → Leads edges a b
  step : {a m b : Text} → Edge edges a m → Leads edges m b → Leads edges a b

-- A walk that returns to its first node.
pub record IsCycle (edges : Edges) (cycle : List Text) : Type 0 where
  pub start : Text
  pub between : List Text
  pub closed : cycle ≡ start ∷ (between ++ start ∷ [])
  pub walk : IsWalk edges cycle

-- no walk from the node goes on for ever
pub data Ends (edges : Edges) : Text → Type 0 where
  ends : {a : Text} → ((b : Text) → Edge edges a b → Ends edges b) → Ends edges a

module _ (edges : Edges) where
  Leads-snoc : {a b c : Text} → Leads edges a b → Edge edges b c → Leads edges a c
  Leads-snoc (edge e) f = step e (edge f)
  Leads-snoc (step e l) f = step e (Leads-snoc l f)

  -- a node from which every walk ends lies on no cycle
  pub Ends-no_cycle : (a : Text) → Ends edges a → Leads edges a a → ⊥
  Ends-no_cycle a (ends h) (edge e) = Ends-no_cycle a (h a e) (edge e)
  Ends-no_cycle a (ends h) (step {m = m} e l) = Ends-no_cycle m (h m e) (Leads-snoc l e)

  -- a walk goes on by an edge from its last node
  pub IsWalk-snoc :
      (stack : List Text) (a b : Text)
      → IsWalk edges (stack ++ a ∷ [])
      → Edge edges a b
      → IsWalk edges ((stack ++ a ∷ []) ++ b ∷ [])
  IsWalk-snoc [] a b w e = (e, tt)
  IsWalk-snoc (x ∷ []) a b (f, w) e = (f, (e, tt))
  IsWalk-snoc (x ∷ y ∷ stack) a b (f, w) e = (f, IsWalk-snoc (y ∷ stack) a b w e)

  tail-IsWalk : (x : Text) (rest : List Text) → IsWalk edges (x ∷ rest) → IsWalk edges rest
  tail-IsWalk x [] w = tt
  tail-IsWalk x (y ∷ rest) (e, w) = w

  In-behind :
      (x node : Text) (stack : List Text)
      → text_eq x node ≡ false
      → In node (x ∷ stack)
      → In node stack
  In-behind x node stack e (inl same) = cc (e, (text_eq_iff x node).1 (sym same))
  In-behind x node stack e (inr h) = h

  from_first-In :
      (stack : List Text) (node : Text)
      → In node stack
      → IsWalk edges (stack ++ node ∷ [])
      → (rest : List Text) × (from_first node stack ≡ some (node ∷ rest))
        × IsWalk edges (node ∷ (rest ++ node ∷ []))
  unfolding from_first
  from_first-In [] node h w = absurd h
  from_first-In (x ∷ stack) node h w = elim (Bool-cases (text_eq x node)) [
    | inl e ↦
        let same = (text_eq_iff x node).0 e in
        (
          stack,
          rw e (ap (λ y. some (y ∷ stack)) same),
          subst (λ y. IsWalk edges (y ∷ (stack ++ node ∷ []))) same w,
        )
    | inr e ↦
        let (rest, found, walk) =
          from_first-In stack node (In-behind x node stack e h) (tail-IsWalk x _ w) in
        (rest, rw e found, walk)
  ]

  -- From a node of the stack on, the walk of the stack back to the node is a cycle.
  pub cycle_at-IsCycle :
      (stack : List Text) (node : Text)
      → In node stack
      → IsWalk edges (stack ++ node ∷ [])
      → IsCycle edges (cycle_at node stack)
  unfolding cycle_at
  cycle_at-IsCycle stack node h w =
      let (rest, found, walk) = from_first-In stack node h w in
      let same : cycle_at node stack ≡ node ∷ (rest ++ node ∷ []) =
        ap (λ o. unwrap_or stack o ++ node ∷ []) found in
      record {
        start = node;
        between = rest;
        closed = same;
        walk = subst⁻¹ (IsWalk edges) same walk;
      }
