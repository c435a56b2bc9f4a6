-- ===== src/Manifest/Validate/Cycle/Descent.antt =====
-- One call of `visit`, by induction on the fuel.
use railyard.Base.{
  ℕ, zero, suc, ◌≡◌, refl, sym, ap, ◌∙◌, ◌++◌, false, Bool-cases, text_eq, text_eq_iff,
  text_eq_refl, get, insert, get-insert_same, get-insert_other, Text, Option, none, some, List, [],
  ◌∷◌, In, In-append_left, In-append_right, In-append_cases, All, All-In, inl, inr, arith,
}
use mathlib.Core.Path.{subst, subst⁻¹}
use railyard.Manifest.Validate.Cycle.{
  Edges, targets, VisitState, visiting, done, Search, Visit, pop, enter, leave, by_state, visit,
}
use railyard.Manifest.Validate.Cycle.Walks.{
  Edge, IsWalk, IsCycle, Ends, ends, IsWalk-snoc, cycle_at-IsCycle,
}
use railyard.Manifest.Validate.Cycle.Visits.{
  fresh-insert-le, fresh-insert-lt, pop-append, Inv, Kept, Meets, IsDone, VisitMeets, Kept-refl,
  visit_all-Meets,
}

module _ (edges : Edges) (names : List Text) where
  Inv-enter : (node : Text) (s : Search) → Inv edges names s → Inv edges names (enter node s)
  Inv-enter node s inv = record {
    ended = λ n e. elim (Bool-cases (text_eq node n)) [
      | inl same ↦ cc (e, get-insert_same node n visiting s.states same)
      | inr other ↦ inv.ended n (sym (get-insert_other node n visiting s.states other) ∙ e)
    ];
    stacked = λ n e. elim (Bool-cases (text_eq node n)) [
      | inl same ↦ In-append_right n s.stack (node ∷ []) (inl (sym ((text_eq_iff node n).0 same)))
      | inr other ↦
          In-append_left n s.stack (node ∷ [])
            (inv.stacked n (sym (get-insert_other node n visiting s.states other) ∙ e))
    ];
  }

  -- the node is done: each of its targets is
  module _ (node : Text) (s s' : Search) where
    abbrev left : Search
    left = record { states = insert node done s'.states; stack = pop s'.stack }

    Inv-leave :
        get node s.states ≡ none
        → Inv edges names s
        → Kept edges names (enter node s) s'
        → All (λ n. IsDone edges names n s') (targets edges node)
        → Inv edges names left
    Inv-leave new inv k all = record {
      ended = λ n e. elim (Bool-cases (text_eq node n)) [
        | inl same ↦ subst (Ends edges) ((text_eq_iff node n).0 same) (
            ends (λ b h.
              k.inv.ended b (All-In (λ n. IsDone edges names n s') b (targets edges node) all h)))
        | inr other ↦ k.inv.ended n (sym (get-insert_other node n done s'.states other) ∙ e)
      ];
      stacked = λ n e. elim (Bool-cases (text_eq node n)) [
        | inl same ↦ cc (e, get-insert_same node n done s'.states same)
        | inr other ↦
            let h = k.inv.stacked n (sym (get-insert_other node n done s'.states other) ∙ e) in
            subst⁻¹ (In n) (ap pop k.same_stack ∙ pop-append s.stack node)
              (below n other (subst (In n) k.same_stack h))
      ];
    }
      where
        below : (n : Text) → text_eq node n ≡ false → In n (s.stack ++ node ∷ []) → In n s.stack
        below n other h = elim (In-append_cases n s.stack (node ∷ []) h) [
          | inl l ↦ l
          | inr (inl e) ↦ cc (other, (text_eq_iff node n).1 (sym e))
          | inr (inr e) ↦ absurd e
        ]

  module _ (fuel : ℕ) (node : Text) (s : Search) where
    -- what a visit of a node without a state comes to
    leave-Meets :
        (r : Visit)
        → get node s.states ≡ none
        → In node names
        → Inv edges names s
        → Meets edges names
            (enter node s)
            (λ s'. All (λ n. IsDone edges names n s') (targets edges node))
            r
        → Meets edges names s (IsDone edges names node) (leave node r)
    unfolding leave
    leave-Meets (some c, s') new named inv m = record { found = m.found; kept = λ e. cc }
    leave-Meets (none, s') new named inv m =
        let (k, all) = m.kept refl in
        record {
          found = λ c e. cc;
          kept = λ _. (
            record {
              same_stack = ap pop k.same_stack ∙ pop-append s.stack node;
              inv = Inv-leave node s s' new inv k all;
              stays = λ n e. elim (Bool-cases (text_eq node n)) [
                | inl same ↦ get-insert_same node n done s'.states same
                | inr other ↦
                    get-insert_other node n done s'.states other
                    ∙ k.stays n (get-insert_other node n visiting s.states other ∙ e)
              ];
              less = omega (
                arith,
                k.less,
                fresh-insert-le node done s'.states names,
                fresh-insert-le node visiting s.states names,
              );
            },
            get-insert_same node node done s'.states (text_eq_refl node),
          );
        }

    by_state-Meets :
        (rest : Search → Visit) (state : Option VisitState)
        → get node s.states ≡ state
        → In node names
        → IsWalk edges (s.stack ++ node ∷ [])
        → Inv edges names s
        → (get node s.states ≡ none → Meets edges names s (IsDone edges names node) (rest s))
        → Meets edges names s (IsDone edges names node) (by_state node rest state s)
    unfolding by_state
    by_state-Meets rest (some done) e named walk inv next = record {
      found = λ c f. cc;
      kept = λ _. (Kept-refl edges names s inv, e);
    }
    by_state-Meets rest (some visiting) e named walk inv next = record {
      found = λ c f.
          subst (IsCycle edges) (cc f)
            (cycle_at-IsCycle edges s.stack node (inv.stacked node e) walk);
      kept = λ f. cc;
    }
    by_state-Meets rest none e named walk inv next = next e

  -- With more fuel than nodes without a state, a visit finds a cycle, or leaves the node done.
  pub visit-Meets :
      ((a b : Text) → Edge edges a b → In b names)
      → (fuel : ℕ) → VisitMeets edges names fuel (visit edges fuel)
  unfolding visit
  visit-Meets inside zero node s named walk less inv = absurd (omega arith)
  visit-Meets inside (suc fuel) node s named walk less inv =
      by_state-Meets fuel node s _ (get node s.states) refl named walk inv λ new.
        leave-Meets fuel node s _ new named inv (
          visit_all-Meets edges names fuel (visit edges fuel) (visit-Meets inside fuel)
            (targets edges node) (enter node s) (λ n h. inside node n h)
            (λ n h. IsWalk-snoc edges s.stack node n walk h)
            (omega (arith, fresh-insert-lt node visiting s.states names named new))
            (Inv-enter node s inv))
