-- ===== src/Manifest/Validate/Cycle/Visits.antt =====
-- What the search keeps: the stack is a walk, a visited node lies on it, and from a node that is done
-- every walk ends.
use railyard.Base.{
  ℕ, suc, ◌≤◌, ◌<◌, ◌≡◌, refl, ap, ◌∙◌, ◌++◌, text_eq_iff, get, contains_key, insert, get-insert,
  Text, none, some, List, [], ◌∷◌, In, All, inl, inr, arith, if◌then◌else◌,
}
use mathlib.Core.Path.{subst⁻¹}
use railyard.Manifest.Validate.Cycle.{
  Edges, VisitState, visiting, done, Search, Visit, pop, go_on, visit_all,
}
use railyard.Manifest.Validate.Cycle.Walks.{IsWalk, IsCycle, Ends}

abbrev pub States : Type 0
States = List (Text × VisitState)

-- how many of the names have no state
unfoldable pub fresh : List Text → States → ℕ
fresh [] states = 0
fresh (n ∷ names) states =
    let rest = fresh names states in if contains_key n states then rest else suc rest

module _ (k : Text) (v : VisitState) (states : States) where
  pub fresh-insert-le : (names : List Text) → fresh names (insert k v states) ≤ fresh names states
  unfolding fresh
  fresh-insert-le [] = omega arith
  fresh-insert-le (n ∷ names) = ground (arith, get-insert k n v states, fresh-insert-le names)

  pub fresh-insert-lt :
      (names : List Text)
      → In k names
      → get k states ≡ none
      → fresh names (insert k v states) < fresh names states
  unfolding fresh
  fresh-insert-lt [] h e = absurd h
  fresh-insert-lt (n ∷ names) (inl same) e = ground (
    arith,
    same,
    (text_eq_iff k n).1 same,
    get-insert k n v states,
    fresh-insert-le names,
    ap (λ m. get m states) same,
  )
  fresh-insert-lt (n ∷ names) (inr h) e =
      ground (arith, get-insert k n v states, fresh-insert-lt names h e)

pub pop-append : (stack : List Text) (node : Text) → pop (stack ++ node ∷ []) ≡ stack
unfolding pop
pop-append [] node = refl
pop-append (x ∷ []) node = refl
pop-append (x ∷ y ∷ stack) node = ap (λ r. x ∷ r) (pop-append (y ∷ stack) node)

module _ (edges : Edges) (names : List Text) where
  pub record Inv (s : Search) : Type 0 where
    pub ended : (n : Text) → get n s.states ≡ some done → Ends edges n
    pub stacked : (n : Text) → get n s.states ≡ some visiting → In n s.stack

  -- what a call that finds no cycle keeps
  pub record Kept (s s' : Search) : Type 0 where
    pub same_stack : s'.stack ≡ s.stack
    pub inv : Inv s'
    pub stays : (n : Text) → get n s.states ≡ some done → get n s'.states ≡ some done
    pub less : fresh names s'.states ≤ fresh names s.states

  -- A call from `s` finds a cycle, or keeps all of this and establishes `Q`.
  pub record Meets (s : Search) (Q : Search → Type 0) (r : Visit) : Type 0 where
    pub found : (c : List Text) → r.0 ≡ some c → IsCycle edges c
    pub kept : r.0 ≡ none → Kept s r.1 × Q r.1

  abbrev pub IsDone : Text → Search → Type 0
  IsDone n s = get n s.states ≡ some done

  abbrev pub VisitMeets : ℕ → (Text → Search → Visit) → Type 0
  VisitMeets fuel visit_one =
      (node : Text) (s : Search)
      → In node names
      → IsWalk edges (s.stack ++ node ∷ [])
      → fresh names s.states < fuel
      → Inv s
      → Meets s (IsDone node) (visit_one node s)

  pub Kept-refl : (s : Search) → Inv s → Kept s s
  Kept-refl s inv = record { same_stack = refl; inv = inv; stays = λ n e. e; less = omega arith }

  pub Kept-trans : {s s' s'' : Search} → Kept s s' → Kept s' s'' → Kept s s''
  Kept-trans k l = record {
    same_stack = l.same_stack ∙ k.same_stack;
    inv = l.inv;
    stays = λ n e. l.stays n (k.stays n e);
    less = omega (arith, k.less, l.less);
  }

  module _ (fuel : ℕ) (visit_one : Text → Search → Visit) (one : VisitMeets fuel visit_one) where
    abbrev AllMeet : List Text → Type 0
    AllMeet nodes =
        (s : Search)
        → ((n : Text) → In n nodes → In n names)
        → ((n : Text) → In n nodes → IsWalk edges (s.stack ++ n ∷ []))
        → fresh names s.states < fuel
        → Inv s
        → Meets s (λ s'. All (λ n. IsDone n s') nodes) (visit_all visit_one nodes s)

    rest-Meets :
        (node : Text) (nodes : List Text) (s : Search) (r : Visit)
        → AllMeet nodes
        → ((n : Text) → In n nodes → In n names)
        → ((n : Text) → In n nodes → IsWalk edges (s.stack ++ n ∷ []))
        → fresh names s.states < fuel
        → Meets s (IsDone node) r
        → Meets s
            (λ s'. All (λ n. IsDone n s') (node ∷ nodes))
            (go_on r (visit_all visit_one nodes))
    rest-Meets node nodes s (some c, s') ih named walks less m = record {
      found = m.found;
      kept = λ e. cc;
    }
    rest-Meets node nodes s (none, s') ih named walks less m =
        let (k, is_done) = m.kept refl in
        let later =
          ih s' named (λ n h. subst⁻¹ (λ st. IsWalk edges (st ++ n ∷ [])) k.same_stack (walks n h))
            (omega (arith, k.less)) k.inv in
        record {
          found = later.found;
          kept =
              λ e. let (k', all) = later.kept e in (Kept-trans k k', (k'.stays node is_done, all));
        }

    pub visit_all-Meets : (nodes : List Text) → AllMeet nodes
    unfolding visit_all
    visit_all-Meets [] s named walks less inv = record {
      found = λ c e. cc;
      kept = λ e. (Kept-refl s inv, tt);
    }
    visit_all-Meets (node ∷ nodes) s named walks less inv =
        rest-Meets node nodes s (visit_one node s) (visit_all-Meets nodes) (λ n h. named n (inr h))
          (λ n h. walks n (inr h)) less
          (one node s (named node (inl refl)) (walks node (inl refl)) less inv)
