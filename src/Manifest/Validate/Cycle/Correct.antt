-- ===== src/Manifest/Validate/Cycle/Correct.antt =====
-- The search finds a cycle of references exactly if the manifest has one.
use railyard.Base.{
  suc, ◌≤◌, ◌≡◌, refl, ap, keys, length, unwrap_or, get, contains_key, Text, Option, none, some,
  List, [], ◌∷◌, In, In-keys, In-keys-insert, length-keys, Result, ok, err, is_some, Bool-cases,
  inl, inr, ◌↔◌, ◌++◌, false, All, All-In, arith,
}
use mathlib.Core.Path.{subst⁻¹}
use railyard.Manifest.Model.{Service, RailyardManifest}
use railyard.Manifest.Reference.{
  Reference, service_host, service_port, service_url, service_env, secret, parse_references,
}
use railyard.Manifest.Validate.Cycle.{
  Edges, targets, push, for_each, push_reference, push_parsed, push_value, push_service, Visit,
  visit, visit_all, edges_of, find_env_reference_cycle, unvisited,
}
use railyard.Manifest.Validate.Cycle.Walks.{Edge, Leads, edge, step, IsWalk, Ends-no_cycle}
use railyard.Manifest.Validate.Cycle.Visits.{fresh, Meets, IsDone, visit_all-Meets}
use railyard.Manifest.Validate.Cycle.Descent.{visit-Meets}
use railyard.Manifest.Validate.Cycle.References.{Refers, Edge-iff_Refers}

fresh-le : (names : List Text) → fresh names [] ≤ length names
unfolding fresh get
fresh-le [] = omega arith
fresh-le (n ∷ names) = omega (arith, fresh-le names)

key_of : (edges : Edges) (a b : Text) → Edge edges a b → In a (keys edges)
unfolding targets
key_of edges a b h = elim (Bool-cases (contains_key a edges)) [
  | inl e ↦ In-keys a edges e
  | inr e ↦ absurd (go (get a edges) e h)
]
  where
    go : (o : Option (List Text)) → is_some o ≡ false → In b (unwrap_or [] o) → ⊥
    go none e k = k
    go (some _) e k = cc

-- A walk along references, of one reference at least.
pub data RefersOn (m : RailyardManifest) : Text → Text → Type 0 where
  refers : {a b : Text} → Refers m a b → RefersOn m a b
  on : {a s b : Text} → Refers m a s → RefersOn m s b → RefersOn m a b

-- Each service of the list refers to the next.
abbrev pub AreReferences : RailyardManifest → List Text → Type 0
AreReferences m [] = Unit
AreReferences m (a ∷ []) = Unit
AreReferences m (a ∷ b ∷ rest) = Refers m a b × AreReferences m (b ∷ rest)

-- A chain of references that ends where it starts.
pub record IsReferenceCycle (m : RailyardManifest) (cycle : List Text) : Type 0 where
  pub start : Text
  pub between : List Text
  pub closed : cycle ≡ start ∷ (between ++ start ∷ [])
  pub chain : AreReferences m cycle

-- `order` gives the keys of the map, each at least once
abbrev pub IsOrder : (Edges → List Text) → Type 0
IsOrder order = (edges : Edges) (n : Text) → In n (order edges) ↔ In n (keys edges)

module _ (m : RailyardManifest) where
  abbrev Served : Edges → Type 0
  Served edges = (n : Text) → In n (keys edges) → In n (keys m.services)

  walk-AreReferences : (walk : List Text) → IsWalk (edges_of m) walk → AreReferences m walk
  walk-AreReferences [] w = tt
  walk-AreReferences (a ∷ []) w = tt
  walk-AreReferences (a ∷ b ∷ rest) (e, w) =
      ((Edge-iff_Refers m a b).0 e, walk-AreReferences (b ∷ rest) w)

  RefersOn-Leads : {a b : Text} → RefersOn m a b → Leads (edges_of m) a b
  RefersOn-Leads (refers {a} {b} r) = edge ((Edge-iff_Refers m a b).1 r)
  RefersOn-Leads (on {a} {s} r l) = step ((Edge-iff_Refers m a s).1 r) (RefersOn-Leads l)

  first_key : {a b : Text} → Leads (edges_of m) a b → In a (keys (edges_of m))
  first_key (edge {a} {b} e) = key_of (edges_of m) a b e
  first_key (step {a} {m = n} e _) = key_of (edges_of m) a n e

  push_reference-Served :
      (name : Text) (r : Reference) (edges : Edges)
      → In name (keys m.services)
      → Served edges
      → Served (push_reference m.services name r edges)
  unfolding push_reference push
  push_reference-Served name (service_env target key) edges named h =
      elim (Bool-cases (contains_key target m.services)) [
        | inl e ↦ rw e λ n k.
            elim (In-keys-insert n name (targets edges name ++ target ∷ []) edges k) [
              | inl f ↦ subst⁻¹ (λ t. In t (keys m.services)) f named
              | inr l ↦ h n l
            ]
        | inr e ↦ rw e h
      ]
  push_reference-Served name (service_host _) edges named h = h
  push_reference-Served name (service_port _) edges named h = h
  push_reference-Served name (service_url _) edges named h = h
  push_reference-Served name (secret _) edges named h = h

  for_each-Served :
      {A : Type 0} (change : A → Edges → Edges) (xs : List A)
      → ((x : A) → In x xs → (edges : Edges) → Served edges → Served (change x edges))
      → (edges : Edges) → Served edges
      → Served (for_each change xs edges)
  unfolding for_each
  for_each-Served change [] one edges h = h
  for_each-Served change (x ∷ xs) one edges h =
      for_each-Served change xs (λ y k. one y (inr k)) (change x edges) (one x (inl refl) edges h)

  push_parsed-Served :
      (name : Text) (parsed : Result (List Reference)) (edges : Edges)
      → In name (keys m.services)
      → Served edges
      → Served (push_parsed m.services name parsed edges)
  unfolding push_parsed
  push_parsed-Served name (err _) edges named h = h
  push_parsed-Served name (ok rs) edges named h =
      for_each-Served (push_reference m.services name) rs
        (λ r _ edges'. push_reference-Served name r edges' named) edges h

  edges_of-Served : Served (edges_of m)
  unfolding edges_of push_service push_value
  edges_of-Served =
      for_each-Served (push_service m.services) m.services
        (λ entry k edges.
          for_each-Served (push_value m.services entry.0) entry.1.env
            (λ variable _ edges'.
              push_parsed-Served entry.0 (parse_references variable.1) edges'
                (entry-key entry m.services k))
            edges)
        [] (λ n h. absurd h)
    where
      entry-key :
          (entry : Text × Service) (services : List (Text × Service))
          → In entry services
          → In entry.0 (keys services)
      entry-key entry [] h = absurd h
      entry-key entry (e ∷ services) (inl f) = inl (ap (λ x. x.0) f)
      entry-key entry (e ∷ services) (inr k) = inr (entry-key entry services k)

  module _ (order : Edges → List Text) (whole : IsOrder order) where
    abbrev search : Visit
    search = visit_all (visit (edges_of m) (suc (length m.services))) (order (edges_of m)) unvisited

    searched :
        Meets
          (edges_of m)
          (keys m.services)
          unvisited
          (λ s. All (λ n. IsDone (edges_of m) (keys m.services) n s) (order (edges_of m)))
          search
    unfolding get
    searched =
        visit_all-Meets (edges_of m) (keys m.services) (suc (length m.services))
          (visit (edges_of m) (suc (length m.services)))
          (visit-Meets (edges_of m) (keys m.services)
            (λ a b e. In-keys b m.services ((Edge-iff_Refers m a b).0 e).known)
            (suc (length m.services)))
          (order (edges_of m)) unvisited (λ n h. edges_of-Served n ((whole (edges_of m) n).0 h))
          (λ n _. tt) (omega (arith, fresh-le (keys m.services), length-keys m.services))
          (record { ended = λ n e. cc; stacked = λ n e. cc })

    -- Whatever the order in which the hash map gives its keys: a list that is found is a chain of
    -- references that ends where it starts; and where none is found, no service is on such a chain.
    pub find_env_reference_cycle_lem :
        ((c : List Text) → find_env_reference_cycle order m ≡ some c → IsReferenceCycle m c)
        × (find_env_reference_cycle order m ≡ none → (a : Text) → RefersOn m a a → ⊥)
    unfolding find_env_reference_cycle
    find_env_reference_cycle_lem = (
      λ c e.
          let w = searched.found c e in
          record {
            start = w.start;
            between = w.between;
            closed = w.closed;
            chain = walk-AreReferences c w.walk;
          },
      λ e a r.
          let l = RefersOn-Leads r in
          let (kept, all) = searched.kept e in
          Ends-no_cycle (edges_of m) a
            (kept.inv.ended a (
              All-In (λ n. IsDone (edges_of m) (keys m.services) n search.1) a (order (edges_of m))
                all ((whole (edges_of m) a).1 (first_key l))))
            l,
    )
