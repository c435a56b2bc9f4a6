-- ===== src/Manifest/Validate/Cycle/References.antt =====
-- The edges of the search are the references between variables that the manifest makes.
use railyard.Base.{
  ◌≡◌, refl, sym, ap, ◌∙◌, ◌++◌, ◌⊎◌, ◌↔◌, inl, inr, true, Bool-cases, Text, text_eq, text_eq_iff,
  unwrap_or, get, contains_key, get-insert_same, get-insert_other, List, [], ◌∷◌, In,
  In-append_left, In-append_right, In-append_cases, Result, ok, err,
}
use mathlib.Core.Path.{subst, subst⁻¹}
use railyard.Manifest.Model.{Service, RailyardManifest}
use railyard.Manifest.Reference.{
  Reference, service_host, service_port, service_url, service_env, secret, parse_references,
}
use railyard.Manifest.Validate.Cycle.{
  Edges, targets, push, for_each, push_reference, push_parsed, push_value, push_service, edges_of,
}
use railyard.Manifest.Validate.Cycle.Walks.{Edge}

-- A variable of the service `a` refers to a variable of `b`, a service of the manifest.
pub record Refers (m : RailyardManifest) (a b : Text) : Type 0 where
  pub service : Service
  pub stands : In (a, service) m.services
  pub variable : Text × Text
  pub of_env : In variable service.env
  pub references : List Reference
  pub parses : parse_references variable.1 ≡ ok references
  pub key : Text
  pub refers : In (service_env b key) references
  pub known : contains_key b m.services ≡ true

-- a change that adds exactly the edges of `S`
abbrev Adds : (Edges → Edges) → (Text → Text → Type 0) → Type 0
Adds change S = (edges : Edges) (a b : Text) → Edge (change edges) a b ↔ (Edge edges a b ⊎ S a b)

push-Adds : (name target : Text) → Adds (push name target) (λ a b. (a ≡ name) × (b ≡ target))
unfolding push targets
push-Adds name target edges a b = elim (Bool-cases (text_eq name a)) [
  | inl e ↦
      let same = (text_eq_iff name a).0 e in
      let now : targets (push name target edges) a ≡ targets edges a ++ target ∷ [] =
        ap (unwrap_or []) (get-insert_same name a (targets edges name ++ target ∷ []) edges e)
        ∙ ap (λ n. targets edges n ++ target ∷ []) same in
      (
        λ h. elim (In-append_cases b (targets edges a) (target ∷ []) (subst (In b) now h)) [
          | inl l ↦ inl l
          | inr (inl f) ↦ inr (sym same, f)
          | inr (inr f) ↦ absurd f
        ],
        λ h. subst⁻¹ (In b) now (elim h [
          | inl l ↦ In-append_left b (targets edges a) (target ∷ []) l
          | inr (_, f) ↦ In-append_right b (targets edges a) (target ∷ []) (inl f)
        ]),
      )
  | inr e ↦
      let now : targets (push name target edges) a ≡ targets edges a =
        ap (unwrap_or []) (get-insert_other name a (targets edges name ++ target ∷ []) edges e) in
      (
        λ h. inl (subst (In b) now h),
        λ h.
            subst⁻¹ (In b) now
              (elim h [ inl l ↦ l | inr (f, _) ↦ cc (e, (text_eq_iff name a).1 (sym f)) ]),
      )
]

for_each-Adds :
    {A : Type 0} (change : A → Edges → Edges) (S : A → Text → Text → Type 0)
    → ((x : A) → Adds (change x) (S x))
    → (xs : List A) → Adds (for_each change xs) (λ a b. (x : A) × In x xs × S x a b)
unfolding for_each
for_each-Adds change S one [] edges a b =
    (inl, λ h. elim h [ inl l ↦ l | inr (x, k, _) ↦ absurd k ])
for_each-Adds change S one (x ∷ xs) edges a b =
    let later = for_each-Adds change S one xs (change x edges) a b in
    (
      λ h. elim (later.0 h) [
        | inl l ↦ elim ((one x edges a b).0 l) [
          | inl before ↦ inl before
          | inr s ↦ inr (x, inl refl, s)
        ]
        | inr (y, k, s) ↦ inr (y, inr k, s)
      ],
      λ h. later.1 (elim h [
        | inl l ↦ inl ((one x edges a b).1 (inl l))
        | inr (y, inl e, s) ↦ inl ((one x edges a b).1 (inr (subst (λ z. S z a b) e s)))
        | inr (y, inr k, s) ↦ inr (y, k, s)
      ]),
    )

module _ (services : List (Text × Service)) where
  abbrev ByReference : Text → Reference → Text → Text → Type 0
  ByReference name r a b =
      (a ≡ name) × (key : Text) × (r ≡ service_env b key) × (contains_key b services ≡ true)

  nothing-Adds :
      (name : Text) (r : Reference)
      → ((b key : Text) → r ≡ service_env b key → ⊥)
      → Adds (λ edges. edges) (ByReference name r)
  nothing-Adds name r no_env edges a b =
      (inl, λ h. elim h [ inl l ↦ l | inr (_, key, e, _) ↦ absurd (no_env b key e) ])

  env-Adds :
      (name target key : Text)
      → Adds
          (push_reference services name (service_env target key))
          (ByReference name (service_env target key))
  unfolding push_reference
  env-Adds name target key edges a b = elim (Bool-cases (contains_key target services)) [
    | inl known ↦
        let pushed = push-Adds name target edges a b in
        rw known (
          λ h. elim (pushed.0 h) [
            | inl l ↦ inl l
            | inr (f, g) ↦ inr (
              f,
              key,
              ap (λ t. service_env t key) (sym g),
              ap (λ t. contains_key t services) g ∙ known,
            )
          ],
          λ h. pushed.1 (elim h [ inl l ↦ inl l | inr (f, _, g, _) ↦ inr (f, cc) ]),
        )
    | inr unknown ↦ rw unknown (
      inl,
      λ h. elim h [
        | inl l ↦ l
        | inr (_, _, g, known) ↦
            let same : target ≡ b = cc in
            cc (unknown, known, ap (λ t. contains_key t services) same)
      ],
    )
  ]

  push_reference-Adds :
      (name : Text) (r : Reference) → Adds (push_reference services name r) (ByReference name r)
  unfolding push_reference
  push_reference-Adds name (service_host n) = nothing-Adds name (service_host n) (λ b key e. cc)
  push_reference-Adds name (service_port n) = nothing-Adds name (service_port n) (λ b key e. cc)
  push_reference-Adds name (service_url n) = nothing-Adds name (service_url n) (λ b key e. cc)
  push_reference-Adds name (secret n) = nothing-Adds name (secret n) (λ b key e. cc)
  push_reference-Adds name (service_env target key) = env-Adds name target key

  abbrev ByValue : Text → Text × Text → Text → Text → Type 0
  ByValue name variable a b =
      (references : List Reference) × (parse_references variable.1 ≡ ok references)
      × (r : Reference) × In r references
      × ByReference name r a b

  push_parsed-Adds :
      (name : Text) (parsed : Result (List Reference))
      → Adds (push_parsed services name parsed) (λ a b.
        (references : List Reference) × (parsed ≡ ok references)
        × (r : Reference) × In r references
        × ByReference name r a b)
  unfolding push_parsed
  push_parsed-Adds name (err e) edges a b =
      (inl, λ h. elim h [ inl l ↦ l | inr (_, f, _, _, _) ↦ cc ])
  push_parsed-Adds name (ok rs) edges a b =
      let all =
        for_each-Adds (push_reference services name) (ByReference name) (push_reference-Adds name)
          rs edges a b in
      (
        λ h. elim (all.0 h) [ inl l ↦ inl l | inr (r, k, s) ↦ inr (rs, refl, r, k, s) ],
        λ h. all.1 (elim h [
          | inl l ↦ inl l
          | inr (rs', f, r, k, s) ↦ let same : rs' ≡ rs = cc in inr (r, subst (In r) same k, s)
        ]),
      )

  abbrev ByService : Text × Service → Text → Text → Type 0
  ByService entry a b =
      (variable : Text × Text) × In variable entry.1.env × ByValue entry.0 variable a b

  push_service-Adds :
      (entry : Text × Service) → Adds (push_service services entry) (ByService entry)
  unfolding push_service push_value
  push_service-Adds (name, s) =
      for_each-Adds (push_value services name) (ByValue name)
        (λ variable. push_parsed-Adds name (parse_references variable.1)) s.env

module _ (m : RailyardManifest) (a b : Text) where
  Edge-Refers : Edge (edges_of m) a b → Refers m a b
  unfolding edges_of targets get
  Edge-Refers h =
      elim ((for_each-Adds (push_service m.services) (ByService m.services)
          (push_service-Adds m.services) m.services [] a b).0
        h) [
          | inl l ↦ absurd l
          | inr ((name, s), stands, found) ↦
              let (variable, of_env, value) = found in
              let (rs, parses, r, refers, reference) = value in
              let (same, key, is_env, known) = reference in
              record {
                service = s;
                stands = subst⁻¹ (λ n. In (n, s) m.services) same stands;
                variable = variable;
                of_env = of_env;
                references = rs;
                parses = parses;
                key = key;
                refers = subst (λ x. In x rs) is_env refers;
                known = known;
              }
        ]

  Refers-Edge : Refers m a b → Edge (edges_of m) a b
  unfolding edges_of
  Refers-Edge r =
      (for_each-Adds (push_service m.services) (ByService m.services) (push_service-Adds m.services)
          m.services [] a b).1
        (inr (
          (a, r.service),
          r.stands,
          (
            r.variable,
            r.of_env,
            (r.references, r.parses, service_env b r.key, r.refers, (refl, r.key, refl, r.known)),
          ),
        ))

  -- The edges are exactly the references from a service's variables to those of another.
  pub Edge-iff_Refers : Edge (edges_of m) a b ↔ Refers m a b
  Edge-iff_Refers = (Edge-Refers, Refers-Edge)
