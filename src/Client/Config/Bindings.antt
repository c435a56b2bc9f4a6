-- ===== src/Client/Config/Bindings.antt =====
-- The bindings of projects as a map: what the operations of config.rs do to it.
use railyard.Base.{
  ℕ, ltb, ◌≡◌, refl, sym, ap, ◌∙◌, Bool, true, false, Bool-cases, is_some, is_some-eq-false, Text,
  text_eq, text_eq_iff, get, get-insert, filter, Option, none, some, inl, inr, List, [], ◌∷◌, ok,
  pure, ◌>>=◌, bind_after, if◌then◌else◌, arith,
}
use mathlib.Core.Option
use mathlib.Core.Path.{subst}
use railyard.Client.Machine.{GlobalConfig, Machine, Act, Outside, reads}
use railyard.Client.Config.{
  read_global_config, write_global_config, read_project_binding, record_project_binding, without,
  remove_project_binding, moved_to, count_bound, rebind_projects,
}
use railyard.Client.Config.Stored.{read_global_config-write_global_config}

get-without :
    (k q : Text) (m : List (Text × Text))
    → get q (without k m) ≡ (if text_eq k q then none else get q m)
unfolding get without filter
get-without k q [] = ground arith
get-without k q ((j, v) ∷ m) =
    ground (arith, text_eq_iff k q, text_eq_iff j k, text_eq_iff j q, get-without k q m)

abbrev pub moved : Text → Text → Text → Text
moved from to server = if text_eq server from then to else server

get-moved_to :
    (from to q : Text) (m : List (Text × Text))
    → get q (moved_to from to m) ≡ Option.map (moved from to) (get q m)
unfolding get moved_to
get-moved_to from to q [] = refl
get-moved_to from to q ((j, v) ∷ m) = elim (Bool-cases (text_eq j q)) [
  | inl e ↦ rw e refl
  | inr e ↦ rw e (get-moved_to from to q m)
]

-- where none is bound to it, moving changes nothing
moved_to-unbound :
    (from to : Text) (m : List (Text × Text)) → count_bound from m ≡ 0 → moved_to from to m ≡ m
unfolding moved_to count_bound
moved_to-unbound from to [] h = refl
moved_to-unbound from to ((j, v) ∷ m) h = elim (Bool-cases (text_eq v from)) [
  | inl e ↦ absurd (ground (arith, e))
  | inr e ↦ rw e (ap (λ r. (j, v) ∷ r) (moved_to-unbound from to m (rw e at h)))
]

-- The bindings seen as a map from projects to servers, and the changes of it.
abbrev pub Bindings : Type 0
Bindings = Text → Option Text

pub data Change : Type 0 where
  record_binding : (project_id server_name : Text) → Change
  remove_binding : (project_id : Text) → Change
  rebind : (from to : Text) → Change

abbrev pub effect : Change → Bindings → Bindings
effect (record_binding project_id server_name) f q =
    if text_eq project_id q then some server_name else f q
effect (remove_binding project_id) f q = if text_eq project_id q then none else f q
effect (rebind from to) f q = Option.map (moved from to) (f q)

abbrev pub effects : List Change → Bindings → Bindings
effects [] f = f
effects (c ∷ changes) f = effects changes (effect c f)

module _ (out : Outside) where
  abbrev pub perform : Change → Act (Unit {0})
  perform (record_binding project_id server_name) =
      record_project_binding out project_id server_name
  perform (remove_binding project_id) = remove_project_binding out project_id >>= λ _. pure tt
  perform (rebind from to) = rebind_projects out from to >>= λ _. pure tt

  abbrev pub perform_all : List Change → Act (Unit {0})
  perform_all [] = pure tt
  perform_all (c ∷ changes) = perform c >>= λ _. perform_all changes

  -- each project is read as bound as the map says
  abbrev pub Represents : Machine → Bindings → Type 0
  Represents m f = (q : Text) → read_project_binding out q m ≡ ok (f q)

  read_project_binding_lem :
      (q : Text) (m : Machine) (config : GlobalConfig)
      → read_global_config out m ≡ ok config
      → read_project_binding out q m ≡ ok (get q config.projects)
  unfolding read_project_binding
  read_project_binding_lem q m config e = rw (e, read_project_binding) refl

  config_of :
      (m : Machine) (f : Bindings) (config : GlobalConfig)
      → Represents m f
      → read_global_config out m ≡ ok config
      → (q : Text) → get q config.projects ≡ f q
  config_of m f config r e q = cc (r q, read_project_binding_lem q m config e)

  module _
      (config_back : (config : GlobalConfig)
        → out.json.config_from (out.json.config_to config) ≡ ok config) where
    written-Represents :
        (config : GlobalConfig) (m : Machine) (f : Bindings) {u : Unit {0}}
        → (write_global_config out config m).0 ≡ ok u
        → ((q : Text) → get q config.projects ≡ f q)
        → Represents (write_global_config out config m).1 f
    written-Represents config m f h same q =
        read_project_binding_lem q _ config
          (read_global_config-write_global_config out config_back config m h)
        ∙ ap ok (same q)

    -- a change that is written only where it changes something
    maybe_written-Represents :
        (b : Bool) (config : GlobalConfig) (m : Machine) (f : Bindings) {u : Unit {0}}
        → ((if b then write_global_config out config else pure tt) m).0 ≡ ok u
        → (b ≡ false → Represents m f)
        → ((q : Text) → get q config.projects ≡ f q)
        → Represents ((if b then write_global_config out config else pure tt) m).1 f
    unfolding pure
    maybe_written-Represents true config m f h unchanged same = written-Represents config m f h same
    maybe_written-Represents false config m f h unchanged same = unchanged refl

    module _ (m : Machine) (f : Bindings) (r : Represents m f) where
      record-Represents :
          (p server : Text) {u : Unit {0}}
          → (record_project_binding out p server m).0 ≡ ok u
          → Represents
              (record_project_binding out p server m).1
              (effect (record_binding p server) f)
      unfolding record_project_binding reads
      record-Represents p server h =
          bind_after (reads (read_global_config out)) _ m
            (λ m'. Represents m' (effect (record_binding p server) f)) h
            λ config m₁ read _ r₁. written-Represents _ m₁ _ r₁ λ q.
              get-insert p q server config.projects
              ∙ ap (λ o. if text_eq p q then some server else o) (config_of m f config r read q)

      removed-same : (p q : Text) → f p ≡ none → f q ≡ effect (remove_binding p) f q
      removed-same p q e = elim (Bool-cases (text_eq p q)) [
        | inl same ↦ rw same (ap f (sym ((text_eq_iff p q).0 same)) ∙ e)
        | inr other ↦ rw other refl
      ]

      remove-Represents :
          (p : Text) {removed : Option Text}
          → (remove_project_binding out p m).0 ≡ ok removed
          → Represents (remove_project_binding out p m).1 (effect (remove_binding p) f)
      unfolding remove_project_binding reads pure
      remove-Represents p h =
          bind_after (reads (read_global_config out)) _ m C h λ config m₁ read same r₁.
            let agree = config_of m f config r read in
            bind_after
              (if is_some (get p config.projects)
                then write_global_config out (record { projects = without p config.projects })
                else pure tt)
              _ m₁ C r₁
              λ _ m₂ w e _. subst C e (
                maybe_written-Represents (is_some (get p config.projects)) _ m₁ _ w
                  (λ unbound q.
                    subst (λ x. read_project_binding out q x ≡ ok (f q)) same (r q)
                    ∙ ap ok (removed-same p q (sym (agree p) ∙ is_some-eq-false _ unbound)))
                  λ q.
                    get-without p q config.projects
                    ∙ ap (λ o. if text_eq p q then none else o) (agree q))
        where
          C : Machine → Type 0
          C m' = Represents m' (effect (remove_binding p) f)

      rebind-Represents :
          (from to : Text) {count : ℕ}
          → (rebind_projects out from to m).0 ≡ ok count
          → Represents (rebind_projects out from to m).1 (effect (rebind from to) f)
      unfolding rebind_projects reads pure
      rebind-Represents from to h =
          bind_after (reads (read_global_config out)) _ m C h λ config m₁ read same r₁.
            let after = λ (q : Text).
              get-moved_to from to q config.projects
              ∙ ap (Option.map (moved from to)) (config_of m f config r read q) in
            bind_after
              (if ltb 0 (count_bound from config.projects)
                then write_global_config out
                    (record { projects = moved_to from to config.projects })
                else pure tt)
              _ m₁ C r₁
              λ _ m₂ w e _. subst C e (
                maybe_written-Represents (ltb 0 (count_bound from config.projects)) _ m₁ _ w
                  (λ none_bound q.
                    subst (λ x. read_project_binding out q x ≡ ok (f q)) same (r q)
                    ∙ ap ok (
                        sym (config_of m f config r read q)
                        ∙ ap (get q) (
                            sym (
                              moved_to-unbound from to config.projects
                                (ground (arith, none_bound))))
                        ∙ after q))
                  after)
        where
          C : Machine → Type 0
          C m' = Represents m' (effect (rebind from to) f)

    perform-Represents :
        (c : Change) (m : Machine) (f : Bindings) {u : Unit {0}}
        → Represents m f
        → (perform c m).0 ≡ ok u
        → Represents (perform c m).1 (effect c f)
    unfolding pure
    perform-Represents (record_binding p server) m f r h = record-Represents m f r p server h
    perform-Represents (remove_binding p) m f r h =
        bind_after (remove_project_binding out p) _ m
          (λ m'. Represents m' (effect (remove_binding p) f)) h
          λ removed m₁ e same _.
            subst (λ m'. Represents m' (effect (remove_binding p) f)) same
              (remove-Represents m f r p e)
    perform-Represents (rebind from to) m f r h =
        bind_after (rebind_projects out from to) _ m
          (λ m'. Represents m' (effect (rebind from to) f)) h
          λ count m₁ e same _.
            subst (λ m'. Represents m' (effect (rebind from to) f)) same
              (rebind-Represents m f r from to e)

    -- Where the stored configuration is read back as it was written: changes of the bindings that
    -- succeed, in any number and order, do to what is read of each project what the same changes do
    -- to a map. Recording binds the one project, removing frees it, and rebinding moves all that are
    -- bound to the one server to the other.
    pub perform_all-Represents :
        (changes : List Change) (m : Machine) (f : Bindings) {u : Unit {0}}
        → Represents m f
        → (perform_all changes m).0 ≡ ok u
        → Represents (perform_all changes m).1 (effects changes f)
    unfolding pure
    perform_all-Represents [] m f r h = r
    perform_all-Represents (c ∷ changes) m f r h =
        bind_after (perform c) _ m (λ m'. Represents m' (effects changes (effect c f))) h
          λ _ m₁ e same rest.
            perform_all-Represents changes m₁ (effect c f)
              (subst (λ m'. Represents m' (effect c f)) same (perform-Represents c m f r e)) rest
