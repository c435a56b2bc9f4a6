-- ===== src/Client/Config/Stored.antt =====
-- What is written to a file is read back.
use railyard.Base.{
  ℕ, ◌≡◌, refl, sym, ap, ◌∙◌, Text, text_eq_refl, get-insert_same, insert, length, Option, none,
  some, Option-cases, inl, inr, List, ok, err, pure, lift, bind_after,
}
use mathlib.Core.Path.{subst}
use railyard.Client.Paths.{parent}
use railyard.Client.Machine.{
  ServerConfig, GlobalConfig, StoredPrivateKey, Machine, Outside, there, reading_result, at_path,
  read_file, write_file, create_dir_all, set_private_permissions,
}
use railyard.Client.Config.{
  server_path, key_path, decoded, write_server, read_server, write_signing_key, read_signing_key,
  parsed_key, stored_key, secret_key, global_config_path, read_global_config, write_global_config,
  or_default,
}

module _ (out : Outside) where
  -- a change that went through was not refused
  at_path-eq-ok :
      (path : Text) (f : Machine → Machine) (m : Machine) {u : Unit {0}}
      → (at_path out path f m).0 ≡ ok u
      → (out.fault path ≡ none) × ((at_path out path f m).1 ≡ f m)
  unfolding at_path
  at_path-eq-ok path f m h = elim (Option-cases (out.fault path)) [
    | inl e ↦ (e, rw (e, at_path) refl)
    | inr (why, e) ↦ cc (h, go why e)
  ]
    where
      go : (why : Text) → out.fault path ≡ some why → (at_path out path f m).0 ≡ err why
      go why e = rw (e, at_path) refl

  -- What a file has been given to hold it holds.
  pub read_file-write_file :
      (path content : Text) (m : Machine) {u : Unit {0}}
      → (write_file out path content m).0 ≡ ok u
      → read_file out path (write_file out path content m).1 ≡ there content
  unfolding write_file read_file
  read_file-write_file path content m h =
      let (free, same) =
        at_path-eq-ok path (λ m'. record m' { files = insert path content m'.files }) m h in
      rw same (
        rw (free, read_file)
          (rw (get-insert_same path path content m.files (text_eq_refl path)) refl))

  pub read_file-set_private_permissions :
      (path other : Text) (m : Machine)
      → read_file out other (set_private_permissions out path m).1 ≡ read_file out other m
  unfolding set_private_permissions at_path read_file
  read_file-set_private_permissions path other m = elim (Option-cases (out.fault path)) [
    | inl e ↦ rw (e, at_path) refl
    | inr (why, e) ↦ rw (e, at_path) refl
  ]

  pub read_file-create_dir_all :
      (dir : Option Text) (other : Text) (m : Machine)
      → read_file out other (create_dir_all out dir m).1 ≡ read_file out other m
  unfolding create_dir_all at_path
  read_file-create_dir_all none other m = refl
  read_file-create_dir_all (some dir) other m = elim (Option-cases (out.fault dir)) [
    | inl e ↦ rw (e, at_path) refl
    | inr (why, e) ↦ rw (e, at_path) refl
  ]

  module _
      (base64_back : (bytes : List ℕ)
        → out.crates.base64_decode (out.base64_encode bytes) ≡ some bytes)
      (key_back : (stored : StoredPrivateKey)
        → out.json.key_from (out.json.key_to stored) ≡ ok stored) where
    parsed_key-stored :
        (key_id : Text) (key : List ℕ)
        → length key ≡ 32
        → parsed_key out (
            ok (
              out.json.key_to
                (record { key_id = key_id; secret_key_base64 = out.base64_encode key })))
          ≡ ok key
    unfolding parsed_key stored_key secret_key
    parsed_key-stored key_id key size = rw (key_back _) (rw (base64_back key) (rw size refl))

    -- A key that was written is read back from the path that the writing returned: where the
    -- libraries read back base64 and the stored form, and the key has 32 bytes.
    pub read_signing_key-write_signing_key :
        (key_id : Text) (key : List ℕ) (m : Machine) (path : Text)
        → length key ≡ 32
        → (write_signing_key out key_id key m).0 ≡ ok path
        → read_signing_key out path (write_signing_key out key_id key m).1 ≡ ok key
    unfolding write_signing_key read_signing_key lift pure
    read_signing_key-write_signing_key key_id key m path size h =
        bind_after (lift (key_path out key_id)) _ m C h λ p m₁ _ _ r₁.
          bind_after (create_dir_all out (parent p)) _ m₁ C r₁ λ _ m₂ _ _ r₂.
            bind_after (write_file out p _) _ m₂ C r₂ λ _ m₃ w e r₃.
              bind_after (set_private_permissions out p) _ m₃ C r₃ λ _ m₄ _ e' r₄.
                let same : p ≡ path = cc r₄ in
                subst (λ x. read_signing_key out x m₄ ≡ ok key) same
                  (ap (λ r. parsed_key out (reading_result r))
                      (ap (read_file out p) (sym e')
                        ∙ read_file-set_private_permissions p p m₃
                        ∙ ap (read_file out p) (sym e)
                        ∙ read_file-write_file p _ m₂ w)
                    ∙ parsed_key-stored key_id key size)
      where
        C : Machine → Type 0
        C m' = read_signing_key out path m' ≡ ok key

  module _
      (server_back : (server : ServerConfig)
        → out.json.server_from (out.json.server_to server) ≡ ok server) where
    -- An entry that was written is read back under its name.
    pub read_server-write_server :
        (name : Text) (server : ServerConfig) (m : Machine) (path : Text)
        → (write_server out name server m).0 ≡ ok path
        → read_server out name (write_server out name server m).1 ≡ there server
    unfolding write_server read_server lift pure decoded
    read_server-write_server name server m path h =
        bind_after (lift (server_path out name)) _ m C h λ p m₁ located _ r₁.
          bind_after (create_dir_all out (parent p)) _ m₁ C r₁ λ _ m₂ _ _ r₂.
            bind_after (write_file out p _) _ m₂ C r₂ λ _ m₃ w e r₃.
              let at_p : server_path out name ≡ ok p = located in
              rw (at_p, read_server)
                (ap (decoded out.json.server_from)
                    (ap (read_file out p) (sym e) ∙ read_file-write_file p _ m₂ w)
                  ∙ rw (server_back server, decoded) refl)
      where
        C : Machine → Type 0
        C m' = read_server out name m' ≡ there server

  module _
      (config_back : (config : GlobalConfig)
        → out.json.config_from (out.json.config_to config) ≡ ok config) where
    -- The configuration that was written is read back.
    pub read_global_config-write_global_config :
        (config : GlobalConfig) (m : Machine) {u : Unit {0}}
        → (write_global_config out config m).0 ≡ ok u
        → read_global_config out (write_global_config out config m).1 ≡ ok config
    unfolding write_global_config read_global_config lift decoded or_default
    read_global_config-write_global_config config m h =
        bind_after (lift (global_config_path out)) _ m C h λ p m₁ located _ r₁.
          bind_after (create_dir_all out (parent p)) _ m₁ C r₁ λ _ m₂ _ _ w.
            let at_p : global_config_path out ≡ ok p = located in
            rw (at_p, read_global_config)
              (ap (λ r. or_default (decoded out.json.config_from r)) (read_file-write_file p _ m₂ w)
                ∙ rw (config_back config, decoded, or_default) refl)
      where
        C : Machine → Type 0
        C m' = read_global_config out m' ≡ ok config
