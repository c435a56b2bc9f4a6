-- ===== src/Client/Login/Enrolled.antt =====
-- What the step of a login that redeems the invite leaves on the disk, before the steps behind it.
use railyard.Base.{
  ℕ, ◌≡◌, ◌≢◌, refl, sym, ap, ◌∙◌, Bool-cases, Text, text_eq, text_eq_iff, get-insert_other, length,
  some, Option-cases, inl, inr, List, ok, pure, lift, ◌>>=◌, ◌>>◌, bind_after,
}
use mathlib.Core.Path.{subst, subst⁻¹}
use railyard.AuthProtocol.{InvitePayload}
use railyard.Client.Paths.{parent}
use railyard.Client.Machine.{
  ServerConfig, StoredPrivateKey, Machine, Outside, there, reads, print, change, file_reading,
  read_file, write_file, at_path, create_dir_all, set_private_permissions, reading_result,
}
use railyard.Client.Config.{
  server_path, key_path, read_server, write_server, write_signing_key, read_signing_key, parsed_key,
}
use railyard.Client.Config.Stored.{
  read_file-create_dir_all, read_signing_key-write_signing_key, read_server-write_server,
}
use railyard.Client.Signing.{generate_signing_key, public_key_base64}
use railyard.Client.Http.{redeem_invite}
use railyard.Client.Login.Enrol.{enrolled}

module _ (out : Outside) where
  pub read_file-write_file_other :
      (path other content : Text) (m : Machine)
      → other ≢ path
      → read_file out other (write_file out path content m).1 ≡ read_file out other m
  unfolding write_file at_path read_file
  read_file-write_file_other path other content m apart = elim (Option-cases (out.fault path)) [
    | inr (why, e) ↦ rw (e, at_path) refl
    | inl e ↦ elim (Bool-cases (text_eq path other)) [
      | inl same ↦ absurd (apart (sym ((text_eq_iff path other).0 same)))
      | inr f ↦
          rw (e, at_path)
            (ap (file_reading out (out.fault other))
              (get-insert_other path other content m.files f))
    ]
  ]

  -- an entry is written to its own file only
  read_file-write_server_other :
      (name other path : Text) (server : ServerConfig) (m : Machine)
      → (write_server out name server m).0 ≡ ok path
      → server_path out name ≢ ok other
      → read_file out other (write_server out name server m).1 ≡ read_file out other m
  unfolding write_server lift pure
  read_file-write_server_other name other path server m h apart =
      bind_after (lift (server_path out name)) _ m C h λ p m₁ located s₁ r₁.
        bind_after (create_dir_all out (parent p)) _ m₁ C r₁ λ _ m₂ _ s₂ r₂.
          bind_after (write_file out p _) _ m₂ C r₂ λ _ m₃ _ s₃ _.
            ap (read_file out other) (sym s₃)
            ∙ read_file-write_file_other p other _ m₂ (λ e. apart (located ∙ ap ok (sym e)))
            ∙ ap (read_file out other) (sym s₂)
            ∙ read_file-create_dir_all out (parent p) other m₁
            ∙ ap (read_file out other) (sym s₁)
    where
      C : Machine → Type 0
      C m' = read_file out other m' ≡ read_file out other m

  key_path-write_signing_key :
      (key_id : Text) (key : List ℕ) (m : Machine) (path : Text)
      → (write_signing_key out key_id key m).0 ≡ ok path
      → key_path out key_id ≡ ok path
  unfolding write_signing_key lift pure
  key_path-write_signing_key key_id key m path h =
      bind_after (lift (key_path out key_id)) _ m C h λ p m₁ located _ r₁.
        bind_after (create_dir_all out (parent p)) _ m₁ C r₁ λ _ m₂ _ _ r₂.
          bind_after (write_file out p _) _ m₂ C r₂ λ _ m₃ _ _ r₃.
            bind_after (set_private_permissions out p) _ m₃ C r₃ λ _ m₄ _ _ r₄. located ∙ r₄
    where
      C : Machine → Type 0
      C m' = key_path out key_id ≡ ok path

  -- a usable entry under the name, with the key
  pub record IsEnrolled (name : Text) (server : ServerConfig) (key : List ℕ) (m : Machine)
      : Type 0 where
    pub entry : read_server out name m ≡ there server
    pub readable : read_signing_key out server.private_key_path m ≡ ok key

  pub print-IsEnrolled :
      (name line : Text) (server : ServerConfig) (key : List ℕ) (m : Machine)
      → IsEnrolled name server key m
      → IsEnrolled name server key (print line m).1
  unfolding print change read_server read_signing_key read_file
  print-IsEnrolled name line server key m e = record { entry = e.entry; readable = e.readable }

  same-IsEnrolled :
      (name url path : Text) {id id' : Text} {key key' : List ℕ} {m : Machine}
      → id' ≡ id
      → key' ≡ key
      → IsEnrolled name (record { server_url = url; key_id = id; private_key_path = path }) key m
      → IsEnrolled name (record { server_url = url; key_id = id'; private_key_path = path }) key' m
  same-IsEnrolled name url path {id' = id'} {key = key} {m = m} e f h =
      subst⁻¹
        (λ k.
          IsEnrolled name (record { server_url = url; key_id = id'; private_key_path = path }) k m)
        f
        (subst⁻¹
          (λ i.
            IsEnrolled name (record { server_url = url; key_id = i; private_key_path = path }) key
              m)
          e h)

  module _
      (base64_back : (bytes : List ℕ)
        → out.crates.base64_decode (out.base64_encode bytes) ≡ some bytes)
      (key_back : (stored : StoredPrivateKey)
        → out.json.key_from (out.json.key_to stored) ≡ ok stored)
      (server_back : (server : ServerConfig)
        → out.json.server_from (out.json.server_to server) ≡ ok server)
      (enough : (n : ℕ) (m : Machine) → length (out.random_bytes n m) ≡ n) where
    written-IsEnrolled :
        (name id url line : Text) (key : List ℕ) (m : Machine) (path : Text) {u : Unit {0}}
        → length key ≡ 32
        → key_path out id ≡ ok path
        → server_path out name ≢ ok path
        → ((write_signing_key out id key >>= λ p.
              write_server out name (record { server_url = url; key_id = id; private_key_path = p })
              >> print line)
            m).0
          ≡ ok u
        → IsEnrolled name
            (record { server_url = url; key_id = id; private_key_path = path })
            key
            ((write_signing_key out id key >>= λ p.
                write_server out name
                  (record { server_url = url; key_id = id; private_key_path = p })
                >> print line)
              m).1
    unfolding read_signing_key
    written-IsEnrolled name id url line key m path size located apart h =
        bind_after (write_signing_key out id key) _ m C h λ p m₁ written s₁ r₁.
          let same : p ≡ path = cc (located, key_path-write_signing_key id key m p written) in
          let server : Text → ServerConfig =
            λ q. record { server_url = url; key_id = id; private_key_path = q } in
          let kept : read_signing_key out p m₁ ≡ ok key =
            subst (λ x. read_signing_key out p x ≡ ok key) s₁
              (read_signing_key-write_signing_key out base64_back key_back id key m p size
                written) in
          bind_after (write_server out name (server p)) _ m₁ C r₁ λ file m₂ stored s₂ r₂.
            print-IsEnrolled name line (server path) key m₂ (
              subst (λ q. IsEnrolled name (server q) key m₂) same
                (record {
                  entry =
                      subst (λ x. read_server out name x ≡ there (server p)) s₂
                        (read_server-write_server out server_back name (server p) m₁ file stored);
                  readable =
                      ap (λ r. parsed_key out (reading_result r))
                        (ap (read_file out p) (sym s₂)
                          ∙ read_file-write_server_other name p file (server p) m₁ stored
                              (λ e. apart (e ∙ ap ok same)))
                      ∙ kept;
                }))
      where
        C : Machine → Type 0
        C m' =
            IsEnrolled name (record { server_url = url; key_id = id; private_key_path = path }) key
              m'

    -- The step that redeems an invite leaves, under the name, an entry with the invite's URL and the
    -- id that the server gave, and the key that it registered can be read at the entry's path; where
    -- the path of the key is not that of the entry, and what is written reads back.
    pub enrolled-IsEnrolled :
        (name : Text) (invite : InvitePayload) (m : Machine) (key_id path : Text) {u : Unit {0}}
        → (redeem_invite out invite (public_key_base64 out (generate_signing_key out m)) m).0
          ≡ ok key_id
        → key_path out key_id ≡ ok path
        → server_path out name ≢ ok path
        → (enrolled out name invite m).0 ≡ ok u
        → IsEnrolled name
            (record { server_url = invite.server_url; key_id = key_id; private_key_path = path })
            (generate_signing_key out m)
            (enrolled out name invite m).1
    unfolding enrolled reads generate_signing_key
    enrolled-IsEnrolled name invite m key_id path redeemed located apart h =
        bind_after (reads λ m'. ok (generate_signing_key out m')) _ m C h λ key m₁ made s₁ r₁.
          let same_key : generate_signing_key out m ≡ key = cc made in
          bind_after (redeem_invite out invite (public_key_base64 out key)) _ m₁ C r₁
            λ id m₂ got s₂ r₂.
              let same_id : key_id ≡ id = cc (redeemed, got, s₁, same_key) in
              let done =
                written-IsEnrolled name id invite.server_url _ key m₂ path
                  (ap length (sym same_key) ∙ enough 32 m)
                  (subst (λ i. key_path out i ≡ ok path) same_id located) apart r₂ in
              same-IsEnrolled name invite.server_url path same_id same_key done
      where
        C : Machine → Type 0
        C m' =
            IsEnrolled name
              (record { server_url = invite.server_url; key_id = key_id; private_key_path = path })
              (generate_signing_key out m) m'
