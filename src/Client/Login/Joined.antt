-- ===== src/Client/Login/Joined.antt =====
-- What a login by an invite to a project leaves on the disk when it ends.
use mathlib.Core.Path.{subst}
use railyard.Base.{
  ℕ, ◌≡◌, ◌≢◌, refl, sym, ap, ◌∙◌, Text, text_eq_refl, get-insert, length, Option, none, some,
  is_none, List, Result, ok, pure, lift, ◌>>=◌, ◌>>◌, bind_after, if◌then◌else◌,
}
use railyard.AuthProtocol.{InvitePayload, InviteProject}
use railyard.Client.Paths.{parent}
use railyard.Client.Machine.{
  ServerConfig, GlobalConfig, StoredPrivateKey, Machine, Act, Outside, reads, print, change,
  read_file, create_dir_all, reading_result,
}
use railyard.Client.Config.{
  server_path, key_path, global_config_path, read_server, decoded, read_signing_key, parsed_key,
  read_global_config, write_global_config, read_project_binding, record_project_binding,
}
use railyard.Client.Config.Stored.{read_file-create_dir_all, read_global_config-write_global_config}
use railyard.Client.Signing.{generate_signing_key, public_key_base64}
use railyard.Client.Http.{redeem_invite}
use railyard.Client.Login.{resolve_server_name, supersede_project_entries}
use railyard.Client.Login.Enrol.{enrolled, same_server, bind_invited, enrol}
use railyard.Client.Login.Enrolled.{
  IsEnrolled, print-IsEnrolled, enrolled-IsEnrolled, read_file-write_file_other,
}

module _ (out : Outside) where
  read_file-write_global_config :
      (config : GlobalConfig) (other : Text) (m : Machine) {u : Unit {0}}
      → (write_global_config out config m).0 ≡ ok u
      → global_config_path out ≢ ok other
      → read_file out other (write_global_config out config m).1 ≡ read_file out other m
  unfolding write_global_config lift
  read_file-write_global_config config other m h apart =
      bind_after (lift (global_config_path out)) _ m C h λ p m₁ located s₁ r₁.
        bind_after (create_dir_all out (parent p)) _ m₁ C r₁ λ _ m₂ _ s₂ _.
          read_file-write_file_other out p other _ m₂ (λ e. apart (located ∙ ap ok (sym e)))
          ∙ ap (read_file out other) (sym s₂)
          ∙ read_file-create_dir_all out (parent p) other m₁
          ∙ ap (read_file out other) (sym s₁)
    where
      C : Machine → Type 0
      C m' = read_file out other m' ≡ read_file out other m

  read_file-record_project_binding :
      (id server other : Text) (m : Machine) {u : Unit {0}}
      → (record_project_binding out id server m).0 ≡ ok u
      → global_config_path out ≢ ok other
      → read_file out other (record_project_binding out id server m).1 ≡ read_file out other m
  unfolding record_project_binding reads
  read_file-record_project_binding id server other m h apart =
      bind_after (reads (read_global_config out)) _ m C h λ config m₁ _ s₁ r₁.
        read_file-write_global_config _ other m₁ r₁ apart ∙ ap (read_file out other) (sym s₁)
    where
      C : Machine → Type 0
      C m' = read_file out other m' ≡ read_file out other m

  -- an entry and its key stay usable where their files stay
  unchanged-IsEnrolled :
      (name file : Text) (server : ServerConfig) (key : List ℕ) (m m' : Machine)
      → server_path out name ≡ ok file
      → read_file out file m' ≡ read_file out file m
      → read_file out server.private_key_path m' ≡ read_file out server.private_key_path m
      → IsEnrolled out name server key m
      → IsEnrolled out name server key m'
  unfolding read_signing_key read_server
  unchanged-IsEnrolled name file server key m m' located same_file same_key e = record {
    entry =
        rw (located, read_server)
          (ap (decoded out.json.server_from) same_file ∙ (rw (located, read_server) at e.entry));
    readable = ap (λ r. parsed_key out (reading_result r)) same_key ∙ e.readable;
  }

  module _
      (config_back : (config : GlobalConfig)
        → out.json.config_from (out.json.config_to config) ≡ ok config) where
    read_project_binding-record :
        (id server : Text) (m : Machine) {u : Unit {0}}
        → (record_project_binding out id server m).0 ≡ ok u
        → read_project_binding out id (record_project_binding out id server m).1 ≡ ok (some server)
    unfolding record_project_binding reads read_project_binding
    read_project_binding-record id server m h =
        bind_after (reads (read_global_config out)) _ m C h λ config m₁ _ _ r₁.
          rw (read_global_config-write_global_config out config_back _ m₁ r₁, read_project_binding)
            (ap ok (get-insert id id server config.projects ∙ rw (text_eq_refl id) refl))
      where
        C : Machine → Type 0
        C m' = read_project_binding out id m' ≡ ok (some server)

    -- what is on the disk: an entry with a key, and the binding of the project to it
    pub record IsJoined (name id : Text) (server : ServerConfig) (key : List ℕ) (m : Machine)
        : Type 0 where
      pub entry : IsEnrolled out name server key m
      pub bound : read_project_binding out id m ≡ ok (some name)

    print-IsJoined :
        (name id line : Text) (server : ServerConfig) (key : List ℕ) (m : Machine)
        → IsJoined name id server key m
        → IsJoined name id server key (print line m).1
    unfolding print change read_project_binding read_global_config read_file
    print-IsJoined name id line server key m j = record {
      entry = print-IsEnrolled out name line server key m j.entry;
      bound = j.bound;
    }

    -- the end of a login by an invite to a project, whatever would be done without a project
    settled-IsJoined :
        (o : Option InviteProject) (project : InviteProject) (otherwise : Act (Unit {0}))
        (name file : Text) (server : ServerConfig) (key : List ℕ) (m : Machine) {u : Unit {0}}
        → o ≡ some project
        → server_path out name ≡ ok file
        → global_config_path out ≢ ok file
        → global_config_path out ≢ ok server.private_key_path
        → IsEnrolled out name server key m
        → (((if is_none o then otherwise else pure tt) >> bind_invited out name o) m).0 ≡ ok u
        → IsJoined name project.id server key
            (((if is_none o then otherwise else pure tt) >> bind_invited out name o) m).1
    unfolding bind_invited pure ◌>>=◌
    settled-IsJoined none project otherwise name file server key m e located apart apart' j h = cc
    settled-IsJoined (some p) project otherwise name file server key m e located apart apart' j h =
        let same : p ≡ project = cc in
        bind_after (record_project_binding out p.id name) _ m C h λ _ m₁ bound s₁ _.
          print-IsJoined name project.id _ server key m₁ (record {
            entry = subst (IsEnrolled out name server key) s₁ (
                unchanged-IsEnrolled name file server key m _ located
                  (read_file-record_project_binding p.id name file m bound apart)
                  (read_file-record_project_binding p.id name _ m bound apart') j);
            bound =
                subst (λ (q : InviteProject). read_project_binding out q.id m₁ ≡ ok (some name))
                  same
                  (subst (λ x. read_project_binding out p.id x ≡ ok (some name)) s₁
                    (read_project_binding-record p.id name m bound));
          })
      where
        C : Machine → Type 0
        C m' = IsJoined name project.id server key m'

    module _
        (base64_back : (bytes : List ℕ)
          → out.crates.base64_decode (out.base64_encode bytes) ≡ some bytes)
        (key_back : (stored : StoredPrivateKey)
          → out.json.key_from (out.json.key_to stored) ≡ ok stored)
        (server_back : (server : ServerConfig)
          → out.json.server_from (out.json.server_to server) ≡ ok server)
        (enough : (n : ℕ) (m : Machine) → length (out.random_bytes n m) ≡ n) where
      -- A login by an invite to a project that redeems it and succeeds leaves, when it ends, an entry
      -- under the chosen name with the invite's URL and the id that the server gave, the registered
      -- key readable at the path of the entry, and the project bound to the entry; where the files of
      -- the entry, the key and the configuration are three, and what is written reads back.
      pub enrol-IsJoined :
          (flag : Option Text) (invite : InvitePayload) (project : InviteProject) (m : Machine)
          (name key_id file path : Text) {u : Unit {0}}
          → invite.project ≡ some project
          → resolve_server_name out flag invite ≡ ok name
          → (redeem_invite out invite (public_key_base64 out (generate_signing_key out m)) m).0
            ≡ ok key_id
          → server_path out name ≡ ok file
          → key_path out key_id ≡ ok path
          → (file ≢ path) × (global_config_path out ≢ ok file) × (global_config_path out ≢ ok path)
          → (enrol out flag invite m).0 ≡ ok u
          → IsJoined name project.id
              (record { server_url = invite.server_url; key_id = key_id; private_key_path = path })
              (generate_signing_key out m)
              (enrol out flag invite m).1
      unfolding enrol lift reads
      enrol-IsJoined flag invite project m name key_id file path to_project chosen redeemed placed
            kept (apart, apart_file, apart_path) h =
          bind_after (lift (resolve_server_name out flag invite)) _ m C h λ n m₁ got s₁ r₁.
            let same : name ≡ n = cc (chosen, got) in
            bind_after (reads λ m'. ok (read_server out n m')) _ m₁ C r₁ λ existing m₂ _ s₂ r₂.
              bind_after (lift (same_server out n invite existing)) _ m₂ C r₂ λ _ m₃ _ s₃ r₃.
                bind_after (enrolled out n invite) _ m₃ C r₃ λ _ m₄ done s₄ r₄.
                  let back : m₃ ≡ m = sym (s₁ ∙ s₂ ∙ s₃) in
                  let ended : (enrolled out name invite m).0 ≡ ok tt =
                    subst (λ k. (enrolled out k invite m).0 ≡ ok tt) (sym same)
                      (subst (λ x. (enrolled out n invite x).0 ≡ ok tt) back done) in
                  let left : (enrolled out name invite m).1 ≡ m₄ =
                    ap (λ k. (enrolled out k invite m).1) same
                    ∙ ap (λ x. (enrolled out n invite x).1) (sym back)
                    ∙ s₄ in
                  let usable =
                    enrolled-IsEnrolled out base64_back key_back server_back enough name invite m
                      key_id path redeemed kept (λ q. differ (sym placed ∙ q)) ended in
                  let otherwise = supersede_project_entries out invite.server_url n in
                  subst
                    (λ k.
                      C
                        (((if is_none invite.project then otherwise else pure tt)
                            >> bind_invited out k invite.project)
                          m₄).1)
                    same
                    (settled-IsJoined invite.project project otherwise name file _ _ m₄ to_project
                      placed apart_file apart_path (subst (IsEnrolled out name _ _) left usable)
                      (subst
                        (λ k.
                          (((if is_none invite.project then otherwise else pure tt)
                              >> bind_invited out k invite.project)
                            m₄).0
                          ≡ ok tt)
                        (sym same) r₄))
        where
          differ : ◌≢◌ {A = Result Text} (ok file) (ok path)
          differ e = let same : file ≡ path = cc in apart same

          C : Machine → Type 0
          C m' =
              IsJoined name project.id
                (record {
                  server_url = invite.server_url;
                  key_id = key_id;
                  private_key_path = path;
                })
                (generate_signing_key out m) m'
