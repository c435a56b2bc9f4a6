-- ===== src/Client/Resolve/Servers.antt =====
-- The server of a project, in apps/cli/src/resolve.rs: the recorded binding, the servers that have
-- the project, and the offer to link one.
use railyard.Base.{
  ℕ, zero, suc, ◌++◌, map, any, join, Bool, Text, txt, text_eq, Option, none, some, List, [], ◌∷◌,
  Result, ok, err, pure, lift, ◌>>=◌, ◌>>◌, if◌then◌else◌,
}
use railyard.Types.{ProjectSummary}
use railyard.Client.Machine.{
  ServerConfig, Machine, Act, Outside, Reading, there, missing, broken, reads, print,
}
use railyard.Client.Config.{list_servers, read_project_binding, read_server, record_project_binding}
use railyard.Client.Http.{
  WhoamiOutcome, identity, rejected, unreachable, whoami, list_projects, on_first,
}
use railyard.Client.Resolve.Manifests.{LinkedProject}

abbrev pub NamedServer : Type 0
NamedServer = Text × ServerConfig

pub data ProjectBinding : Type 0 where
  bound : Text → ServerConfig → ProjectBinding
  stale : Text → ProjectBinding
  unbound : ProjectBinding

pub data ProjectPresence : Type 0 where
  present absent : ProjectPresence
  unknown : (reason : Text) → ProjectPresence

-- `Vec::remove`: an index past the end ends the program
unfoldable pub take_at : {A : Type 0} → ℕ → List A → Result A
take_at n [] = err (txt "removal index should be < len")
take_at zero (a ∷ _) = ok a
take_at (suc n) (_ ∷ rest) = take_at n rest

-- the labels of servers in a list to choose from
unfoldable pub server_items : List NamedServer → List Text
server_items servers = map (λ e. e.0 ++ txt " (" ++ e.1.server_url ++ txt ")") servers

abbrev pub server_names : List NamedServer → List Text
server_names servers = map (λ e. e.0) servers

-- the servers that have the project, and what is said of those that could not be asked
pub record Survey : Type 0 where
  pub candidates : List NamedServer
  pub unchecked : List Text

module _ (out : Outside) where
  unfoldable pub binding_of : Text → Reading ServerConfig → Result ProjectBinding
  binding_of name (there server) = ok (bound name server)
  binding_of name (missing _) = ok (stale name)
  binding_of name (broken why) = err (txt "could not read server " ++ name ++ txt ": " ++ why)

  unfoldable pub project_binding : Text → Machine → Result ProjectBinding
  unfolding read_project_binding read_server binding_of
  project_binding project_id m = elim (read_project_binding out project_id m) [
    | err why ↦ err why
    | ok none ↦ ok unbound
    | ok (some name) ↦ binding_of name (read_server out name m)
  ]

  abbrev pub lists : LinkedProject → List ProjectSummary → Bool
  lists project projects = any (λ (p : ProjectSummary). text_eq p.id project.id) projects

  unfoldable pub listed_presence : LinkedProject → Result (List ProjectSummary) → ProjectPresence
  listed_presence project (ok projects) = if lists project projects then present else absent
  listed_presence project (err why) = unknown (txt "project listing failed: " ++ why)

  unfoldable pub identity_presence :
      ServerConfig → LinkedProject → Option Text → Machine → ProjectPresence × Machine
  unfolding listed_presence list_projects
  identity_presence server project (some scoped) m =
      (if text_eq scoped project.id then present else absent, m)
  identity_presence server project none m =
      on_first (listed_presence project) (list_projects out server m)

  unfoldable pub whoami_presence :
      ServerConfig → LinkedProject → Result WhoamiOutcome → Machine → ProjectPresence × Machine
  unfolding identity_presence
  whoami_presence server project (ok (identity who)) m =
      identity_presence server project who.project_id m
  whoami_presence server project (ok (rejected why)) m = (unknown (txt "key rejected " ++ why), m)
  whoami_presence server project (ok unreachable) m = (unknown (txt "unreachable"), m)
  whoami_presence server project (err why) m = (unknown why, m)

  -- it does not fail
  unfoldable pub server_project_presence : ServerConfig → LinkedProject → Act ProjectPresence
  unfolding whoami_presence whoami
  server_project_presence server project m =
      let (r, m') = whoami out server m in on_first ok (whoami_presence server project r m')

  unfoldable pub link_project : LinkedProject → NamedServer → Act NamedServer
  unfolding record_project_binding print
  link_project project (name, server) = do
    record_project_binding out project.id name
    print (txt "Linked project " ++ project.name ++ txt " (" ++ project.id ++ txt ") to " ++ name)
    pure (name, server)

  unfoldable pub surveyed : NamedServer → ProjectPresence → Survey → Survey
  surveyed entry present s = record s { candidates = entry ∷ s.candidates }
  surveyed entry absent s = s
  surveyed entry (unknown reason) s = record s {
    unchecked = (entry.0 ++ txt " (" ++ reason ++ txt ")") ∷ s.unchecked;
  }

  unfoldable pub survey : LinkedProject → List NamedServer → Act Survey
  unfolding server_project_presence surveyed
  survey project [] = pure (record { candidates = []; unchecked = [] })
  survey project (entry ∷ rest) = do
    presence ← server_project_presence entry.1 project
    others ← survey project rest
    pure (surveyed entry presence others)

  -- `read_server` with the name in its error
  unfoldable pub server_named : Text → Machine → Result NamedServer
  unfolding read_server
  server_named name m = elim (read_server out name m) [
    | there server ↦ ok (name, server)
    | missing why ↦ err (txt "could not read server " ++ name ++ txt ": " ++ why)
    | broken why ↦ err (txt "could not read server " ++ name ++ txt ": " ++ why)
  ]

  unfoldable pub sole_server : List NamedServer → Result NamedServer
  unfolding join
  sole_server [] = err (txt "no servers found; run `railyard login <blob>` first")
  sole_server (entry ∷ []) = ok entry
  sole_server (a ∷ b ∷ servers) = err (
      txt "multiple servers exist ("
      ++ join (txt ", ") (server_names (a ∷ b ∷ servers))
      ++ txt "); pass --server <name>")

  unfoldable pub resolve_server : (explicit : Option Text) → Act NamedServer
  unfolding reads server_named list_servers sole_server
  resolve_server (some name) = reads (server_named name)
  resolve_server none = do servers ← list_servers out; lift (sole_server servers)
