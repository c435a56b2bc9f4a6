-- ===== src/Client/Commands/Whoami.antt =====
-- apps/cli/src/commands/whoami.rs.
use railyard.Base.{
  ◌++◌, filter, is_some_and, Text, txt, text_eq, Option, none, some, List, [], ◌∷◌, Result, ok, err,
  pure, raise, lift, ◌>>=◌, ◌>>◌, if◌then◌else◌,
}
use railyard.Types.{WhoamiResponse}
use railyard.Client.Machine.{Act, Outside, print}
use railyard.Client.Config.{list_servers}
use railyard.Client.Http.{WhoamiOutcome, identity, rejected, unreachable, whoami}
use railyard.Client.Resolve.Manifests.{LinkedProject, linked_project}
use railyard.Client.Resolve.Servers.{
  NamedServer, ProjectBinding, bound, stale, unbound, project_binding,
}

-- the rows to show, the name of the one in force, and why
pub record Selection : Type 0 where
  pub servers : List NamedServer
  pub selected : Option Text
  pub note : Text

unfoldable pub scope_text : Option Text → Option Text → Text
scope_text none _ = txt "admin"
scope_text (some id) none = txt "project " ++ id
scope_text (some id) (some project) = txt "project " ++ project

unfoldable pub describe_identity : WhoamiResponse → Text
unfolding scope_text
describe_identity who =
    txt "user " ++ who.name ++ txt " — " ++ scope_text who.project_id who.project_name

unfoldable pub describe_outcome : Result WhoamiOutcome → Text
unfolding describe_identity
describe_outcome (ok (identity who)) = describe_identity who
describe_outcome (ok (rejected why)) = txt "key rejected " ++ why
describe_outcome (ok unreachable) = txt "unreachable"
describe_outcome (err why) = txt "error: " ++ why

abbrev pub via : Option Text → Text
via none = []
via (some path) = txt ", manifest at " ++ path

unfoldable pub by_binding : List NamedServer → LinkedProject → Result ProjectBinding → Selection
by_binding servers project (ok (bound name _)) = record {
  servers = servers;
  selected = some name;
  note =
      txt "selected for this directory (project "
      ++ project.name
      ++ txt ", "
      ++ project.id
      ++ via project.manifest_path
      ++ txt ")";
}
by_binding servers project (ok (stale name)) = record {
  servers = servers;
  selected = none;
  note =
      txt "project "
      ++ project.name
      ++ txt " ("
      ++ project.id
      ++ via project.manifest_path
      ++ txt ") is linked to "
      ++ name
      ++ txt
          ", which no longer exists here; any project command re-offers the link, `railyard unlink` forgets it";
}
by_binding servers project (ok unbound) = record {
  servers = servers;
  selected = none;
  note =
      txt "project "
      ++ project.name
      ++ txt " ("
      ++ project.id
      ++ via project.manifest_path
      ++ txt ") is not linked here yet";
}
by_binding servers project (err why) = record { servers = servers; selected = none; note = why }

unfoldable pub without_project : List NamedServer → Selection
without_project (entry ∷ []) = record {
  servers = entry ∷ [];
  selected = some entry.0;
  note = txt "selected as the only known server";
}
without_project servers = record {
  servers = servers;
  selected = none;
  note = txt "no project in this directory; commands here need --server <name>";
}

unfoldable pub by_flag : Text → List NamedServer → Result Selection
by_flag name [] = err (txt "no server named " ++ name)
by_flag name (entry ∷ servers) = ok (record {
  servers = entry ∷ servers;
  selected = some name;
  note = txt "selected by --server " ++ name;
})

abbrev pub marker : Option Text → Text → Text
marker selected name = if is_some_and (text_eq name) selected then txt "*" else txt " "

module _ (out : Outside) where
  unfoldable pub by_project : List NamedServer → Option LinkedProject → Act Selection
  unfolding by_binding without_project project_binding
  by_project servers none m = (ok (without_project servers), m)
  by_project servers (some project) m =
      (ok (by_binding servers project (project_binding out project.id m)), m)

  unfoldable pub selection : (server_flag : Option Text) → List NamedServer → Act Selection
  unfolding by_flag linked_project by_project
  selection (some name) servers = lift (by_flag name (filter (λ e. text_eq e.0 name) servers))
  selection none servers = do project ← linked_project out; by_project servers project

  -- a call that fails is a row like the others
  unfoldable pub ask_outcome : NamedServer → Act Text
  unfolding whoami describe_outcome
  ask_outcome entry m = let (r, m') = whoami out entry.1 m in (ok (describe_outcome r), m')

  unfoldable pub show_rows : Option Text → List NamedServer → Act (Unit {0})
  unfolding ask_outcome print
  show_rows selected [] = pure tt
  show_rows selected (entry ∷ rest) = do
    who ← ask_outcome entry
    print (
        marker selected entry.0
        ++ txt " "
        ++ entry.0
        ++ txt "\t"
        ++ entry.1.server_url
        ++ txt "\t"
        ++ who)
    show_rows selected rest

  unfoldable pub show_servers : (server_flag : Option Text) → List NamedServer → Act (Unit {0})
  unfolding selection show_rows print
  show_servers server_flag [] = raise (txt "no servers found; run `railyard login <blob>` first")
  show_servers server_flag (entry ∷ servers) = do
    s ← selection server_flag (entry ∷ servers)
    show_rows s.selected s.servers
    print []
    print s.note

  unfoldable pub run_whoami : (server_flag : Option Text) → Act (Unit {0})
  unfolding list_servers show_servers
  run_whoami server_flag = do servers ← list_servers out; show_servers server_flag servers
