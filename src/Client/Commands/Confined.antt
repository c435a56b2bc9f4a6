-- ===== src/Client/Commands/Confined.antt =====
-- Which commands leave the disk as it is.
use railyard.Base.{
  ℕ, ◌≡◌, refl, Text, txt, Option, none, some, List, [], ◌∷◌, Result, ok, err, pure, ◌++◌, Keeps,
  Keeps-bind, Keeps-pure, keeps_rules,
}
use railyard.Types.{UserSummary, whoami_path}
use railyard.Client.Machine.{
  ServerConfig, ClientRequest, Machine, Act, Outside, reads, change, print, transmit,
}
use railyard.Client.Paths.{file_name, stem_extension}
use railyard.Client.Config.{list_servers, list_entries, list_entry, list_named, parsed_entry}
use railyard.Client.Http.{
  prepared, signed_request_with_type, signed_request, deliver, await_reply, whoami, list_projects,
  list_users, remove_user, WhoamiOutcome, identity, rejected, unreachable,
}
use railyard.Client.Resolve.Manifests.{LinkedProject, linked_project}
use railyard.Client.Resolve.Servers.{
  NamedServer, server_project_presence, whoami_presence, identity_presence, resolve_server,
  server_named,
}
use railyard.Client.Commands.Whoami.{
  run_whoami, show_servers, show_rows, ask_outcome, selection, by_project,
}
use railyard.Client.Commands.User.{list, list_shown, print_users, user_line, remove}

-- The files are those, and the questions asked are those.
pub record IsQuiet (files : List (Text × Text)) (asked : List Text) (m : Machine) : Type 0 where
  pub same_files : m.files ≡ files
  pub same_asked : m.asked ≡ asked

module _ (out : Outside) (files : List (Text × Text)) (asked : List Text) where
  abbrev Quiet : {A : Type 0} → Act A → Type 0
  Quiet a = Keeps (IsQuiet files asked) a

  reads-Quiet : {A : Type 0} (f : Machine → Result A) → Quiet (reads f)
  unfolding reads
  reads-Quiet f = record { from = λ m h. h }

  print-Quiet : (line : Text) → Quiet (print line)
  unfolding print change
  print-Quiet line = record {
    from = λ m h. record { same_files = h.same_files; same_asked = h.same_asked };
  }

  prepared-Quiet :
      (server : ServerConfig) (method suffix : Text) (body : List ℕ) (content_type : Text)
      → Quiet (prepared out server method suffix body content_type)
  unfolding prepared
  prepared-Quiet server method suffix body content_type = search (keeps_rules, reads-Quiet) depth 12

  deliver-IsQuiet :
      (r : Result ClientRequest) (m : Machine)
      → IsQuiet files asked m
      → IsQuiet files asked (deliver out (r, m)).1
  unfolding transmit
  deliver-IsQuiet (err why) m h = h
  deliver-IsQuiet (ok request) m h = record { same_files = h.same_files; same_asked = h.same_asked }

  signed_request-IsQuiet :
      (server : ServerConfig) (method suffix : Text) (body : List ℕ) (m : Machine)
      → IsQuiet files asked m
      → IsQuiet files asked (signed_request out server method suffix body m).1
  unfolding signed_request signed_request_with_type
  signed_request-IsQuiet server method suffix body m h =
      deliver-IsQuiet (prepared out server method suffix body (txt "application/json") m).0 _
        ((prepared-Quiet server method suffix body (txt "application/json")).from m h)

  signed_request-Quiet :
      (server : ServerConfig) (method suffix : Text) (body : List ℕ)
      → Quiet (await_reply out (signed_request out server method suffix body))
  signed_request-Quiet server method suffix body = record {
    from = signed_request-IsQuiet server method suffix body;
  }

  whoami-Quiet : (server : ServerConfig) → Quiet (whoami out server)
  unfolding whoami
  whoami-Quiet server = record { from = signed_request-IsQuiet server (txt "GET") whoami_path [] }

  list_projects-Quiet : (server : ServerConfig) → Quiet (list_projects out server)
  unfolding list_projects
  list_projects-Quiet server = search (keeps_rules, signed_request-Quiet) depth 12

  list_users-Quiet : (server : ServerConfig) → Quiet (list_users out server)
  unfolding list_users
  list_users-Quiet server = search (keeps_rules, signed_request-Quiet) depth 12

  remove_user-Quiet : (server : ServerConfig) (name : Text) → Quiet (remove_user out server name)
  unfolding remove_user
  remove_user-Quiet server name = search (keeps_rules, signed_request-Quiet) depth 12

  parsed_entry-Quiet : (name : Text) (r : Result ServerConfig) → Quiet (parsed_entry out name r)
  unfolding parsed_entry
  parsed_entry-Quiet name (ok server) = search keeps_rules depth 12
  parsed_entry-Quiet name (err why) = search (keeps_rules, print-Quiet) depth 12

  list_named-Quiet : (path : Text) (n : Text × Option Text) → Quiet (list_named out path n)
  unfolding list_named
  list_named-Quiet path (name, extension) =
      search (keeps_rules, reads-Quiet, parsed_entry-Quiet) depth 12

  list_entry-Quiet : (path : Text) → Quiet (list_entry out path)
  unfolding list_entry
  list_entry-Quiet path = go (file_name path)
    where
      go :
          (name : Option Text)
          → Quiet {A = List NamedServer}
              (elim name [ none ↦ pure [] | some n ↦ list_named out path (stem_extension n) ])
      go none = search keeps_rules depth 12
      go (some n) = list_named-Quiet path (stem_extension n)

  list_entries-Quiet : (paths : List Text) → Quiet (list_entries out paths)
  unfolding list_entries
  list_entries-Quiet [] = search keeps_rules depth 12
  list_entries-Quiet (path ∷ paths) =
      Keeps-bind (list_entry out path) _ (list_entry-Quiet path) λ entry.
        Keeps-bind (list_entries out paths) _ (list_entries-Quiet paths)
          λ rest. Keeps-pure (entry ++ rest)

  list_servers-Quiet : Quiet (list_servers out)
  unfolding list_servers
  list_servers-Quiet = search (keeps_rules, reads-Quiet, list_entries-Quiet) depth 12

  linked_project-Quiet : Quiet (linked_project out)
  unfolding linked_project
  linked_project-Quiet = search (keeps_rules, reads-Quiet) depth 12

  resolve_server-Quiet : (explicit : Option Text) → Quiet (resolve_server out explicit)
  unfolding resolve_server
  resolve_server-Quiet (some name) = reads-Quiet (server_named out name)
  resolve_server-Quiet none = search (keeps_rules, list_servers-Quiet) depth 12

  by_project-Quiet :
      (servers : List NamedServer) (project : Option LinkedProject)
      → Quiet (by_project out servers project)
  unfolding by_project
  by_project-Quiet servers none = record { from = λ m h. h }
  by_project-Quiet servers (some project) = record { from = λ m h. h }

  selection-Quiet :
      (flag : Option Text) (servers : List NamedServer) → Quiet (selection out flag servers)
  unfolding selection
  selection-Quiet (some name) servers = search keeps_rules depth 12
  selection-Quiet none servers =
      search (keeps_rules, linked_project-Quiet, by_project-Quiet) depth 12

  ask_outcome-Quiet : (entry : NamedServer) → Quiet (ask_outcome out entry)
  unfolding ask_outcome
  ask_outcome-Quiet entry = record { from = λ m h. (whoami-Quiet entry.1).from m h }

  show_rows-Quiet :
      (selected : Option Text) (servers : List NamedServer) → Quiet (show_rows out selected servers)
  unfolding show_rows
  show_rows-Quiet selected [] = search keeps_rules depth 12
  show_rows-Quiet selected (entry ∷ rest) =
      Keeps-bind (ask_outcome out entry) _ (ask_outcome-Quiet entry)
        λ who. Keeps-bind (print _) _ (print-Quiet _) λ _. show_rows-Quiet selected rest

  show_servers-Quiet :
      (flag : Option Text) (servers : List NamedServer) → Quiet (show_servers out flag servers)
  unfolding show_servers
  show_servers-Quiet flag [] = search keeps_rules depth 12
  show_servers-Quiet flag (entry ∷ servers) =
      search (keeps_rules, selection-Quiet, show_rows-Quiet, print-Quiet) depth 12

  run_whoami-Quiet : (flag : Option Text) → Quiet (run_whoami out flag)
  unfolding run_whoami
  run_whoami-Quiet flag = search (keeps_rules, list_servers-Quiet, show_servers-Quiet) depth 12

  print_users-Quiet : (now : ℕ) (users : List UserSummary) → Quiet (print_users out now users)
  unfolding print_users
  print_users-Quiet now [] = search keeps_rules depth 12
  print_users-Quiet now (user ∷ users) =
      Keeps-bind (print (user_line out now user)) _ (print-Quiet _) λ _. print_users-Quiet now users

  list_shown-Quiet : (line : Text) (users : List UserSummary) → Quiet (list_shown out line users)
  unfolding list_shown
  list_shown-Quiet line [] = print-Quiet line
  list_shown-Quiet line (user ∷ users) =
      search (keeps_rules, reads-Quiet, print_users-Quiet) depth 12

  list-Quiet : (flag : Option Text) → Quiet (list out flag)
  unfolding list
  list-Quiet flag =
      search (keeps_rules, resolve_server-Quiet, list_users-Quiet, list_shown-Quiet) depth 12

  remove-Quiet : (name : Text) (flag : Option Text) → Quiet (remove out name flag)
  unfolding remove
  remove-Quiet name flag =
      search (keeps_rules, resolve_server-Quiet, remove_user-Quiet, print-Quiet) depth 12

  pub server_project_presence-Quiet :
      (server : ServerConfig) (project : LinkedProject)
      → Quiet (server_project_presence out server project)
  unfolding server_project_presence whoami_presence identity_presence
  server_project_presence-Quiet server project = record {
    from = λ m h. go (whoami out server m).0 _ ((whoami-Quiet server).from m h);
  }
    where
      scoped :
          (o : Option Text) (m : Machine)
          → IsQuiet files asked m
          → IsQuiet files asked (identity_presence out server project o m).1
      scoped (some id) m h = h
      scoped none m h = (list_projects-Quiet server).from m h

      go :
          (r : Result WhoamiOutcome) (m : Machine)
          → IsQuiet files asked m
          → IsQuiet files asked (whoami_presence out server project r m).1
      go (ok (identity who)) m h = scoped who.project_id m h
      go (ok (rejected why)) m h = h
      go (ok unreachable) m h = h
      go (err why) m h = h

-- The commands that only ask the servers.
pub data Query : Type 0 where
  show_whoami : (server : Option Text) → Query
  list_users_of : (server : Option Text) → Query
  remove_user_of : (name : Text) (server : Option Text) → Query

abbrev pub run_query : Outside → Query → Act (Unit {0})
run_query out (show_whoami server) = run_whoami out server
run_query out (list_users_of server) = list out server
run_query out (remove_user_of name server) = remove out name server

-- `whoami`, `user list` and `user remove` change no file and ask nothing, whether they succeed or
-- fail.
pub run_query-IsQuiet :
    (out : Outside) (query : Query) (m : Machine)
    → IsQuiet m.files m.asked (run_query out query m).1
run_query-IsQuiet out (show_whoami server) m =
    (run_whoami-Quiet out m.files m.asked server).from m
      (record { same_files = refl; same_asked = refl })
run_query-IsQuiet out (list_users_of server) m =
    (list-Quiet out m.files m.asked server).from m (record { same_files = refl; same_asked = refl })
run_query-IsQuiet out (remove_user_of name server) m =
    (remove-Quiet out m.files m.asked name server).from m
      (record { same_files = refl; same_asked = refl })
