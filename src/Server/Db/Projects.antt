-- ===== src/Server/Db/Projects.antt =====
-- apps/server/src/api/db/project.rs
use mathlib.Core.Option
use railyard.Base.{
  pure, ◌>>=◌, ◌>>◌, false, ℕ, ◌++◌, ◌&&◌, ◌||◌, not, Bool, Text, txt, text_eq, text_lt, Option,
  none, some, List, map, find, is_some, sort_by, if◌then◌else◌,
}
use railyard.AuthProtocol.{Crates}
use railyard.Server.Db.Schema.{ProjectRow, insert_project, i64_lt}
use railyard.Server.Db.Connection.{Action, query, execute}

pub record Project : Type 0 where
  pub id : Text
  pub name : Text
  pub created_at : ℕ

project_from_row : ProjectRow → Project
project_from_row p = record { id = p.id; name = p.name; created_at = p.created_at }

unfoldable pub project_by_id : Text → Action (Option Project)
unfolding project_from_row
project_by_id id =
    query (λ t. Option.map project_from_row (find (λ (p : ProjectRow). text_eq p.id id) t.projects))

unfoldable pub project_id_by_name : Text → Action (Option Text)
project_id_by_name name =
    query (λ t. Option.map (λ (p : ProjectRow). p.id) (find (λ p. text_eq p.name name) t.projects))

unfoldable pub new_project_id : Crates → List ℕ → Text
new_project_id crates bytes = txt "prj_" ++ crates.hex_encode bytes

-- whether a project has the id that the request keeps, if it keeps one
unfoldable pub id_taken : Option Text → Action Bool
unfolding project_by_id
id_taken none = pure false
id_taken (some id) = do found ← project_by_id id; pure (is_some found)

abbrev pub id_or_new : Crates → List ℕ → Option Text → Text
id_or_new crates bytes none = new_project_id crates bytes
id_or_new crates bytes (some id) = id

unfoldable pub insert_new : Text → Text → ℕ → Action (Option Project)
insert_new id name now = do
  execute (insert_project (record { id = id; name = name; created_at = now }))
  pure (some (record { id = id; name = name; created_at = now }))

unfoldable pub create_project : Crates → List ℕ → Text → Option Text → ℕ → Action (Option Project)
unfolding project_id_by_name id_taken insert_new new_project_id
create_project crates bytes name id now = do
  same_name ← project_id_by_name name
  if is_some same_name then pure none else do
    same_id ← id_taken id
    if same_id then pure none else insert_new (id_or_new crates bytes id) name now

-- `ORDER BY created_at, name`
unfoldable pub project_before : ProjectRow → ProjectRow → Bool
project_before a b =
    i64_lt a.created_at b.created_at
    || not (i64_lt b.created_at a.created_at) && not (text_lt b.name a.name)

unfoldable pub list_projects : Action (List Project)
unfolding project_from_row
list_projects = query (λ t. map project_from_row (sort_by project_before t.projects))
