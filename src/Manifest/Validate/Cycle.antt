-- ===== src/Manifest/Validate/Cycle.antt =====
-- `find_env_reference_cycle` of packages/manifest/src/validate.rs: a depth-first search over the
-- references of variables to variables of other services.
pub mod Walks
pub mod Visits
pub mod Descent
pub mod References
pub mod Correct
use railyard.Base.{
  ℕ, zero, suc, ◌++◌, text_eq, unwrap_or, length, get, contains_key, insert, Text, Option, none,
  some, List, [], ◌∷◌, Result, ok, err, if◌then◌else◌,
}
use railyard.Manifest.Model.{Service, RailyardManifest}
use railyard.Manifest.Reference.{
  Reference, service_host, service_port, service_url, service_env, secret, parse_references,
}

abbrev pub Edges : Type 0
Edges = List (Text × List Text)

-- `edges.get(node).into_iter().flatten()`
unfoldable pub targets : Edges → Text → List Text
targets edges node = unwrap_or [] (get node edges)

-- `edges.entry(name).or_default().push(target)`
unfoldable pub push : Text → Text → Edges → Edges
unfolding targets
push name target edges = insert name (targets edges name ++ target ∷ []) edges

-- a loop that changes the edges
unfoldable pub for_each : {A : Type 0} → (A → Edges → Edges) → List A → Edges → Edges
for_each change [] edges = edges
for_each change (a ∷ rest) edges = for_each change rest (change a edges)

module _ (services : List (Text × Service)) where
  -- one reference, kept if it is to a variable of a service of the manifest
  unfoldable pub push_reference : Text → Reference → Edges → Edges
  unfolding push
  push_reference name (service_env target _) edges =
      if contains_key target services then push name target edges else edges
  push_reference name (service_host _) edges = edges
  push_reference name (service_port _) edges = edges
  push_reference name (service_url _) edges = edges
  push_reference name (secret _) edges = edges

  -- a value that does not parse is passed over
  unfoldable pub push_parsed : Text → Result (List Reference) → Edges → Edges
  unfolding push_reference for_each
  push_parsed name (err _) edges = edges
  push_parsed name (ok references) edges = for_each (push_reference name) references edges

  unfoldable pub push_value : Text → Text × Text → Edges → Edges
  unfolding push_parsed
  push_value name (_, value) edges = push_parsed name (parse_references value) edges

  unfoldable pub push_service : Text × Service → Edges → Edges
  unfolding push_value for_each
  push_service (name, s) edges = for_each (push_value name) s.env edges

unfoldable pub edges_of : RailyardManifest → Edges
unfolding push_service for_each
edges_of m = for_each (push_service m.services) m.services []

pub data VisitState : Type 0 where
  visiting done : VisitState

pub record Search : Type 0 where
  pub states : List (Text × VisitState)
  pub stack : List Text

abbrev pub Visit : Type 0
Visit = Option (List Text) × Search

-- the stack from the first place of the node on, where it has one
unfoldable pub from_first : Text → List Text → Option (List Text)
from_first node [] = none
from_first node (x ∷ stack) = if text_eq x node then some (x ∷ stack) else from_first node stack

unfoldable pub cycle_at : Text → List Text → List Text
unfolding from_first
cycle_at node stack = unwrap_or stack (from_first node stack) ++ node ∷ []

unfoldable pub pop : List Text → List Text
pop [] = []
pop (x ∷ []) = []
pop (x ∷ y ∷ stack) = x ∷ pop (y ∷ stack)

abbrev pub enter : Text → Search → Search
enter node s = record { states = insert node visiting s.states; stack = s.stack ++ node ∷ [] }

-- what follows the loop over the targets
unfoldable pub leave : Text → Visit → Visit
unfolding pop
leave node (some cycle, s) = (some cycle, s)
leave node (none, s) = (none, record { states = insert node done s.states; stack = pop s.stack })

abbrev pub go_on : Visit → (Search → Visit) → Visit
go_on (some cycle, s) rest = (some cycle, s)
go_on (none, s) rest = rest s

-- a loop that ends at the first cycle
unfoldable pub visit_all : (Text → Search → Visit) → List Text → Search → Visit
visit_all visit_one [] s = (none, s)
visit_all visit_one (node ∷ nodes) s = go_on (visit_one node s) (visit_all visit_one nodes)

-- `match states.get(node)`, with what follows it
unfoldable pub by_state : Text → (Search → Visit) → Option VisitState → Search → Visit
unfolding cycle_at
by_state node rest (some done) s = (none, s)
by_state node rest (some visiting) s = (some (cycle_at node s.stack), s)
by_state node rest none s = rest s

-- `visit`, on fuel
unfoldable pub visit : Edges → ℕ → Text → Search → Visit
unfolding targets by_state leave visit_all
visit edges zero node s = (none, s)
visit edges (suc fuel) node s =
    by_state node
      (λ t. leave node (visit_all (visit edges fuel) (targets edges node) (enter node t)))
      (get node s.states) s

abbrev pub unvisited : Search
unvisited = record { states = []; stack = [] }

-- `order` gives the keys in the order in which the hash map is iterated. A nested call is of a node
-- without a state, so that calls nest no deeper than there are services.
unfoldable pub find_env_reference_cycle :
    (order : Edges → List Text) → RailyardManifest → Option (List Text)
unfolding visit visit_all edges_of
find_env_reference_cycle order m =
    (visit_all (visit (edges_of m) (suc (length m.services))) (order (edges_of m)) unvisited).0
