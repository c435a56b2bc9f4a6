-- ===== src/Client/Commands/Unconfirmed.antt =====
-- `up` and `link` on a server that is not confirmed to have the project.
use railyard.Base.{
  ◌≡◌, ◌≢◌, refl, ap, ◌∙◌, Text, Option, Result, ok, err, raise, lift, continue, ◌>>=◌, ◌>>◌,
}
use railyard.Client.Machine.{Machine, Act, Outside}
use railyard.Client.Resolve.Manifests.{LinkedProject}
use railyard.Client.Resolve.Servers.{
  NamedServer, ProjectPresence, present, absent, unknown, server_project_presence,
}
use railyard.Client.Commands.Link.{link_chosen, link_checked}
use railyard.Client.Commands.Up.{deploy, must_have, upload}
use railyard.Client.Commands.Confined.{server_project_presence-Quiet}

-- The action fails where the check ends, and leaves the files as they are.
pub record IsRefused (action : Act (Unit {0})) (check : Act ProjectPresence) (m : Machine)
    : Type 0 where
  pub reason : Text
  pub fails : (action m).0 ≡ err reason
  pub ends : (action m).1 ≡ (check m).1
  pub files : (action m).1.files ≡ m.files

module _ (out : Outside) (project : LinkedProject) (entry : NamedServer) where
  abbrev check : Act ProjectPresence
  check = server_project_presence out entry.1 project

  -- after a check that does not find the project, nothing more happens
  stops :
      (next : ProjectPresence → Act (Unit {0}))
      → ((m : Machine) → (why : Text) × (next absent m ≡ (err why, m)))
      → ((reason : Text) (m : Machine) → (why : Text) × (next (unknown reason) m ≡ (err why, m)))
      → (r : Result ProjectPresence) (m : Machine) → r ≢ ok present
      → (why : Text) × (continue r next m ≡ (err why, m))
  stops next gone unsure (err why) m h = (why, refl)
  stops next gone unsure (ok present) m h = absurd (h refl)
  stops next gone unsure (ok absent) m h = gone m
  stops next gone unsure (ok (unknown reason)) m h = unsure reason m

  checked-IsRefused :
      (next : ProjectPresence → Act (Unit {0}))
      → ((m : Machine) → (why : Text) × (next absent m ≡ (err why, m)))
      → ((reason : Text) (m : Machine) → (why : Text) × (next (unknown reason) m ≡ (err why, m)))
      → (m : Machine) → (check m).0 ≢ ok present
      → IsRefused (check >>= next) check m
  unfolding ◌>>=◌
  checked-IsRefused next gone unsure m h =
      let r = check m in
      let (why, same) = stops next gone unsure r.0 r.1 h in
      record {
        reason = why;
        fails = ap (λ x. x.0) same;
        ends = ap (λ x. x.1) same;
        files =
            ap (λ x. x.1.files) same
            ∙ ((server_project_presence-Quiet out m.files m.asked entry.1 project).from m
                (record { same_files = refl; same_asked = refl })).same_files;
      }

  -- On a server that is not confirmed to have the project, `up` packs and sends nothing after
  -- the check and `link` records nothing: both fail there, with the files as they were.
  pub unconfirmed-IsRefused :
      (message : Option Text) (root : Text) (m : Machine)
      → (check m).0 ≢ ok present
      → IsRefused (deploy out message root project entry) check m
        × IsRefused (link_chosen out project entry) check m
  unfolding deploy link_chosen link_checked must_have lift raise ◌>>=◌
  unconfirmed-IsRefused message root m h = (
    checked-IsRefused
        (λ presence.
          lift (must_have out project entry presence) >> upload out message root project entry)
        (λ m'. (_, refl)) (λ reason m'. (_, refl)) m h,
    checked-IsRefused (link_checked out project entry) (λ m'. (_, refl)) (λ reason m'. (_, refl)) m
        h,
  )
