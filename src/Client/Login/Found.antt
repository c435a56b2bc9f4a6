-- ===== src/Client/Login/Found.antt =====
-- What the search of the stored entries for an identity answers.
use railyard.Base.{
  ◌≡◌, ◌⊎◌, ap, Bool, true, Bool-cases, Text, text_eq, text_eq_iff, Option, none, some, List, [],
  ◌∷◌, Result, ok, err, inl, inr, pure, In,
}
use mathlib.Core.Path.{subst}
use railyard.Types.{WhoamiResponse}
use railyard.Client.Machine.{ServerConfig, Machine, Act, Outside}
use railyard.Client.Http.{WhoamiOutcome, identity, rejected, unreachable, whoami}
use railyard.Client.Login.{confirmed_identity, found_identity, find_identity}
use railyard.Client.Resolve.Servers.{NamedServer}

confirmed_identity-eq-some :
    (r : Result WhoamiOutcome) {who : WhoamiResponse}
    → confirmed_identity r ≡ some who
    → r ≡ ok (identity who)
unfolding confirmed_identity
confirmed_identity-eq-some (ok (identity who)) h = cc
confirmed_identity-eq-some (ok (rejected _)) h = cc
confirmed_identity-eq-some (ok unreachable) h = cc
confirmed_identity-eq-some (err _) h = cc

found_identity-cases :
    (out : Outside) (wanted : WhoamiResponse → Bool) (entry name : Text) (o : Option WhoamiResponse)
    (later : Act (Option (Text × WhoamiResponse))) (m : Machine) {who : WhoamiResponse}
    → (found_identity out wanted entry o later m).0 ≡ ok (some (name, who))
    → ((later m).0 ≡ ok (some (name, who)))
      ⊎ ((name ≡ entry) × (o ≡ some who) × (wanted who ≡ true))
unfolding found_identity pure
found_identity-cases out wanted entry name none later m h = inl h
found_identity-cases out wanted entry name (some w) later m {who} h = elim (Bool-cases (wanted w)) [
  | inl e ↦
      let found : ◌≡◌ {A = Result (Option (Text × WhoamiResponse))} (ok (some (entry, w)))
          (ok (some (name, who))) =
        rw e at h in
      let same : w ≡ who = cc in inr (cc, ap some same, subst (λ x. wanted x ≡ true) same e)
  | inr f ↦ inl (rw f at h)
]

module _ (out : Outside) where
  -- the entry is listed, is of the URL, and its server names a wanted user
  pub record IsConfirmed (wanted : WhoamiResponse → Bool) (url : Text) (servers : List NamedServer)
      (name : Text) (who : WhoamiResponse) : Type 0 where
    pub server : ServerConfig
    pub asked_in : Machine
    pub listed : In (name, server) servers
    pub there : server.server_url ≡ url
    pub named : (whoami out server asked_in).0 ≡ ok (identity who)
    pub wanted_one : wanted who ≡ true

  later-IsConfirmed :
      (wanted : WhoamiResponse → Bool) (url : Text) (first : NamedServer)
      (servers : List NamedServer) (name : Text) (who : WhoamiResponse)
      → IsConfirmed wanted url servers name who
      → IsConfirmed wanted url (first ∷ servers) name who
  later-IsConfirmed wanted url first servers name who c = record {
    server = c.server;
    asked_in = c.asked_in;
    listed = inr c.listed;
    there = c.there;
    named = c.named;
    wanted_one = c.wanted_one;
  }

  -- An identity that the search of a list of entries answers is wanted, and the server of a listed
  -- entry of that name and of the URL has named it in answer to a signed request.
  pub find_identity-IsConfirmed :
      (wanted : WhoamiResponse → Bool) (url : Text) (servers : List NamedServer) (m : Machine)
      (name : Text) (who : WhoamiResponse)
      → (find_identity out wanted url servers m).0 ≡ ok (some (name, who))
      → IsConfirmed wanted url servers name who
  unfolding find_identity pure
  find_identity-IsConfirmed wanted url [] m name who h = cc
  find_identity-IsConfirmed wanted url ((entry, server) ∷ rest) m name who h =
      let here : NamedServer = (entry, server) in
      let further : (m' : Machine)
          → (find_identity out wanted url rest m').0 ≡ ok (some (name, who))
          → IsConfirmed wanted url (here ∷ rest) name who =
        λ m' k.
          later-IsConfirmed wanted url here rest name who
            (find_identity-IsConfirmed wanted url rest m' name who k) in
      elim (Bool-cases (text_eq server.server_url url)) [
        | inr f ↦ further m (rw f at h)
        | inl same ↦
            elim (found_identity-cases out wanted entry name
              (confirmed_identity (whoami out server m).0) (find_identity out wanted url rest)
              (whoami out server m).1 (rw same at h)) [
                | inl k ↦ further _ k
                | inr (e, answer, fits) ↦ record {
                  server = server;
                  asked_in = m;
                  listed = inl (ap (λ n. (n, server)) e);
                  there = (text_eq_iff server.server_url url).0 same;
                  named = confirmed_identity-eq-some _ answer;
                  wanted_one = fits;
                }
              ]
      ]
