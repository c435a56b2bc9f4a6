-- ===== src/Lib.antt =====
-- Railyard: the control plane of a deployment server, its wire types, the manifest that it deploys
-- from, and its command line client, modelled from the Rust sources.
--
-- The parts. A client signs each request (packages/auth); the server checks the signature, the
-- clock and the nonce in a middleware (apps/server/src/api/auth.rs) and hands the request to a
-- handler (apps/server/src/api/routes.rs), which works on the database
-- (apps/server/src/api/db). The admin socket reaches the same handlers without signatures. Users
-- come in by single-use invites (apps/server/src/api/invite.rs). What a project deploys is said
-- in a manifest (packages/manifest), with references between the variables of its services. The
-- client (apps/cli) keeps an entry and a key for each server, and for each project the server that it
-- is bound to.
--
-- The files.
--   Base            texts as lists of code points, maps as lists of entries, results, actions on a
--                   state, rows of a table, and what an action keeps
--   Types           packages/types: the records of requests and answers, ReleaseStatus; Status
--   AuthProtocol    packages/auth: canonical_request, InvitePayload; Crates holds the external crates;
--                   RoundTrip
--   Server/Db       apps/server/src/api/db: Schema (the tables), Connection (statements), Users,
--                   Invites, Projects, Releases (the methods of Db); Keyed, Enrolled, Redeeming, Redeemed,
--                   SingleUse, Lost, Removing (what they keep, what a redemption and a removal do)
--   Server/Requests the request, the answer, ApiState of apps/server/src/api/mod.rs
--   Server/Signatures  apps/server/src/api/auth.rs: Headers and Checks (checked_request,
--                   verify_signature, verify_body_hash, redeem_invite); Authentic, Accepted, Signed,
--                   Credible, Replay, Raced
--   Server/Minting  apps/server/src/api/invite.rs
--   Server/Archive  receive_archive of apps/server/src/api/routes.rs; Accepted
--   Server/AdminCli apps/server/src/cli/user.rs: the commands of railyard-server on users; Removal
--   Server/Routes   apps/server/src/api/routes.rs: Names, Handlers, ReleaseHandlers, Router; Keeping,
--                   Soundness, Confinement, Authenticated
--   Manifest        packages/manifest/src: Model (model.rs, link_project and link_github of lib.rs),
--                   Reference (reference.rs), Validate (validate.rs: Names, Services and Whole, with
--                   what they establish; Cycle, the search of find_env_reference_cycle, with Walks,
--                   Visits, Descent, References, Correct), Parse (the entry points of lib.rs)
--   Proxy           apps/server/src/proxy/routing.rs, and the upstreams and is_public of
--                   apps/server/src/config.rs; Hosts
--   Client          apps/cli/src: Paths and Machine (std::path, the disk, the terminal, the network),
--                   Lowercase; Config (config.rs: Names, Places, Stored, Bindings), Signing (auth.rs:
--                   Accepted), Http (http.rs), Resolve (resolve.rs: Manifests, Servers, Offer, Walk),
--                   Login (login.rs: Enrol, Enrolled, Found, Gate, Joined), Init (init.rs: Run, Names), Commands
--                   (link.rs and unlink.rs, whoami.rs, user.rs, up.rs; Confined, Unconfirmed)
--   Examples        a toy server, a toy machine and manifests on which the theorems are run
--
-- How code corresponds. A method of Db is an action: it takes the connection and returns its result
-- with the connection after it. Any statement may fail, by the connection's faults, and what was
-- written before stays written; the code opens no transactions. A handler takes ApiState and returns
-- the answer with the state. An early return is refuse_if, a match on a result of the database
-- with_db. Axum's extraction of paths, queries and JSON is done: a call comes as a value. Clock and
-- random bytes are arguments. checked_request is opened, which ends with the reading of the clock, the
-- lookup of the key, and closing, which takes the lock of the replay map with that reading: Runs puts
-- closings, with readings up to d seconds old, in any order between other changes. checked_request as
-- a whole, the other handlers and the methods of Db are taken as single steps: two of them in flight at
-- once, one at an await of the other, are not modelled.
--
-- The client. A command is an action on a Machine: files by their paths, the lines printed, the
-- questions asked, the requests sent. Outside holds what the client does not decide: libraries, the
-- environment, the clock, random bytes, the answers of the user and of the network, which may depend on
-- all that has been done. A path may be refused by the system, and a missing file is told from other
-- errors where the code does. The index of a choice past the end of its list, which ends the program,
-- is an error. A terminal is the argument interactive.
--
-- Numbers. u64 and u32 values are natural numbers; where the database compares them as i64, the bit
-- patterns are compared. Sums of clock times are taken below 2 ^ 64.
--
-- Fuel. parse_references recurs on fuel, one more than the length of the value, and each round takes
-- off at least three characters. The search for cycles nests its calls no deeper than there are
-- services, one more than which is its fuel, since a nested call is of a service without a state.
-- find_manifest climbs by at most the length of its path, since a parent is shorter; so does the search
-- for a directory .git.
--
-- Not modelled: sockets, the start of the processes, the proxy's connections,
-- serde and the crates behind Crates, Json, Urls and Formats, whose fields stand for any functions; the
-- walk over a repository and its archive (ignore and tar); the directories of the disk but for their
-- files; the dispatch of the command line.
pub mod Base
pub mod Types
pub mod AuthProtocol
pub mod Server
pub mod Manifest
pub mod Proxy
pub mod Client
pub mod Examples
