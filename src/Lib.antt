-- ===== src/Lib.antt =====
-- OneAuth, a single sign-on server: the core of its OAuth 2.0 and OpenID Connect provider.
--
-- The program (sso-server) keeps its short-lived state, which is authorization codes, refresh
-- tokens, revoked token ids and sessions, in a key/value store with expiry, and its users, clients
-- and grants in a database. Its HTTP handlers read both, sign JSON web tokens and answer.
--
--   Base        Shared names, Boolean tests, Go's strings as lists of bytes, Go's signed integers,
--               and `Flow`, a handler that may answer early.
--   Model       internal/model and the lookups of internal/repository: users, clients with the
--               match of redirect URIs, and the values that the store holds.
--   Store       internal/oauth/store.go: the interface with its laws, and MemoryStore, which keeps
--               them. Everything above the store is proved over any store that keeps the laws.
--   Oauth       internal/oauth: authcode.go (Code), token.go (Token), and the JWT library as an
--               interface with its laws (Jwt).
--   Session     internal/session/session.go.
--   LoginRule   internal/repository/loginrule_repo.go: Evaluate, which login is let in.
--   Account     internal/service/user_service.go and ldap_service.go: lookup, password and lock of a
--               user, the policy of passwords and how one is set (Password), users who are made,
--               deleted and locked by an administrator (Users), and the local side of a login by
--               directory (Ldap).
--   DirectorySync
--               internal/service/directory_sync_service.go: values of a remote directory (Fields),
--               login names and addresses that are free (Names, Unique, Email), paths and
--               departments (Paths, Departments), a remote user who is applied (Remote, Rows,
--               Users), users who are missing (Missing), and names that are typed over (Conflict).
--   IpAccess    internal/repository/misc_repo.go: the black list of addresses and its automatic ban.
--   Handler     internal/handler/oauth_handler.go and session_helpers.go: what handlers read and
--               change (Env), the authorization endpoint (Authorize), the token endpoint (Grant),
--               bearer tokens, revocation and logout (Bearer), and the flow from end to end
--               (CodeFlow); internal/handler/auth_handler.go: Login with its settings (Settings,
--               Login), Refresh and Logout (Renew), and the reset of a password (PasswordReset);
--               internal/handler/cas_handler.go: the tickets of CAS (Cas);
--               internal/handler/misc_handler.go: the tree of departments (Departments).
--   Middleware  internal/middleware/auth.go: JWTAuth and the gates of the administration.
--   Tests       Concrete inputs, and each theorem with a hypothesis applied at one.
--
-- How the state corresponds: a handler is a function of an `Env` (database rows, configuration, and
-- the functions of packages uuid, bcrypt, unicode, sha256, url, net and ldap, which are parameters),
-- the clock, the random values it draws (`Fresh`), the request, and a `World` (store, session index,
-- consents, access log; for Login an `AuthWorld` with the rows of users, bans and logins); it
-- returns its answer and the new world. A synchronisation is a function of its configuration and of
-- the rows that it reads and changes (`SyncState`). Times are nanoseconds since the epoch, and the
-- unix seconds of claims and codes are computed from them. A time.Duration is an integer, and the
-- product of a configured number of seconds is taken in int64, with its wrap-around. A text is its
-- bytes; literals that are not ASCII are given by code points, and by their bytes where a text is
-- searched for them.
--
-- A stored byte string is represented by the value that was marshalled into it: encoding/json is
-- taken to return what was written, and a decoder says what it makes of a value of another kind.
-- Failures of the store are `none`; where the source drops such an error the model does too. Only
-- a deletion is taken to succeed: that of Redis may fail, and its callers drop the error, so the
-- results on codes, tickets, links and tokens that were used say nothing of a deletion that
-- failed. Most loops run over a list. Those that count up to a free name have one round of fuel
-- more than there are users, the one that takes out double slashes has one for each byte, and the
-- walk of Move up the tree takes its fuel as an argument; that this is enough is part of the
-- results, except for the numbering of an address in a conflict (Conflict).
--
-- Not modelled: HTTP itself (headers, cookies that are set, the JSON and XML that is written), SQL
-- and its errors, RSA and the signature, the region of an access log entry, and the parts of the
-- program that the manifest lists as such. Requests are served one at a time, except in
-- Grant/Race, which cuts the exchange of a code at the read and runs the steps of two requests in
-- any order.
pub mod Base
pub mod Account
pub mod IpAccess
pub mod Model
pub mod Store
pub mod Oauth
pub mod Session
pub mod Handler
pub mod LoginRule
pub mod Middleware
pub mod Tests
pub mod DirectorySync
