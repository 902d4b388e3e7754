-- ===== src/Lib.antt =====
-- The verification library of KeyLore, a broker that lets agents use credentials without seeing
-- them.
--
-- It models the path that a request takes through the broker, and the services that the path
-- relies on. `BrokerService` (src/services/broker-service.ts) evaluates a request: it looks the
-- credential up, has the egress policy validate the target and the policy engine decide over the
-- rules of the credential's tenant, and writes an audit record. A live request is then denied,
-- put before the reviewers (approval service), or executed: an adapter resolves the secret, and
-- `fetch` is called with it. A break-glass grant, which other reviewers activate, overrides the
-- decision for a time. Who calls, and with which scopes and roles, is what `AuthService`
-- (src/services/auth-service.ts) made of a bearer token; it issues the tokens to clients against
-- secrets, signed assertions, authorization codes and refresh tokens, and takes them back.
-- `RotationService` (src/services/rotation-service.ts) replaces the secret behind a credential,
-- in runs that are planned, started, and completed or failed.
--
-- Files and code:
--   Domain, Domain/Access, Domain/Reviews, Domain/Config, Domain/Auth, Domain/Rotation: the
--     records of src/domain/types.ts and the settings of src/config.ts; a JSON field `camelCase`
--     is the field `snake_case`.
--   Policy: `matchPattern`, `ruleMatches` and `PolicyEngine.evaluate` of
--     src/services/policy-engine.ts.
--   Egress, Egress/Address: `validateEgressTarget` of src/services/egress-policy.ts and its
--     tests.
--   World: the state that the services share, the tables as lists in the order of insertion.
--   World/Host: what the code calls outside the repository, as parameters.
--   Exec: methods as functions of the state that return or throw; what was written before a throw
--     stays.
--   Audit: `record` of src/repositories/pg-audit-log.ts.
--   Notifications: `send` of src/services/notification-service.ts.
--   Fingerprint: src/services/access-fingerprint.ts; Fingerprint/Binding: what equal fingerprints
--     say.
--   Approvals/Table: the statements of src/repositories/pg-approval-repository.ts;
--     Approvals/Service: the methods of src/services/approval-service.ts.
--   BreakGlass/Table, BreakGlass/Service: src/repositories/pg-break-glass-repository.ts and
--     src/services/break-glass-service.ts.
--   Broker: `evaluateAccess`; Broker/Access: `requestAccess`, `simulateAccess` and
--     `executeAllowedRequest`; Broker/Proxy: `executeProxyRequest` and its helpers.
--   RateLimit: `check` and `cleanup` of src/services/rate-limit-service.ts, on a table of their
--     own; what other transactions commit between the two statements of a check is an argument.
--   Auth/Tables: src/repositories/pg-auth-client-repository.ts and the lookup of a tenant;
--     Auth/Tables/Access, Auth/Tables/Refresh, Auth/Tables/Codes: the statements of the
--     repositories of access tokens, refresh tokens and authorization codes; Auth/Statements: the
--     same as steps on the shared state, with the table of used assertions.
--   Auth/Scopes, Auth/Assertion, Auth/Issue, Auth/Authorize, Auth/Exchange, Auth/Bearer,
--     Auth/Clients: src/services/auth-service.ts in the order of the file, with
--     src/services/auth-secrets.ts in Auth/Assertion. `issueToken` is `issue_token` of
--     Auth/Exchange, one function for each grant type.
--   Rotation/Table: src/repositories/pg-rotation-run-repository.ts; Rotation/Credentials:
--     `getById`, `update` and the listing of src/repositories/pg-credential-repository.ts;
--     Rotation/Service, Rotation/Plan: the methods of src/services/rotation-service.ts, `planDue`
--     in the latter.
--   Tenants: src/services/tenant-service.ts and src/repositories/pg-tenant-repository.ts.
--   Prelude, Prelude/Tests, Prelude/Lists, Prelude/Text: shared tests, list and string functions.
--   Fixtures and the modules called Tests: concrete inputs, runs and instances of the theorems.
-- The other modules hold proofs and are named for what they are about.
--
-- Parameters: lower-casing, the URL parser, `net.isIP`, the DNS lookup, `randomUUID` (the n-th
-- identifier drawn, counted in the state), SHA-256 of the fingerprint's JSON text, HMAC, `fetch`,
-- the adapters, UTF-8 decoding and the patterns of `redactText`; for the auth and rotation
-- services also random bytes (the n-th draw, counted likewise), SHA-256 of secrets as hex and
-- base64url text, scrypt, the parsing of a JSON web token and the check of its signature, the
-- inspection of a secret by an adapter, the parse of a credential patch and `trim`; for the
-- tenant service the database's order of texts, as for the credentials that `planDue` goes
-- through; the further requests by which `fetch` follows redirects, the schema of a public key,
-- and the pattern of an environment variable's name. Nothing is assumed of them, except where a
-- theorem names a hypothesis.
--
-- Choices: `Date.now()` and SQL `NOW()` read one clock, which stands still during a call and
-- moves only between calls; a call runs to its end before the next one starts, and a statement or
-- transaction is one step, except in the rate limiter. The hash of a client's secret is the text
-- that `hashSecret` writes. No method deletes a client or a tenant, so that foreign keys always
-- hold. The auth tables are changed besides by maintenance, whose clean-up is a step of the
-- history of Auth/History. A table with a primary key is updated at the first row with the key. A
-- row is written as the schema accepts it, and the check of the schema on reading it back is not
-- repeated. An outgoing request is what the code hands to `fetch`, whose own treatment of header
-- names is not modelled. All loops are structural recursion, so there is no fuel.
--
-- Not modelled: failures of the database, timeouts, spans and metrics other than that of
-- notification deliveries; the catalogue methods, reports and sandbox runs of the broker; of the
-- auth service the metadata documents, the listing and counting of clients and the touch of a
-- refresh token; of the rotation service the listing of runs; two handlers of the auth or
-- rotation service interleaved; the maintenance, backup and core mode services, the adapters,
-- servers, command line and admin interface, of which nothing is read here except what the
-- parameters stand for.
pub mod Prelude
pub mod Exec
pub mod Domain
pub mod Policy
pub mod Egress
pub mod World
pub mod Audit
pub mod Notifications
pub mod Fingerprint
pub mod Approvals
pub mod BreakGlass
pub mod Broker
pub mod RateLimit
pub mod Auth
pub mod Rotation
pub mod Tenants
pub mod Fixtures
