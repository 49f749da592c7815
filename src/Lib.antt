-- ===== src/Lib.antt =====
-- Verification of the server side of hss-science (server/services): the blob service, which hands out
-- presigned URLs for content-addressed blobs; the identity service, an OpenID provider with logins at
-- other providers and a service for accounts; and the backend of the account page (myaccount-bff).
--
-- How the parts interact. A gRPC call of the blob service passes the interceptor
-- (Blob/Interceptor), reaches a method of the server (Blob/Server), which calls a use case (Blob/App)
-- and translates its result; use cases read and write the table `blobs` (Blob/Repo) and ask the
-- object storage, a parameter (Blob/Storage), for URLs. In the identity service the token repository
-- (Oidc/TokenRepo) issues, rotates and revokes tokens, and the device sessions
-- (Oidc/DeviceRepo) group a user's refresh tokens by browser; both work on the same tables
-- (Oidc/Tables), so revoking a session ends the refresh tokens bound to it. The services
-- (Oidc/Services) add lifetimes, hashes and fresh identifiers, and the adapter (Oidc/Adapter,
-- Oidc/Claims, Oidc/ClientAdapter) is what the OpenID library calls: auth requests and codes, tokens,
-- user info. Hash functions, random generators and the source of user claims are parameters.
-- Users (Identity/Users, Identity/Service) are found or made at a login by their federated
-- identity, may override the name and the picture that a provider claims, and may unlink an identity
-- (Identity/Providers). A login (Authn/Handler) goes to a provider and comes back with a sealed state
-- (Authn/Cipher); the callback finds the user from the provider's claims (Authn/Providers), the device
-- session by the dsid cookie, and marks the auth request as done. The account service
-- (Account/Handler) stands behind a JWT interceptor (Account/Interceptor).
-- The backend of the account page keeps its sessions in Redis (Bff/Sessions); its middleware
-- (Bff/Auth) reads a request's session and refreshes its tokens at the provider, a parameter, under a
-- lock; Bff/Login logs in and out, and Bff/Pages answers the page by calls of the account service
-- (Bff/Accounts), which Account/Remote joins to the service behind its interceptor. Loops that run
-- beside the servers delete what has expired (Oidc/Cleanup). Each service reads its configuration from
-- the environment (Config/Identity, Config/Bff, Config/Blob).
--
-- Files and code:
--   Base            results, actions (`(T, error)` beside a state), texts, the database of Base/Sql
--   Grpc, Domerr    status codes; server/services/identity-service/internal/pkg/domerr/errors.go
--   Blob/Domain     server/services/blob-service/internal/domain/{blob,errors}.go
--   Blob/Storage    server/services/blob-service/internal/domain/storage.go
--   Blob/Repo       server/services/blob-service/internal/repository/postgres/blob_repo.go
--   Blob/App        server/services/blob-service/internal/app/blob_app.go
--   Blob/Server     server/services/blob-service/internal/transport/grpc/server.go
--   Blob/Interceptor server/services/blob-service/internal/transport/grpc/interceptor/auth.go
--   Oidc/Domain     server/services/identity-service/internal/oidc/domain.go
--   Oidc/Tables     the tables of server/services/identity-service/migrations
--   Oidc/TokenRepo  server/services/identity-service/internal/oidc/postgres/token_repo.go
--   Oidc/DeviceRepo server/services/identity-service/internal/oidc/postgres/device_session_repo.go
--   Oidc/AuthRepo   server/services/identity-service/internal/oidc/postgres/{authrequest,client}_repo.go
--   Oidc/Services   server/services/identity-service/internal/oidc/{authrequest,client,token,device_session}_svc.go
--   Oidc/Adapter, Oidc/Claims, Oidc/ClientAdapter
--                   server/services/identity-service/internal/oidc/adapter
--   Bff/Sessions    server/services/myaccount-bff/internal/session/{model,store}.go
--   Bff/Auth        server/services/myaccount-bff/internal/middleware/auth.go
--   Identity/Users  server/services/identity-service/internal/identity/{domain.go,postgres/user_repo.go}
--   Identity/Service server/services/identity-service/internal/identity/service.go
--   RateLimit       server/services/identity-service/internal/middleware/ratelimit.go
--   Identity/Providers server/services/identity-service/internal/identity/{service.go,postgres/user_repo.go}
--   Account/Handler, Account/Interceptor, Account/Remote
--                   server/services/identity-service/internal/grpc
--   Authn/Device, Authn/Providers, Authn/Handler
--                   server/services/identity-service/internal/authn
--   Authn/Cipher    server/services/identity-service/internal/pkg/crypto/aes.go
--   Oidc/Cleanup    server/services/identity-service/main.go
--   Config/Identity server/services/identity-service/config/config.go
--   Config/Bff      server/services/myaccount-bff/config/config.go
--   Config/Blob     server/services/blob-service/config/config.go
--   Bff/Accounts    server/services/myaccount-bff/internal/{accounts/client.go,handler/errors.go}
--   Bff/Pages       server/services/myaccount-bff/internal/{handler,middleware/csrf.go}
--   Bff/Login       server/services/myaccount-bff/internal/{handler/auth.go,oidcrp/client.go}
--   Oidc/Schema     the constraints of server/services/identity-service/migrations/1_initial.up.sql
--   Oidc/Calls      calls of the repositories that write, one after the other
--   Bff/Exclusion   the steps of requests that share the refresh lock, over Bff/Sessions
--   Oidc/Grants     what codes and tokens stand for, told without the code
-- Most methods keep their Go names, in snake_case. The other files of these folders hold theorems, and
-- Tests runs them at concrete worlds.
--
-- The database. A table is a list of rows; a statement is one atomic step that may fail, as a
-- schedule of faults says, which the theorems leave open or empty as they state. A transaction
-- rolls back on an error. Constraints of the migrations (primary keys, unique columns, foreign
-- keys) refuse an insert. The clock stands still during one call, but for the sleep in Bff/Auth.
-- Every loop is by recursion on a list or a counter, so no fuel is needed.
--
-- Not modelled: log lines, contexts and their deadlines, transactions that run at the same time,
-- encodings of gRPC, HTTP and JSON (the theorems take the decoded parts), the start of the programs and
-- the set-up of the OIDC library, which only wire or wrap libraries, and the client of the object
-- storage, which builds requests for the AWS SDK. Ciphers, signatures, hashes, oauth2 and the
-- providers' servers are parameters.
pub mod Base
pub mod Grpc
pub mod Domerr
pub mod Oidc
pub mod Blob
pub mod Bff
pub mod Identity
pub mod RateLimit
pub mod Account
pub mod Authn
pub mod Config
mod Tests
