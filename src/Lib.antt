-- ===== src/Lib.antt =====
-- A model of the TLS proxy of this repository: the checks of its configuration, how a connection
-- finds its backend and whether it is let in, what becomes of an HTTP request, the OpenID Connect
-- server, the certificate authority, the checks of OCSP, the signing keys of tokens, and the
-- counters behind the metrics.
--
-- The parts and how they interact. A connection comes in with a server name and protocols;
-- `Proxy.backend` finds its backend, `verifyConnection` asks the backend's PKI managers or the OCSP
-- cache whether its certificate is revoked and the backend's access list whether it is authorized,
-- and the backend hands it to its HTTP server or dials a server for it. After a change of the
-- configuration `reAuthorize` goes over the open connections. The OpenID Connect server gives users
-- who are logged in tokens that the token manager signs. The table of backends is made of a
-- configuration that `Check` has accepted. A backend's HTTP server finds out who the user is,
-- enforces the single sign-on policy, and answers, sends a file or forwards the request.
--   Prelude: lists, options, tests, maps, and the results of calls that can fail or panic.
--   Counter: proxy/internal/counter/counter.go. A counter's state is `Counter`, `New` is `new`, and
--     `Value`, `Incr`, `Rate` and `advance` carry their names. History tells a counter from a log.
--   Backend: proxy/backend.go and the types of proxy/config.go. Access has `authorize` and `checkIP`;
--     Lifecycle has `incInFlight`, `close` and the `Close` of proxy/http.go's listener as steps, with
--     proofs in Draining and Shutdown; Dial has the loop of `dial`, with proofs in RoundRobin and
--     Coverage.
--   Config: proxy/config.go. `check` is `Check`, from the configuration as it is read to the one
--     that is used. Providers, Names and Backends have its loops; Check.Run and Check.Passed take a
--     run that succeeds apart; Check.Distinct, Routes, Collected and Sound have the proofs.
--   Http: proxy/backend-http.go, proxy/backend-sso.go. A handler goes on or has replied. Paths has
--     `pathClean`, Static `serveStaticFiles`, SignOn `authenticateUser` and `enforceSSOPolicy`,
--     Handlers `localHandler` and the handler of `reverseProxy`, Xfcc the client certificate header of
--     proxy/xfcc.go; Clean, Inside, Refusing, Guard, Forwarding and Header have the proofs.
--   Routing: proxy/proxy.go. `register` is the loop of `Reconfigure` that fills the table of
--     backends; `backend`, `verify_connection` and `reauthorize` are the functions of that name.
--   Connections: proxy/proxy.go. `handle_connection` and what it calls, up to the backend's HTTP
--     server or the connection with its server; what crypto/tls agrees on is a parameter. Chosen,
--     Steps and Admitted have the proofs.
--   Oidc: proxy/internal/oidc/server.go. `serve_authorization`, `serve_token` and `serve_user_info`
--     are the handlers, from the parsed request to the answer and the next state; Scopes has the
--     claims; Granting, Codes, Exchange, Tokens, UserInfo and Provenance have the
--     proofs.
--   OcspCache: proxy/internal/ocspcache/ocsp.go. `verify_chains`, `response` and `fetch_ocsp`.
--   Pki: proxy/internal/pki/pki.go. `update` is the frame of an operation (open, change, commit);
--     Creation has `initCA`, Issuing the certificates that are signed, Delegate the delegate
--     certificate, Listing the revocation lists, Ocsp the answers; Keeping carries a property through
--     any calls; Durability, Answers, Contents and Staleness have the proofs.
--   TokenManager: proxy/internal/tokenmanager/tokenmanager.go. `rotate_keys`, `create_token` and
--     `get_key`, with proofs in Choice, Rotation and Validation.
--   Cookies: proxy/internal/cookiemanager/cookiemanager.go and proxy/internal/tokenmanager/urltoken.go.
--     The functions carry their names; Sessions follows a login's tokens.
--   Examples: runs on concrete inputs.
--
-- Bounds. Times are natural numbers of nanoseconds. The counters' int64 and the number of requests
-- in flight wrap around at 2 ^ 64. No function runs on fuel: every loop goes over a list, or over the
-- number of tries that are left.
--
-- Parameters. The storage package, crypto/x509 and the other cryptography, net/url, regular
-- expressions, the jwt package, the LRU cache, the network, the clock and the random source are
-- arguments; a theorem that relies on one of them names what it relies on as a hypothesis. Of
-- the storage this is that a serial number that it has saved as revoked is revoked in what it reads
-- back, of the jwt package that a token that it has signed is read back, and of crypto/tls that it
-- agrees on one of the protocols it is given. Of net/http, a step of a backend's life has that `Close`
-- and `Shutdown` of a server close its listener.
--
-- Not modelled: the headers that the HTTP handlers set and expand, the pages for login and logout,
-- the revocation loop, and the connections' annotations; and, since they are calls of libraries or
-- glue, QUIC, SAML, passkeys, SSH certificates, encrypted client hello, DNS updates, metrics and
-- logging.
pub mod Prelude
pub mod Counter
pub mod Backend
pub mod Config
pub mod Http
pub mod Routing
pub mod Connections
pub mod Oidc
pub mod OcspCache
pub mod Pki
pub mod TokenManager
pub mod Cookies
pub mod Examples
