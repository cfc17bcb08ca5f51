-- ===== src/Config/Providers.antt =====
-- The loops of `Check` over the identity providers. The state is the map `identityProviders`, as
-- the list of the names in it.
use Prim.Native.String.{String}
use rp.Prelude.{Bool, not, ◌&&◌, ◌||◌, List, [], ◌∷◌}
use rp.Prelude.Text.{string_eq, contains}
use rp.Prelude.Words.{is_empty}
use rp.Prelude.Call.{Call, ok, ◌>>=◌, ◌>>◌, fail_if}
use rp.Config.{Env, ConfigOidc, ConfigSaml, ConfigPasskey, check_domain}

-- `if u != "" { if _, err := url.Parse(u); err != nil { ... } }`
abbrev pub bad_url : Env → String → Bool
bad_url env u = not (is_empty u) && not (env.url_parses u)

unfoldable pub check_oidc : Env → List String → ConfigOidc → Call String ConfigOidc
check_oidc env ids oi = do
  fail_if (contains ids oi.name) "oidc.Name: duplicate provider name"
  fail_if ((is_empty oi.auth_endpoint || is_empty oi.token_endpoint) && is_empty oi.discovery_url)
      "oidc AuthEndpoint and TokenEndpoint must be set unless DiscoveryURL is set"
  fail_if (bad_url env oi.discovery_url) "oidc.DiscoveryURL"
  fail_if (bad_url env oi.auth_endpoint) "oidc.AuthEndpoint"
  fail_if (bad_url env oi.token_endpoint) "oidc.TokenEndpoint"
  fail_if (is_empty oi.redirect_url) "oidc.RedirectURL must be set"
  fail_if (not (env.url_parses oi.redirect_url)) "oidc.RedirectURL"
  fail_if (is_empty oi.client_id) "oidc.ClientID must be set"
  fail_if (is_empty oi.client_secret) "oidc.ClientSecret must be set"
  domain ← check_domain env oi.domain oi.redirect_url
  ok (record oi { domain = domain })

unfoldable pub check_saml : Env → List String → ConfigSaml → Call String ConfigSaml
check_saml env ids s = do
  fail_if (contains ids s.name) "saml.Name: duplicate provider name"
  fail_if (is_empty s.sso_url) "saml.SSOURL must be set"
  fail_if (is_empty s.entity_id) "saml.EntityID must be set"
  fail_if (is_empty s.certs) "saml.Certs must be set"
  fail_if (is_empty s.acs_url) "saml.ACSURL must be set"
  domain ← check_domain env s.domain s.acs_url
  ok (record s { domain = domain })

-- The provider's own name is in the map when its identity provider is looked up.
unfoldable pub check_passkey : Env → List String → ConfigPasskey → Call String ConfigPasskey
check_passkey env ids pp = do
  fail_if (contains ids pp.name) "passkey.Name: duplicate provider name"
  fail_if (is_empty pp.endpoint) "passkey.Endpoint must be set"
  fail_if (is_empty pp.identity_provider) "passkey.IdentityProvider must be set"
  fail_if (not (contains (pp.name ∷ ids) pp.identity_provider))
      "passkey.IdentityProvider has unexpected value"
  domain ← check_domain env pp.domain pp.endpoint
  ok (record pp { domain = domain })

-- `for i, p := range providers`, with the names in the map and the providers as they become.
unfoldable pub check_all {ℓ} :
    {P : Type ℓ}
    → (P → String)
    → (List String → P → Call String P)
    → List String
    → List P
    → Call String (List String × List P)
check_all name check ids [] = ok (ids, [])
check_all name check ids (p ∷ ps) =
    check ids p >>= λ q. check_all name check (name p ∷ ids) ps >>= λ r. ok (r.0, q ∷ r.1)
