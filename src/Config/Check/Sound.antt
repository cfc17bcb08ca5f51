-- ===== src/Config/Check/Sound.antt =====
-- What a backend of a checked configuration is like.
use Prim.Native.String.{String}
use rp.Prelude.{
  ◌≡◌, refl, sym, ap, ◌∙◌, ◌⊎◌, inl, inr, true, false, not, ◌&&◌, ◌||◌, Option, none, some, List,
  [], ◌∷◌, map, Bool-cases, arith,
}
use rp.Prelude.Text.{string_eq, contains, IsIn}
use rp.Prelude.Words.{is_empty, has_prefix, has_suffix, any_lower}
use rp.Prelude.Call.{ok, fail_if, or_fail, for_each, map_each, >>=-ok, fail_if-ok}
use rp.Prelude.Loops.{or_fail-ok, fail_if-fine, for_each-fail_if, map_each-IsIn}
use rp.Backend.{IpNet, Mode, tcp, tls, tls_passthrough, quic, http, https, local, console}
use rp.Routing.{is_nil}
use rp.Config.{
  Env, Config, ConfigClientAuth, BackendSso, PathOverride, is_http, is_local,
  validate_proxy_proto_version,
}
use rp.Config.Names.{Prepared, check_limit}
use rp.Config.Backends.{
  Known, Ready, ReadyOverride, check_addresses, check_client_auth, check_sso, check_roots,
  parse_nets, check_override, check_backend, valid_xfcc_fields, override_mode,
}
use rp.Config.Check.{Checked, check}
use rp.Config.Check.Run.{check-Run}
use rp.Config.Check.Collected.{provider_names, providers-IsIn, collect-IsIn}
use rp.Config.Check.Passed.{Passed, check_backend-Passed}

-- A root certificate is a PKI of the configuration, or loads.
abbrev pub RootsKnown : Env → Config → List String → Type 0
RootsKnown env cfg roots =
    (n : String) → IsIn n roots → IsIn n (map (λ p. p.name) cfg.pki) ⊎ (env.load_certs n ≡ true)

-- The networks come from the texts.
abbrev pub NetsOf : Env → Option (List String) → Option (List IpNet) → Type 0
NetsOf env none none = Unit
NetsOf env none (some nets) = ⊥
NetsOf env (some cs) none = ⊥
NetsOf env (some cs) (some nets) =
    (n : IpNet) → IsIn n nets → (c : String) × IsIn c cs × (env.parse_cidr c ≡ some n)

abbrev pub Slashed : String → Type 0
Slashed path = (has_prefix path "/" ≡ true) × (has_suffix path "/" ≡ true)

abbrev pub OverrideSound : ReadyOverride → Type 0
OverrideSound o = (is_http o.mode ≡ true) × ((n : String) → IsIn n o.paths → Slashed n)

map_same : (xs : List String) → map (λ x. x) xs ≡ xs
map_same [] = refl
map_same (x ∷ xs) = ap (λ ys. x ∷ ys) (map_same xs)

only_list : {x : String} {xs : List String} → (false ≡ true) ⊎ IsIn x xs → IsIn x xs
only_list (inl e) = absurd (cc)
only_list (inr i) = i

-- A provider is one of the configuration's.
abbrev pub SsoKnown : Config → Option BackendSso → Type 0
SsoKnown cfg none = Unit
SsoKnown cfg (some sso) = IsIn sso.provider (provider_names cfg)

-- Each field of the certificate header is one of the six that there are, in any case.
abbrev pub FieldsKnown : List String → Type 0
FieldsKnown fields = (f : String) → IsIn f fields → any_lower valid_xfcc_fields f ≡ true

abbrev pub AuthKnown : Env → Config → Option ConfigClientAuth → Type 0
AuthKnown env cfg none = Unit
AuthKnown env cfg (some auth) =
    RootsKnown env cfg auth.root_cas × FieldsKnown auth.add_client_cert_header

-- Whether a backend needs addresses, may have them, or must not.
abbrev pub AddressesFit : Mode → List String → Type 0
AddressesFit local addresses = addresses ≡ []
AddressesFit console addresses = addresses ≡ []
AddressesFit http addresses = Unit
AddressesFit https addresses = Unit
AddressesFit _ addresses = is_nil addresses ≡ false

pub record Sound (env : Env) (cfg : Config) (p : Prepared) (r : Ready) : Type 0 where
  pub has_name : is_nil p.server_names ≡ false
  pub addresses : AddressesFit p.mode p.config.addresses
  pub limit : (is_empty p.config.bw_limit ≡ true) ⊎ IsIn p.config.bw_limit cfg.bw_limits
  pub provider : SsoKnown cfg p.config.sso
  pub client_auth : AuthKnown env cfg p.config.client_auth
  pub roots : RootsKnown env cfg p.config.forward_root_cas
  pub allow : NetsOf env p.config.allow_ips r.allow_ips
  pub deny : NetsOf env p.config.deny_ips r.deny_ips
  pub overrides : (o : ReadyOverride) → IsIn o r.path_overrides → OverrideSound o

is_nil-eq : (xs : List String) → is_nil xs ≡ true → xs ≡ []
is_nil-eq [] h = refl
is_nil-eq (x ∷ xs) h = absurd (cc)

addresses-fit :
    (mode : Mode) (addresses : List String)
    → (is_nil addresses && not (is_local mode || is_http mode)) ≡ false
    → (not (is_nil addresses) && is_local mode) ≡ false
    → AddressesFit mode addresses
addresses-fit local addresses h k = is_nil-eq addresses (ground arith)
addresses-fit console addresses h k = is_nil-eq addresses (ground arith)
addresses-fit http addresses h k = tt
addresses-fit https addresses h k = tt
addresses-fit tcp addresses h k = ground arith
addresses-fit tls addresses h k = ground arith
addresses-fit tls_passthrough addresses h k = ground arith
addresses-fit quic addresses h k = ground arith

parse_nets-NetsOf :
    (env : Env) (cs : Option (List String)) (nets : Option (List IpNet))
    → parse_nets env cs ≡ ok nets
    → NetsOf env cs nets
unfolding parse_nets
parse_nets-NetsOf env none none h = tt
parse_nets-NetsOf env none (some nets) h = absurd (cc)
parse_nets-NetsOf env (some cs) nets h =
    let (ns, each, same) =
      >>=-ok (map_each {E = String} (λ c. or_fail (env.parse_cidr c) "CIDR") cs) _ h in
    let e : some ns ≡ nets = cc in
    rw (← e) (λ n i.
      let (c, held, parsed) = map_each-IsIn (λ c. or_fail (env.parse_cidr c) "CIDR") n cs each i in
      (c, held, or_fail-ok (env.parse_cidr c) "CIDR" parsed))

check_override-Sound :
    (env : Env) (pkis : List String) (mode : Mode) (po : PathOverride) (o : ReadyOverride)
    → check_override env pkis mode po ≡ ok o
    → OverrideSound o
unfolding check_override
check_override-Sound env pkis mode po o h =
    let (some_path, h1) = fail_if-ok (is_nil po.paths) "PathOverrides.Paths: cannot be empty" _ h in
    let (u, paths, h2) =
      >>=-ok
        (for_each
          (λ n.
            fail_if (not (has_prefix n "/") || not (has_suffix n "/")) "must start and end with /")
          po.paths)
        _ h1 in
    let (m, settled, h3) =
      >>=-ok (or_fail (override_mode mode po.mode) "Mode: must be either HTTP or HTTPS") _ h2 in
    let (web, h4) = fail_if-ok (not (is_http m)) "Mode: must be either HTTP or HTTPS" _ h3 in
    let (u2, roots, h5) = >>=-ok (check_roots env pkis po.forward_root_cas) _ h4 in
    let (v, version, last) = >>=-ok (validate_proxy_proto_version po.proxy_protocol_version) _ h5 in
    let same_mode : m ≡ o.mode = ground arith in
    let same_paths : po.paths ≡ o.paths = ground arith in
    (
      ap is_http (sym same_mode) ∙ ground arith,
      λ n i.
          let i' : IsIn n po.paths = rw same_paths i in
          let fine =
            for_each-fail_if (λ n. not (has_prefix n "/") || not (has_suffix n "/"))
              "must start and end with /" n paths i' in
          (ground arith, ground arith),
    )

module _ (env : Env) (cfg : Config) (known : Known) where
  -- The names at hand are the configuration's.
  record Honest : Type 0 where
    pub of_providers :
        (x : String) → contains known.providers x ≡ true → IsIn x (provider_names cfg)
    pub of_pkis : (x : String) → contains known.pkis x ≡ true → IsIn x (map (λ p. p.name) cfg.pki)
    pub of_limits : (x : String) → contains known.limits x ≡ true → IsIn x cfg.bw_limits

module _ (env : Env) (cfg : Config) (known : Known) (fine : Honest env cfg known) where
  check_roots-Known :
      (roots : List String) → check_roots env known.pkis roots ≡ ok tt → RootsKnown env cfg roots
  unfolding check_roots
  check_roots-Known roots h n i =
      let passed =
        for_each-fail_if (λ n. not (contains known.pkis n) && not (env.load_certs n)) "RootCAs" n h
          i in
      elim (Bool-cases (contains known.pkis n)) [
        | inl e ↦ inl (fine.of_pkis n e)
        | inr e ↦ inr (ground arith)
      ]

  client_auth-Known :
      (o : Option ConfigClientAuth)
      → check_client_auth env known.pkis o ≡ ok tt
      → AuthKnown env cfg o
  unfolding check_client_auth
  client_auth-Known none h = tt
  client_auth-Known (some a) h =
      let (u, roots, fields) = >>=-ok (check_roots env known.pkis a.root_cas) _ h in
      (
        check_roots-Known a.root_cas roots,
        λ f i.
            let passed =
              for_each-fail_if (λ f. not (any_lower valid_xfcc_fields f))
                "AddClientCertHeader: invalid field" f fields i in
            ground arith,
      )

  sso-Known : (o : Option BackendSso) → check_sso env known.providers o ≡ ok tt → SsoKnown cfg o
  unfolding check_sso
  sso-Known none h = tt
  sso-Known (some t) h =
      let (passed, rest) =
        fail_if-ok (not (contains known.providers t.provider))
          "backend.SSO.Provider: unknown provider" _ h in
      fine.of_providers t.provider (ground arith)

  limit-Known :
      (name : String)
      → (not (is_empty name) && not (contains known.limits name)) ≡ false
      → (is_empty name ≡ true) ⊎ IsIn name cfg.bw_limits
  limit-Known name h = elim (Bool-cases (is_empty name)) [
    | inl e ↦ inl e
    | inr e ↦ inr (fine.of_limits name (ground arith))
  ]

  check_backend-Sound : (p : Prepared) (r : Ready) → Passed env known p r → Sound env cfg p r
  unfolding check_addresses
  check_backend-Sound p r passed =
      let be = p.config in
      let (named, h1) =
        fail_if-ok (is_nil p.server_names)
          "backend.ServerNames: backend must have at least one server name" _ passed.addresses in
      let (far, h2) =
        fail_if-ok (is_nil be.addresses && not (is_local p.mode || is_http p.mode))
          "backend.Addresses: backend must have at least one address" _ h1 in
      let (near, h3) =
        fail_if-ok (not (is_nil be.addresses) && is_local p.mode)
          "backend.Addresses: Addresses should be empty when Mode is CONSOLE or LOCAL" _ h2 in
      let (root, h4) =
        fail_if-ok (not (is_empty be.document_root) && not (is_nil be.addresses))
          "backend.DocumentRoot: only valid when Addresses is empty" _ h3 in
      let limited =
        fail_if-fine (not (is_empty be.bw_limit) && not (contains known.limits be.bw_limit))
          "backend.BWLimit: undefined name" h4 in
      record {
        has_name = named;
        addresses = addresses-fit p.mode be.addresses far near;
        limit = limit-Known be.bw_limit limited;
        provider = sso-Known be.sso passed.sso;
        client_auth = client_auth-Known be.client_auth passed.client_auth;
        roots = check_roots-Known be.forward_root_cas passed.roots;
        allow = parse_nets-NetsOf env be.allow_ips r.allow_ips passed.allow;
        deny = parse_nets-NetsOf env be.deny_ips r.deny_ips passed.deny;
        overrides = λ o i.
            let (po, held, made) =
              map_each-IsIn (check_override env known.pkis p.mode) o be.path_overrides
                passed.overrides i in
            check_override-Sound env known.pkis p.mode po o made;
      }

recast :
    (env : Env) (cfg : Config) (q p : Prepared) (r : Ready)
    → q ≡ p
    → Sound env cfg p r
    → Sound env cfg q r
recast env cfg q p r e s = rw e s

-- Every backend of a configuration that `Check` accepts has a server name, has addresses if its
-- mode needs them and none if it is served locally, refers only to identity providers, PKIs and
-- bandwidth limits of the configuration or to root certificates that load, names only the fields of
-- the certificate header that exist, has networks that come from its texts, and has
-- path overrides in an HTTP mode whose paths start and end with a slash.
pub check-Sound :
    (env : Env) (cfg : Config) (c : Checked) (r : Ready)
    → check env cfg ≡ ok c
    → IsIn r c.backends
    → Sound env cfg r.prepared r
unfolding contains
check-Sound env cfg c r h i =
    let run = check-Run env cfg c h in
    let bs = run.of_backends in
    let known : Known = record {
      providers = run.providers.names;
      pkis = bs.pkis;
      limits = bs.limits;
    } in
    let (p, held, made) = map_each-IsIn (check_backend env known) r _ bs.checked i in
    let passed = check_backend-Passed env known p r made in
    let fine : Honest env cfg known = record {
      of_providers = λ x k. providers-IsIn env cfg run.providers x run.of_providers k;
      of_pkis = λ x k. only_list (collect-IsIn (λ p. p.name) _ [] cfg.pki bs.pkis x bs.all_pkis k);
      of_limits = λ x k. rw (← (map_same cfg.bw_limits)) (
          only_list
            (collect-IsIn (λ l. l) check_limit [] cfg.bw_limits bs.limits x bs.all_limits k));
    } in
    recast env cfg r.prepared p r passed.same (check_backend-Sound env cfg known fine p r passed)
