-- ===== src/Config/Check/Routes.antt =====
-- A checked configuration in the table that `reconfigure` builds of it.
use Prim.Native.String.{String}
use rp.Prelude.{◌≡◌, refl, ap, ◌∙◌, ◌≢◌, true, false, Option, none, some, List, [], ◌∷◌, map, arith}
use rp.Prelude.Text.{string_eq, IsIn, here, there}
use rp.Prelude.Map.{lookup}
use rp.Prelude.Call.{ok, map_each}
use rp.Prelude.Loops.{map_each-step}
use rp.Backend.{Backend, ClientAuth}
use rp.Routing.{key, key_eq, register}
use rp.Routing.Table.{offers, lookup-register}
use rp.Config.{Env, Config, ConfigClientAuth}
use rp.Config.Names.{Prepared, in_ascii, no_names}
use rp.Config.Backends.{Known, Ready, check_backend}
use rp.Config.Check.{Checked, check}
use rp.Config.Check.Run.{check-Run}
use rp.Config.Check.Passed.{check_backend-Passed}
use rp.Config.Check.Distinct.{
  any_takes, Apart, takes, any_offers, Distinct, add_backends-Grows, last_offer-only,
}

abbrev auth_of : Option ConfigClientAuth → Option ClientAuth
auth_of none = none
auth_of (some a) = some (record { acl = a.acl })

-- What the proxy reads of a checked backend when a connection comes in.
abbrev pub backend_of : Ready → Backend
backend_of r = record {
  name = r.prepared.config.name;
  mode = r.prepared.mode;
  server_names = r.prepared.server_names;
  alpn_protos = r.prepared.alpn_protos;
  client_auth = auth_of r.prepared.config.client_auth;
  deny_ips = r.deny_ips;
  allow_ips = r.allow_ips;
  shutdown = false;
}

offers-takes :
    (r : Ready) (p : Prepared) (n proto : String)
    → r.prepared ≡ p
    → offers (backend_of r) n proto ≡ takes p n proto
offers-takes r p n proto e = ap (λ q. takes q n proto) e

module _ (env : Env) (known : Known) where
  any_offers-takes :
      (ps : List Prepared) (rs : List Ready) (n proto : String)
      → map_each (check_backend env known) ps ≡ ok rs
      → any_offers (map backend_of rs) n proto ≡ any_takes ps n proto
  unfolding any_offers any_takes map_each
  any_offers-takes [] rs n proto h = let same : [] ≡ rs = cc in rw (← same) refl
  any_offers-takes (p ∷ ps) rs n proto h =
      let (r, others, first, rest, same) = map_each-step (check_backend env known) p ps rs h in
      let e = offers-takes r p n proto (check_backend-Passed env known p r first).same in
      let ih = any_offers-takes ps others n proto rest in rw (← same) (ground (arith, e, ih))

  ready-Distinct :
      (ps : List Prepared) (rs : List Ready)
      → map_each (check_backend env known) ps ≡ ok rs
      → Apart ps
      → Distinct (map backend_of rs)
  unfolding map_each
  ready-Distinct [] rs h a = let same : [] ≡ rs = cc in rw (← same) tt
  ready-Distinct (p ∷ ps) rs h a =
      let (r, others, first, rest, same) = map_each-step (check_backend env known) p ps rs h in
      let kept = (check_backend-Passed env known p r first).same in
      rw (← same) (
        λ n proto. ground (
          arith,
          a.0 n proto,
          offers-takes r p n proto kept,
          any_offers-takes ps others n proto rest,
        ),
        ready-Distinct ps others rest a.1,
      )

map-IsIn : (r : Ready) {rs : List Ready} → IsIn r rs → IsIn (backend_of r) (map backend_of rs)
map-IsIn r (here e) = here (ap backend_of e)
map-IsIn r (there i) = there (map-IsIn r i)

-- Of a configuration that `Check` accepts, no two backends offer a protocol under the same name.
pub check-Distinct :
    (env : Env) (cfg : Config) (c : Checked)
    → check env cfg ≡ ok c
    → Distinct (map backend_of c.backends)
check-Distinct env cfg c h =
    let run = (check-Run env cfg c h).of_backends in
    let grown = add_backends-Grows (map (in_ascii env) run.prepared) no_names run.table run.apart in
    ready-Distinct env (record { providers = _; pkis = run.pkis; limits = run.limits })
      (map (in_ascii env) run.prepared) c.backends run.checked grown.1

-- After `Check` has accepted a configuration and the table of backends is built from it, each
-- backend is found under every name and every protocol, other than the empty one, that it offers:
-- no other backend takes its place.
pub check-served :
    (env : Env) (cfg : Config) (c : Checked) (r : Ready) (sn proto : String)
    → check env cfg ≡ ok c
    → IsIn r c.backends
    → offers (backend_of r) sn proto ≡ true
    → proto ≢ ""
    → lookup (key sn proto) (register (map backend_of c.backends) []) ≡ some (backend_of r)
unfolding lookup
check-served env cfg c r sn proto h i o p =
    lookup-register (map backend_of c.backends) [] sn proto p
    ∙ last_offer-only (backend_of r) sn proto (check-Distinct env cfg c h) o (map-IsIn r i) none
