-- ===== src/Connections/Steps.antt =====
-- The steps of a connection that gets through to a backend.
use Prim.Native.String.{String}
use rp.Prelude.{
  ◌≡◌, sym, ap, ◌∙◌, inl, inr, false, not, ◌&&◌, some, if◌then◌else◌, leb, Bool-cases, arith,
}
use rp.Prelude.Text.{string_eq}
use rp.Prelude.Call.{Call, ok, err, panic, ◌>>=◌, or_fail, >>=-ok, fail_if-ok}
use rp.Prelude.Loops.{or_fail-ok}
use rp.Backend.{Backend, Error, Mode, tcp, tls, quic, http, https, local, console, tls_passthrough}
use rp.Backend.Access.{authorize, check_ip}
use rp.Routing.{key_eq, backend, ConnectionState}
use rp.Connections.{
  Hello, Incoming, Proxy, Reached, to_http, to_server, to_passthrough, to_acme, too_many_open,
  invalid_hello, handshake_failed, remote_addr, as_refusal, name_of, find, verified,
  after_handshake, mismatched, mismatched_name, rate_limited, no_channel, dial_error, first_cert,
  authorize_tls_connection, handle_http_connection, handle_tls_connection,
  handle_tls_passthrough_connection, is_acme, by_mode, passes_through, handle_connection,
}

as_refusal-ok {ℓ} : {A : Type ℓ} (m : Call Error A) {a : A} → as_refusal m ≡ ok a → m ≡ ok a
as_refusal-ok (ok b) h = cc
as_refusal-ok (err e) h = absurd (cc)
as_refusal-ok panic h = absurd (cc)

after_handshake-ok {ℓ} :
    {A : Type ℓ} (m : Call Error A) {a : A} → after_handshake m ≡ ok a → m ≡ ok a
after_handshake-ok (ok b) h = cc
after_handshake-ok (err e) h = absurd (cc)
after_handshake-ok panic h = absurd (cc)

-- What `authorizeTLSConnection` has found when it lets the connection in.
pub record Authorized (p : Proxy) (c : Incoming) (sn : String) (be : Backend) : Type 0 where
  pub cs : ConnectionState
  pub negotiated : c.negotiate be ≡ some cs
  pub checked : verified p be cs ≡ ok tt
  pub same_name : mismatched p sn cs ≡ false
  pub allowed : authorize be (first_cert cs.peer_certificates) ≡ ok tt

authorize-Authorized :
    (p : Proxy) (c : Incoming) (sn : String) (be : Backend) (cs : ConnectionState)
    → authorize_tls_connection p c sn be ≡ ok cs
    → Authorized p c sn be
unfolding authorize_tls_connection
authorize-Authorized p c sn be cs h =
    let (ds, a, h1) = >>=-ok (or_fail (c.negotiate be) handshake_failed) _ h in
    let (u, b, h2) = >>=-ok (after_handshake (verified p be ds)) _ h1 in
    let (d, h3) = fail_if-ok (mismatched p sn ds) mismatched_name _ h2 in
    let (v, e, h4) = >>=-ok (as_refusal (authorize be (first_cert ds.peer_certificates))) _ h3 in
    record {
      cs = ds;
      negotiated = or_fail-ok (c.negotiate be) handshake_failed a;
      checked = after_handshake-ok (verified p be ds) b;
      same_name = d;
      allowed = as_refusal-ok (authorize be (first_cert ds.peer_certificates)) e;
    }

-- The connection has got through to this backend after a TLS handshake.
abbrev pub Through : Reached → Backend → Type 0
Through (to_http x) be = x ≡ be
Through (to_server x) be = x ≡ be
Through (to_passthrough x) be = ⊥
Through to_acme be = ⊥

same-Through : {q r : Reached} (be : Backend) → q ≡ r → Through r be → Through q be
same-Through be e t = rw e t

http-Authorized :
    (p : Proxy) (c : Incoming) (sn : String) (x : Backend) (r : Reached) (be : Backend)
    → handle_http_connection p c sn x ≡ ok r
    → Through r be
    → (x ≡ be) × Authorized p c sn x
unfolding handle_http_connection
http-Authorized p c sn x r be h t =
    let (cs, a, h1) = >>=-ok (authorize_tls_connection p c sn x) _ h in
    let (b, h2) = fail_if-ok (not (c.wait_ok x)) rate_limited _ h1 in
    let (d, h3) = fail_if-ok (not (c.has_chan x)) no_channel _ h2 in
    let same : to_http x ≡ r = cc in
    let u : Through (to_http x) be = same-Through be same t in
    (u, authorize-Authorized p c sn x cs a)

tls-Authorized :
    (p : Proxy) (c : Incoming) (sn : String) (x : Backend) (r : Reached) (be : Backend)
    → handle_tls_connection p c sn x ≡ ok r
    → Through r be
    → (x ≡ be) × Authorized p c sn x
unfolding handle_tls_connection
tls-Authorized p c sn x r be h t =
    let (cs, a, h1) = >>=-ok (authorize_tls_connection p c sn x) _ h in
    let (b, h2) = fail_if-ok (not (c.wait_ok x)) rate_limited _ h1 in
    let (d, h3) = fail_if-ok (not (c.dial_ok x)) dial_error _ h2 in
    let same : to_server x ≡ r = cc in
    let u : Through (to_server x) be = same-Through be same t in
    (u, authorize-Authorized p c sn x cs a)

passthrough-not-Through :
    (c : Incoming) (x : Backend) (r : Reached) (be : Backend)
    → handle_tls_passthrough_connection c x ≡ ok r
    → ¬ Through r be
unfolding handle_tls_passthrough_connection
passthrough-not-Through c x r be h t =
    let (b, h2) = fail_if-ok (not (c.wait_ok x)) rate_limited _ h in
    let (d, h3) = fail_if-ok (not (c.dial_ok x)) dial_error _ h2 in
    let same : to_passthrough x ≡ r = cc in
    let u : Through (to_passthrough x) be = same-Through be same t in u

by_mode-Authorized :
    (p : Proxy) (c : Incoming) (sn : String) (x : Backend) (mode : Mode) (r : Reached)
    (be : Backend)
    → by_mode p c sn x mode ≡ ok r
    → Through r be
    → (x ≡ be) × Authorized p c sn x
unfolding by_mode
by_mode-Authorized p c sn x tls_passthrough r be h t = absurd (passthrough-not-Through c x r be h t)
by_mode-Authorized p c sn x http r be h t = http-Authorized p c sn x r be h t
by_mode-Authorized p c sn x https r be h t = http-Authorized p c sn x r be h t
by_mode-Authorized p c sn x local r be h t = http-Authorized p c sn x r be h t
by_mode-Authorized p c sn x console r be h t = http-Authorized p c sn x r be h t
by_mode-Authorized p c sn x tcp r be h t = tls-Authorized p c sn x r be h t
by_mode-Authorized p c sn x tls r be h t = tls-Authorized p c sn x r be h t
by_mode-Authorized p c sn x quic r be h t = tls-Authorized p c sn x r be h t

-- The steps of a connection that gets through.
pub record Got (p : Proxy) (c : Incoming) (be : Backend) : Type 0 where
  pub hello : Hello
  pub said : c.hello ≡ some hello
  pub room : leb p.max_open c.num_open ≡ false
  pub found : backend p.backends (name_of p hello) hello.alpn_protos ≡ ok be
  pub from : check_ip be (remote_addr p c) ≡ ok tt
  pub authorized : Authorized p c (name_of p hello) be

find-Found :
    (p : Proxy) (c : Incoming) (h : Hello) (be : Backend)
    → find p c ≡ ok (h, be)
    → (leb p.max_open c.num_open ≡ false)
      × (c.hello ≡ some h)
      × (backend p.backends (name_of p h) h.alpn_protos ≡ ok be)
unfolding find
find-Found p c h be e =
    let (room, e1) = fail_if-ok (leb p.max_open c.num_open) too_many_open _ e in
    let (g, said, e2) = >>=-ok (or_fail c.hello invalid_hello) _ e1 in
    let (x, found, e3) =
      >>=-ok (as_refusal (backend p.backends (name_of p g) g.alpn_protos)) _ e2 in
    let same_hello : g ≡ h = cc in
    let same : x ≡ be = cc in
    (
      room,
      or_fail-ok c.hello invalid_hello said ∙ ap some same_hello,
      ap (λ g. backend p.backends (name_of p g) g.alpn_protos) (sym same_hello)
          ∙ (as_refusal-ok (backend p.backends (name_of p g) g.alpn_protos) found ∙ ap ok same),
    )

-- After the backend has been found.
handled :
    (p : Proxy) (c : Incoming) (g : Hello) (x : Backend) (r : Reached) (be : Backend)
    → (if not (passes_through x.mode) && is_acme g
        then ok to_acme
        else (as_refusal (check_ip x (remote_addr p c)) >>= λ u.
            by_mode p c (name_of p g) x x.mode))
      ≡ ok r
    → Through r be
    → (x ≡ be) × (check_ip x (remote_addr p c) ≡ ok tt) × Authorized p c (name_of p g) x
handled p c g x r be h t = elim (Bool-cases (not (passes_through x.mode) && is_acme g)) [
  | inl e ↦
      let same : to_acme ≡ r = ground arith in
      let u : Through to_acme be = same-Through be same t in absurd u
  | inr e ↦
      let rest : (as_refusal (check_ip x (remote_addr p c)) >>= λ u.
      by_mode p c (name_of p g) x x.mode)
          ≡ ok r =
        ground arith in
      let (u, passed, last) = >>=-ok (as_refusal (check_ip x (remote_addr p c))) _ rest in
      let (same, done) = by_mode-Authorized p c (name_of p g) x x.mode r be last t in
      (same, as_refusal-ok (check_ip x (remote_addr p c)) passed, done)
]

recast : (p : Proxy) (c : Incoming) (x be : Backend) → x ≡ be → Got p c x → Got p c be
recast p c x be e k = rw (← e) k

got :
    (p : Proxy) (c : Incoming) (g : Hello) (x : Backend)
    → find p c ≡ ok (g, x)
    → check_ip x (remote_addr p c) ≡ ok tt
    → Authorized p c (name_of p g) x
    → Got p c x
got p c g x f i a =
    let (room, said, at) = find-Found p c g x f in
    record { hello = g; said = said; room = room; found = at; from = i; authorized = a }

-- What a connection that gets through to a backend has passed.
pub handle_connection-Got :
    (p : Proxy) (c : Incoming) (r : Reached) (be : Backend)
    → handle_connection p c ≡ ok r
    → Through r be
    → Got p c be
unfolding handle_connection
handle_connection-Got p c r be h t =
    let (found, e, h1) = >>=-ok (find p c) _ h in
    let (same, passed, done) = handled p c found.0 found.1 r be h1 t in
    recast p c found.1 be same (got p c found.0 found.1 e passed done)
