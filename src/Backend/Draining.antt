-- ===== src/Backend/Draining.antt =====
-- What holds of a backend's HTTP server over every interleaving of connections that are counted,
-- closes of the backend, and closes of its listener.
use rp.Prelude.{
  ℕ, zero, suc, ◌+◌, ◌≤◌, ◌≡◌, refl, ◌∙◌, ◌≢◌, ◌⊎◌, if◌then◌else◌, Bool-cases, inl, inr, Bool, true,
  false, List, [], ◌∷◌, sym, arith,
}
use mathlib.Core.Path.{subst}
use rp.Prelude.Call.{Call, ok, err, panic, ◌>>=◌}
use rp.Counter.{word}
use rp.Backend.{Error}
use rp.Backend.Lifecycle.{
  Server, open_chan, closed_chan, started, Op, connect, disconnect, stop, drain, end_listener, step,
  run, any_closes, close_listener, served, dropped, hand_over, close_now, close_graceful,
  inc_in_flight, minus_one, server_shutdown,
}

pub record Inv (s : Server) : Type 0 where
  pub serving : s.http_server ≡ true → s.conn_chan ≡ open_chan
  pub ended : s.http_server ≡ false → s.conn_chan ≡ closed_chan
  pub busy : s.http_server ≡ true → s.shutdown ≡ true → s.in_flight ≢ 0
  pub calm : s.http_server ≡ true → s.shutdown ≡ false → any_closes s.spawned ≡ false
  pub taking : s.http_server ≡ true → s.shutdown ≡ false → s.listening ≡ true

-- The call returns, and the invariant holds of what it returns.
abbrev pub Good : Call Error Server → Type 0
Good (ok t) = Inv t
Good (err e) = ⊥
Good panic = ⊥

inc-Inv : (delta : ℕ) (s : Server) → Inv s → Good (inc_in_flight delta s >>= λ r. ok r.0)
unfolding inc_in_flight
inc-Inv delta s i = ground arith

stop-Inv : (s : Server) → Inv s → Good (close_now s)
unfolding close_now
stop-Inv s i = ground arith

drain-Inv : (s : Server) → Inv s → Good (close_graceful s)
unfolding close_graceful
drain-Inv s i = ground arith

end-Inv : (s : Server) → Inv s → Good (step end_listener s)
unfolding step close_listener
end-Inv s i = ground arith

step-Inv : (o : Op) (s : Server) → Inv s → Good (step o s)
unfolding step
step-Inv connect s i = inc-Inv 1 s i
step-Inv disconnect s i = inc-Inv minus_one s i
step-Inv stop s i = stop-Inv s i
step-Inv drain s i = drain-Inv s i
step-Inv end_listener s i = end-Inv s i

-- To go on after a call that returns what the invariant holds of.
then-Good :
    (m : Call Error Server) (f : Server → Call Error Server)
    → Good m
    → ((t : Server) → Inv t → Good (f t))
    → Good (m >>= f)
then-Good (ok t) f g k = k t g
then-Good (err e) f g k = absurd g
then-Good panic f g k = absurd g

pub run_from-Inv : (ops : List Op) (s : Server) → Inv s → Good (run ops s)
unfolding run
run_from-Inv [] s i = i
run_from-Inv (o ∷ ops) s i =
    then-Good (step o s) (run ops) (step-Inv o s i) (λ t j. run_from-Inv ops t j)

started-Inv : (h3 : Bool) → Inv (started h3)
started-Inv h3 = unfold any_closes in ground arith

-- From the state that `reconfigure` makes, no sequence of calls of `incInFlight` with 1 or -1, of
-- calls of `close`, with a context or without, and of closes of the listener panics. At its end the
-- channel is open if there is still a server, and closed once if there is none; a server that shuts
-- down has a connection in flight; and the listener of one that does not is open. Sends on the
-- channel are not among these steps.
pub run-Inv : (h3 : Bool) (ops : List Op) → Good (run ops (started h3))
run-Inv h3 ops = run_from-Inv ops (started h3) (started-Inv h3)

-- The other connections, `n` of them at first, come and go, and the backend is told to drain.
-- Its listener is closed at any time after that.
abbrev pub Others : ℕ → List Op → Type 0
Others n [] = Unit {0}
Others n (connect ∷ ops) = (n + 3 ≤ word) × Others (suc n) ops
Others zero (disconnect ∷ ops) = ⊥
Others (suc n) (disconnect ∷ ops) = Others n ops
Others n (stop ∷ ops) = ⊥
Others n (drain ∷ ops) = Others n ops
Others n (end_listener ∷ ops) = Others n ops

module _ (n : ℕ) (s : Server) (i : Inv s) (on : s.http_server ≡ true) where
  connect-on :
      s.in_flight ≡ suc n
      → n + 3 ≤ word
      → step connect s ≡ ok (record s { in_flight = suc (suc n) })
  unfolding step inc_in_flight
  connect-on e small = ground arith

  pub disconnect-on :
      s.in_flight ≡ suc (suc n)
      → n + 2 ≤ word
      → step disconnect s ≡ ok (record s { in_flight = suc n })
  unfolding step inc_in_flight
  disconnect-on e small = ground arith

  pub drain-on :
      s.in_flight ≡ suc n
      → step drain s ≡ ok (record s { shutdown = true; spawned = server_shutdown ∷ s.spawned })
  unfolding step close_graceful
  drain-on e = ground arith

-- A server with a connection in flight of its own, beside `n` others.
pub record Held (n : ℕ) (s : Server) : Type 0 where
  pub on : s.http_server ≡ true
  pub inv : Inv s
  pub count : s.in_flight ≡ suc n

abbrev pub Handed : Call Error Server → Type 0
Handed (ok t) = (hand_over t ≡ ok served) ⊎ ((t.shutdown ≡ true) × (hand_over t ≡ ok dropped))
Handed (err e) = ⊥
Handed panic = ⊥

abbrev After : List Op → Call Error Server → Type 0
After ops (ok t) = Handed (run ops t)
After ops (err e) = ⊥
After ops panic = ⊥

bind-Handed : (m : Call Error Server) (ops : List Op) → After ops m → Handed (m >>= run ops)
bind-Handed (ok t) ops h = h
bind-Handed (err e) ops h = absurd h
bind-Handed panic ops h = absurd h

hand_over-Handed : (n : ℕ) (s : Server) → Held n s → Handed (ok s)
unfolding hand_over
hand_over-Handed n s h =
    let there = h.inv.serving h.on in
    elim (Bool-cases s.listening) [
      | inl e ↦ inl (ground arith)
      | inr e ↦ elim (Bool-cases s.shutdown) [
        | inl d ↦ inr (d, ground arith)
        | inr d ↦ absurd (ground (arith, h.inv.taking h.on d))
      ]
    ]

end-on :
    (s : Server)
    → (t : Server) × (step end_listener s ≡ ok t)
      × (t.http_server ≡ s.http_server)
      × (t.in_flight ≡ s.in_flight)
unfolding step close_listener
end-on s = (if any_closes s.spawned then close_listener s else s, refl, ground arith, ground arith)

-- While a connection is in flight, its send does not panic, whatever the others do, and also when
-- the backend drains meanwhile.
pub Held-Handed :
    (ops : List Op) (n : ℕ) (s : Server)
    → Held n s
    → n + 2 ≤ word
    → Others n ops
    → Handed (run ops s)
unfolding run
Held-Handed [] n s h small o = hand_over-Handed n s h
Held-Handed (connect ∷ ops) n s h small o =
    let next = record s { in_flight = suc (suc n) } in
    let inv : Inv next = record {
      serving = h.inv.serving;
      ended = h.inv.ended;
      busy = λ p q z. omega arith;
      calm = h.inv.calm;
      taking = h.inv.taking;
    } in
    bind-Handed (step connect s) ops (
      subst (After ops) (sym (connect-on n s h.inv h.on h.count o.0)) (
        Held-Handed ops (suc n) next (record { on = h.on; inv = inv; count = refl }) (omega arith)
          o.1))
Held-Handed (disconnect ∷ ops) zero s h small o = absurd o
Held-Handed (disconnect ∷ ops) (suc n) s h small o =
    let next = record s { in_flight = suc n } in
    let inv : Inv next = record {
      serving = h.inv.serving;
      ended = h.inv.ended;
      busy = λ p q z. omega arith;
      calm = h.inv.calm;
      taking = h.inv.taking;
    } in
    bind-Handed (step disconnect s) ops (
      subst (After ops) (sym (disconnect-on n s h.inv h.on h.count (omega arith)))
        (Held-Handed ops n next (record { on = h.on; inv = inv; count = refl }) (omega arith) o))
Held-Handed (stop ∷ ops) zero s h small o = absurd o
Held-Handed (stop ∷ ops) (suc n) s h small o = absurd o
Held-Handed (drain ∷ ops) n s h small o =
    let next = record s { shutdown = true; spawned = server_shutdown ∷ s.spawned } in
    let inv : Inv next = record {
      serving = h.inv.serving;
      ended = h.inv.ended;
      busy = λ p q z. omega (arith, h.count);
      calm = λ p q. absurd (ground arith);
      taking = λ p q. absurd (ground arith);
    } in
    bind-Handed (step drain s) ops (
      subst (After ops) (sym (drain-on n s h.inv h.on h.count))
        (Held-Handed ops n next (record { on = h.on; inv = inv; count = h.count }) small o))
Held-Handed (end_listener ∷ ops) n s h small o =
    let (t, e, on, count) = end-on s in
    let inv : Inv t = subst Good e (end-Inv s h.inv) in
    bind-Handed (step end_listener s) ops (
      subst (After ops) (sym e) (
        Held-Handed ops n t (record { on = on ∙ h.on; inv = inv; count = count ∙ h.count }) small
          o))
