-- ===== src/Backend/Shutdown.antt =====
-- What a graceful close of a backend does to the connections and servers that are left.
use mathlib.Core.Path.{subst, fun_ext}
use rp.Prelude.{
  ℕ, zero, suc, ◌+◌, ◌≤◌, ◌<◌, ◌≡◌, refl, sym, ap, ◌∙◌, Bool, true, false, List, [], ◌∷◌, ◌++◌,
  replicate, arith,
}
use rp.Prelude.Call.{Call, ok, err, panic, ◌>>=◌, bind_assoc}
use rp.Counter.{word}
use rp.Backend.{Error}
use rp.Backend.Lifecycle.{
  Server, closed_chan, started, Op, connect, disconnect, drain, end_listener, step, run,
  close_listener, any_closes, dropped, hand_over, still_serving, inc_in_flight, close_now,
  close_graceful, server_shutdown,
}
use rp.Backend.Draining.{Inv, Good, run-Inv, Others, Handed, Held-Handed, disconnect-on, drain-on}

reached-Inv : (h3 : Bool) (before : List Op) {s : Server} → run before (started h3) ≡ ok s → Inv s
reached-Inv h3 before e = subst Good e (run-Inv h3 before)

-- From any state that the program reaches in which the server runs and has counted a connection in
-- flight: while that connection is not done, others come and go, the backend is told to drain any
-- number of times, but is not stopped, and its listener is closed at any time after a drain. No step
-- panics, and neither does the send of the connection on the channel at the end: the server gets it,
-- or, only when the backend shuts down, the closed listener drops it. Of the others at most
-- 2 ^ 64 - 2 are open at a time.
pub server-Handed :
    (h3 : Bool) (before ops : List Op) (n : ℕ) {s : Server}
    → run before (started h3) ≡ ok s
    → s.http_server ≡ true
    → s.in_flight ≡ suc n
    → n + 2 ≤ word
    → Others n ops
    → Handed (run ops s)
server-Handed h3 before ops n {s} reached on count small others =
    Held-Handed ops n s (record { on = on; inv = reached-Inv h3 before reached; count = count })
      small others

-- A connection that has found its backend and is not counted yet is lost to a drain that comes in
-- between: from any state that the program reaches in which the server runs, is not shutting
-- down and has no connection in flight, `Proxy.backend` accepts the connection, the drain closes
-- the channel, and after `incInFlight` the send panics.
pub drain_race :
    (h3 : Bool) (before : List Op) {s : Server}
    → run before (started h3) ≡ ok s
    → s.http_server ≡ true
    → s.shutdown ≡ false
    → s.in_flight ≡ 0
    → (still_serving s ≡ ok tt) × ((run (drain ∷ connect ∷ []) s >>= hand_over) ≡ panic)
unfolding still_serving run step close_graceful inc_in_flight hand_over
drain_race h3 before reached on up idle =
    let open_now = (reached-Inv h3 before reached).serving on in (ground arith, ground arith)

-- A connection that has found its backend before a drain, is counted after it and sent once the
-- listener is closed is dropped: from any state that the program reaches in which the server runs,
-- is not shutting down and has a connection in flight, up to 2 ^ 64 - 2, `Proxy.backend` accepts
-- the connection, and after the drain, `incInFlight` and the close of the listener, what is sent on
-- the channel reaches no server.
pub drain_drops :
    (h3 : Bool) (before : List Op) (n : ℕ) {s : Server}
    → run before (started h3) ≡ ok s
    → s.http_server ≡ true
    → s.shutdown ≡ false
    → s.in_flight ≡ suc n
    → n + 2 < word
    → (still_serving s ≡ ok tt)
      × ((run (drain ∷ connect ∷ end_listener ∷ []) s >>= hand_over) ≡ ok dropped)
unfolding still_serving run step close_graceful inc_in_flight hand_over close_listener any_closes
drain_drops h3 before n reached on up count small =
    let open_now = (reached-Inv h3 before reached).serving on in (ground arith, ground arith)

abbrev pub disconnects : ℕ → List Op
disconnects n = replicate n disconnect

drained : Server → Server
drained s = record s { in_flight = 0; http_server = false; conn_chan = closed_chan }

last-drained :
    (s : Server)
    → Inv s
    → s.http_server ≡ true
    → s.shutdown ≡ true
    → s.in_flight ≡ 1
    → step disconnect s ≡ ok (drained s)
unfolding step inc_in_flight drained
last-drained s i on down e = ground arith

run-disconnects :
    (n : ℕ) (s : Server)
    → Inv s
    → s.http_server ≡ true
    → s.shutdown ≡ true
    → s.in_flight ≡ suc n
    → n + 2 ≤ word
    → run (disconnects (suc n)) s ≡ ok (drained s)
unfolding run
run-disconnects zero s i on down e small = rw (last-drained s i on down e) refl
run-disconnects (suc n) s i on down e small =
    let next = record s { in_flight = suc n } in
    let inv : Inv next = record {
      serving = i.serving;
      ended = i.ended;
      busy = λ p q z. omega arith;
      calm = i.calm;
      taking = i.taking;
    } in
    rw (disconnect-on n s i on e (omega arith))
      (run-disconnects n next inv on down refl (omega arith) ∙ (unfold drained in refl))

abbrev pub LeavesH3 : Call Error Server → Type 0
LeavesH3 (ok t) = (t.http_server ≡ false) × (t.http3_server ≡ true)
LeavesH3 (err e) = ⊥
LeavesH3 panic = ⊥

step-LeavesH3 :
    (o : Op) (s : Server) → s.http_server ≡ false → s.http3_server ≡ true → LeavesH3 (step o s)
unfolding step inc_in_flight close_now close_graceful close_listener
step-LeavesH3 connect s off h3 = ground arith
step-LeavesH3 o s off h3 = ground arith

bind-LeavesH3 :
    (m : Call Error Server) (f : Server → Call Error Server)
    → LeavesH3 m
    → ((t : Server) → t.http_server ≡ false → t.http3_server ≡ true → LeavesH3 (f t))
    → LeavesH3 (m >>= f)
bind-LeavesH3 (ok t) f h k = k t h.0 h.1
bind-LeavesH3 (err e) f h k = absurd h
bind-LeavesH3 panic f h k = absurd h

run-LeavesH3 :
    (ops : List Op) (s : Server)
    → s.http_server ≡ false
    → s.http3_server ≡ true
    → LeavesH3 (run ops s)
unfolding run
run-LeavesH3 [] s off h3 = (off, h3)
run-LeavesH3 (o ∷ ops) s off h3 =
    bind-LeavesH3 (step o s) (run ops) (step-LeavesH3 o s off h3) (run-LeavesH3 ops)

run-append : (xs ys : List Op) (s : Server) → run (xs ++ ys) s ≡ (run xs s >>= run ys)
unfolding run
run-append [] ys s = refl
run-append (x ∷ xs) ys s =
    ap (λ k. step x s >>= k) (fun_ext (λ t. run-append xs ys t))
    ∙ sym (bind_assoc (step x s) (run xs) (run ys))

-- A backend that is closed gracefully while connections are in flight never closes its HTTP/3
-- server: from any state that the program reaches in which both servers run and one connection
-- or more, up to 2 ^ 64 - 2, are in flight, after a drain, the end of these connections, and
-- any further connections, calls of `close` and closes of the listener, the HTTP server is gone and
-- the HTTP/3 server is not.
pub h3_left :
    (before later : List Op) (n : ℕ) {s : Server}
    → run before (started true) ≡ ok s
    → s.http_server ≡ true
    → s.http3_server ≡ true
    → s.in_flight ≡ suc n
    → n + 2 ≤ word
    → LeavesH3 (run (drain ∷ (disconnects (suc n) ++ later)) s)
h3_left before later n {s} reached on h3 count small =
    let i = reached-Inv true before reached in
    let next = record s { shutdown = true; spawned = server_shutdown ∷ s.spawned } in
    let inv : Inv next = record {
      serving = i.serving;
      ended = i.ended;
      busy = λ p q z. omega (arith, count);
      calm = λ p q. absurd (ground arith);
      taking = λ p q. absurd (ground arith);
    } in
    unfold run in
    rw (drain-on n s i on count, run-append (disconnects (suc n)) later next)
      (rw (run-disconnects n next inv on refl count small)
        (run-LeavesH3 later (drained next) (unfold drained in refl) (unfold drained in h3)))
