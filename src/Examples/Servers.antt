-- ===== src/Examples/Servers.antt =====
-- A backend with a server and two addresses.
use rp.Prelude.{◌≡◌, refl, true, none, [], ◌∷◌, ◌++◌, arith}
use rp.Prelude.Call.{ok, panic, ◌>>=◌}
use rp.Backend.{tcp}
use rp.Backend.Lifecycle.{
  Server, started, connect, disconnect, stop, drain, end_listener, dropped, step, run, hand_over,
  still_serving, inc_in_flight,
}
use rp.Backend.Draining.{Good, Handed, run-Inv}
use rp.Backend.Shutdown.{server-Handed, drain_race, drain_drops, h3_left, LeavesH3, disconnects}
use rp.Backend.Dial.{dial_loop, turn, header_failed, Target, target, Network, dial}
use rp.Backend.Coverage.{dial-tries_all}
use rp.Prelude.Text.{IsIn}
use rp.Backend.RoundRobin.{is_err, Done, dial-Done}

run-Inv_example : Good (run (connect ∷ drain ∷ disconnect ∷ stop ∷ connect ∷ []) (started true))
run-Inv_example = run-Inv true (connect ∷ drain ∷ disconnect ∷ stop ∷ connect ∷ [])

abbrev one_open : Server
one_open = record (started true) { in_flight = 1 }

connected_once : run (connect ∷ []) (started true) ≡ ok one_open
unfolding run step inc_in_flight
connected_once = refl

nothing_yet : run [] (started true) ≡ ok (started true)
unfolding run
nothing_yet = refl

server-Handed_example : Handed (run (connect ∷ drain ∷ end_listener ∷ disconnect ∷ []) one_open)
server-Handed_example =
    server-Handed true (connect ∷ []) (connect ∷ drain ∷ end_listener ∷ disconnect ∷ []) 0
      connected_once refl refl (omega arith) (omega arith, tt)

drain_race_example :
    (still_serving (started true) ≡ ok tt)
    × ((run (drain ∷ connect ∷ []) (started true) >>= hand_over) ≡ panic)
drain_race_example = drain_race true [] nothing_yet refl refl refl

drain_drops_example :
    (still_serving one_open ≡ ok tt)
    × ((run (drain ∷ connect ∷ end_listener ∷ []) one_open >>= hand_over) ≡ ok dropped)
drain_drops_example = drain_drops true (connect ∷ []) 0 connected_once refl refl refl (omega arith)

h3_left_example : LeavesH3 (run (drain ∷ (disconnects 1 ++ (stop ∷ []))) one_open)
h3_left_example = h3_left (connect ∷ []) (stop ∷ []) 0 connected_once refl refl refl (omega arith)

abbrev two_servers : Target
two_servers = record {
  addresses = "10.0.0.1:80" ∷ "10.0.0.2:80" ∷ [];
  mode = tcp;
  proxy_proto_version = 2;
}

abbrev network : Network
network = record { others = λ i n. n; attempt = λ i a. header_failed }

dial-Done_example : Done (target two_servers [] none) 2 (dial network two_servers [] none 1)
unfolding target
dial-Done_example = dial-Done network two_servers [] none 1 (omega arith) (λ i n h. h)

gave_up : is_err (dial network two_servers [] none 1).1 ≡ true
unfolding dial target dial_loop turn
gave_up = refl

dial-tries_all_example : IsIn "10.0.0.1:80" (dial network two_servers [] none 1).0.tried
unfolding target
dial-tries_all_example =
    dial-tries_all network two_servers [] none 1 (λ i n. refl) (omega arith) gave_up 0 (omega arith)
