-- ===== src/Backend/Lifecycle.antt =====
-- The life of a backend's HTTP server: `incInFlight` and `close` of proxy/backend.go, the channel
-- on which `handleHTTPConnection` of proxy/proxy.go hands it connections, the listener of
-- proxy/http.go that takes them from there, and `Proxy.backend`'s test for a backend that shuts
-- down. An `int` is its bit pattern below 2 ^ 64. net/http is not modelled: of its `Close` and
-- `Shutdown` only that they close the server's listener, at some time after they were started.
use rp.Prelude.{ℕ, ◌+◌, ◌%◌, Bool, true, false, ◌&&◌, ◌||◌, List, [], ◌∷◌, ◌==◌, if◌then◌else◌}
use rp.Prelude.Call.{Call, ok, err, panic, ◌>>=◌}
use rp.Counter.{word}
use rp.Backend.{Error, backend_shutdown}

-- `httpConnChan`.
pub data Chan : Type 0 where
  nil_chan open_chan closed_chan : Chan

-- What a call starts with `go`: it runs later, and of this state it changes at most the listener.
pub data Spawn : Type 0 where
  server_close server_shutdown h3_close : Spawn

pub record Server : Type 0 where
  pub in_flight : ℕ
  pub shutdown : Bool
  pub http_server : Bool
  pub http3_server : Bool
  pub conn_chan : Chan
  pub listening : Bool
  pub spawned : List Spawn

-- A backend whose mode has an HTTP server, as `reconfigure` makes it, with HTTP/3 or without.
abbrev pub started : Bool → Server
started h3 = record {
  in_flight = 0;
  shutdown = false;
  http_server = true;
  http3_server = h3;
  conn_chan = open_chan;
  listening = true;
  spawned = [];
}

-- Closing a channel that is nil or closed panics.
unfoldable pub close_chan : Server → Call Error Server
close_chan s = elim s.conn_chan [
  | nil_chan ↦ panic
  | open_chan ↦ ok (record s { conn_chan = closed_chan })
  | closed_chan ↦ panic
]

unfoldable pub inc_in_flight : ℕ → Server → Call Error (Server × ℕ)
unfolding close_chan
inc_in_flight delta s =
    let n = (s.in_flight + delta) % word in
    let t = record s { in_flight = n } in
    if n == 0 && s.shutdown && s.http_server
    then (do u ← close_chan t; ok (record u { http_server = false }, n))
    else ok (t, n)

-- `if h3 := be.http3Server; h3 != nil { be.http3Server = nil; go h3.Close() }`
unfoldable pub close_h3 : Server → Server
close_h3 s =
    if s.http3_server then record s { http3_server = false; spawned = h3_close ∷ s.spawned } else s

-- `be.close(nil)`
unfoldable pub close_now : Server → Call Error Server
unfolding close_chan close_h3
close_now s =
    if s.http_server
    then (do
      t ← close_chan s
      ok (close_h3 (record t { http_server = false; spawned = server_close ∷ t.spawned })))
    else ok s

-- `be.close(ctx)`
unfoldable pub close_graceful : Server → Call Error Server
unfolding close_chan close_h3
close_graceful s =
    let t = record s { shutdown = true; spawned = server_shutdown ∷ s.spawned } in
    if s.http_server
    then if t.in_flight == 0
      then (do u ← close_chan t; ok (close_h3 (record u { http_server = false })))
      else ok t
    else ok s

-- `Close` of the listener. From then on its own goroutine takes the connections from the channel
-- and drops them.
unfoldable pub close_listener : Server → Server
close_listener s = if s.listening then record s { listening = false } else s

abbrev pub closes_server : Spawn → Bool
closes_server h3_close = false
closes_server _ = true

unfoldable pub any_closes : List Spawn → Bool
any_closes [] = false
any_closes (x ∷ xs) = closes_server x || any_closes xs

-- What becomes of a connection that is sent on the channel: `Accept` returns it to the server, or
-- it is dropped, neither served nor closed. `handleHTTPConnection` closes it when there is no
-- channel.
pub data Delivery : Type 0 where
  served dropped refused : Delivery

-- The end of `handleHTTPConnection`, when the channel is read next.
unfoldable pub hand_over : Server → Call Error Delivery
hand_over s = elim s.conn_chan [
  | nil_chan ↦ ok refused
  | open_chan ↦ ok (if s.listening then served else dropped)
  | closed_chan ↦ panic
]

-- The end of `Proxy.backend`.
unfoldable pub still_serving : Server → Call Error (Unit {0})
still_serving s = if s.shutdown then err backend_shutdown else ok tt

-- One locked section of a goroutine, or the call of the listener's `Close` by a `Close` or
-- `Shutdown` of the server that was started.
pub data Op : Type 0 where
  connect disconnect stop drain end_listener : Op

-- -1
abbrev pub minus_one : ℕ
minus_one = 18446744073709551615

unfoldable pub step : Op → Server → Call Error Server
unfolding inc_in_flight close_now close_graceful close_listener any_closes
step connect s = do r ← inc_in_flight 1 s; ok r.0
step disconnect s = do r ← inc_in_flight minus_one s; ok r.0
step stop s = close_now s
step drain s = close_graceful s
step end_listener s = ok (if any_closes s.spawned then close_listener s else s)

-- A sequence of them, in the order in which they run.
unfoldable pub run : List Op → Server → Call Error Server
run [] s = ok s
run (o ∷ os) s = step o s >>= run os
