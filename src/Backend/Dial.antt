-- ===== src/Backend/Dial.antt =====
-- The choice of a server for a connection: the round robin of `dial`, in proxy/backend.go. Other
-- calls of `dial` run between the locked sections of this one. What a try of an address does is
-- a parameter: it fails, it opens a connection, or it opens one on which the PROXY protocol header
-- cannot be written, which the program then closes.
use Prim.Native.String.{String}
use rp.Prelude.{
  ℕ, zero, suc, ◌+◌, ◌%◌, Bool, true, false, Option, none, some, List, [], ◌∷◌, ◌++◌, ltb,
  if◌then◌else◌, length, get_or,
}
use rp.Prelude.Call.{Call, ok, err, panic}
use rp.Backend.{Mode, Error, no_addresses, dial_failed}

pub data Try : Type 0 where
  failed connected header_failed : Try

-- What the connection goes by: that of the backend, or of the path override that the context names.
pub record Target : Type 0 where
  pub addresses : List String
  pub mode : Mode
  pub proxy_proto_version : ℕ

unfoldable pub target : Target → List Target → Option ℕ → Target
target be overrides none = be
target be overrides (some id) = if ltb id (length overrides) then get_or overrides id be else be

-- The tries that a call made, in order, with the connections that it opened and closed.
pub record Trace : Type 0 where
  pub next : ℕ
  pub tried : List String
  pub opened : ℕ
  pub closed : ℕ

-- `others i next` is the shared index after what the other calls did before the try `i`, and
-- `attempt i addr` the outcome of this try.
pub record Network : Type 0 where
  pub others : ℕ → ℕ → ℕ
  pub attempt : ℕ → String → Try

abbrev pub note_try : Try → Trace → String → ℕ → Trace
note_try failed t addr next = record t { next = next; tried = t.tried ++ addr ∷ [] }
note_try connected t addr next = record t {
  next = next;
  tried = t.tried ++ addr ∷ [];
  opened = t.opened + 1;
}
note_try header_failed t addr next = record t {
  next = next;
  tried = t.tried ++ addr ∷ [];
  opened = t.opened + 1;
  closed = t.closed + 1;
}

abbrev pub is_connected : Try → Bool
is_connected connected = true
is_connected _ = false

-- The header is written only where a version is set, and not over QUIC.
abbrev pub outcome : Target → Try → Try
outcome t header_failed =
    if writes_header t.mode t.proxy_proto_version then header_failed else connected
  where
    writes_header : Mode → ℕ → Bool
    writes_header Mode.quic v = false
    writes_header _ v = ltb 0 v
outcome t r = r

-- One turn: the address and what the try did; `none` for an index out of range.
unfoldable pub turn : Network → Target → ℕ → Trace → Option (Trace × Bool × String)
turn net t i s =
    let next = net.others i s.next in
    let addr = get_or t.addresses next "" in
    let r = outcome t (net.attempt i addr) in
    if ltb next (length t.addresses)
    then some (note_try r s addr ((next + 1) % length t.addresses), is_connected r, addr)
    else none

-- The loop, with `left + 1` tries left, at the try `i`.
unfoldable pub dial_loop : Network → Target → ℕ → ℕ → Trace → Trace × Call Error String
unfolding turn
dial_loop net t zero i s = elim (turn net t i s) [
  | none ↦ (s, panic)
  | some (after, true, addr) ↦ (after, ok addr)
  | some (after, false, addr) ↦ (after, err (dial_failed i))
]
dial_loop net t (suc n) i s = elim (turn net t i s) [
  | none ↦ (s, panic)
  | some (after, true, addr) ↦ (after, ok addr)
  | some (after, false, addr) ↦ dial_loop net t n (i + 1) after
]

abbrev pub start_trace : ℕ → Trace
start_trace next = record { next = next; tried = []; opened = 0; closed = 0 }

unfoldable pub dial : Network → Target → List Target → Option ℕ → ℕ → Trace × Call Error String
unfolding dial_loop target
dial net be overrides id next =
    let t = target be overrides id in
    elim t.addresses [
      | [] ↦ (start_trace next, err no_addresses)
      | a ∷ rest ↦ dial_loop net t (length rest) 0 (start_trace next)
    ]
