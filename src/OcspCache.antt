-- ===== src/OcspCache.antt =====
-- proxy/internal/ocspcache/ocsp.go: the check of a certificate's chains against OCSP. The LRU cache,
-- the clock of each test, the parser of stapled answers and the requests to the OCSP servers are
-- parameters.
pub mod Chains
use Prim.Native.String.{String}
use rp.Prelude.{
  ℕ, ◌+◌, Bool, true, false, ◌&&◌, Option, none, some, List, [], ◌∷◌, ltb, if◌then◌else◌,
}

pub data OcspError : Type 0 where
  internal protocol revoked_error unknown_error : OcspError
  server_error : ℕ → OcspError

pub data Status : Type 0 where
  good revoked unknown : Status
  other_status : ℕ → Status

pub record Response : Type 0 where
  pub status : Status
  pub next_update : ℕ

pub record Certificate : Type 0 where
  pub hash : String
  pub ocsp_server : List String

pub data Fetched : Type 0 where
  got : Response → Fetched
  failed : OcspError → Fetched

-- The parameters, over a state `S` that holds the cache and whatever the world is.
pub record World (S : Type 0) : Type 0 where
  pub get : String → S → S × Option Response
  pub add : String → Response → S → S
  pub now : S → ℕ
  pub creates_request : Certificate → Certificate → Bool
  pub fetch_one : Certificate → Certificate → String → S → S × Fetched
  -- `ocsp.ParseResponseForCert` of a stapled answer.
  pub parse_stapled : String → Certificate → Certificate → Option Response

-- What the answer for one certificate means: go on with this error, or give the chain up with it.
pub data Judgement : Type 0 where
  go_on : Option OcspError → Judgement
  give_up : OcspError → Judgement

module _ {S : Type 0} (w : World S) where
  abbrev pub is_final : Fetched → Bool
  is_final (failed e) = false
  is_final (got r) = elim r.status [ unknown ↦ false | _ ↦ true ]

  -- The loop over the servers, with what the last of them said.
  unfoldable pub fetch_servers : Certificate → Certificate → List String → Fetched → S → S × Fetched
  fetch_servers cert issuer [] last s = (s, last)
  fetch_servers cert issuer (server ∷ servers) last s =
      let r = w.fetch_one cert issuer server s in
      elim (is_final r.1) [ true ↦ r | false ↦ fetch_servers cert issuer servers r.1 r.0 ]

  -- The function is called for certificates with a server only; with none it returns nil twice,
  -- which stands here as an error.
  unfoldable pub fetch_ocsp : Certificate → Certificate → S → S × Fetched
  unfolding fetch_servers
  fetch_ocsp cert issuer s =
      if w.creates_request cert issuer
      then fetch_servers cert issuer cert.ocsp_server (failed internal) s
      else (s, failed internal)

  abbrev pub fresh : Option Response → ℕ → Option Response
  fresh none now = none
  fresh (some r) now = if ltb now r.next_update then some r else none

  abbrev pub add_got : Certificate → S × Fetched → S × Fetched
  add_got cert (s, got r) = (w.add cert.hash r s, got r)
  add_got cert (s, failed e) = (s, failed e)

  unfoldable pub response : Certificate → Certificate → ℕ → S → S × Fetched
  unfolding fetch_ocsp
  response cert issuer margin s =
      let r = w.get cert.hash s in
      elim (fresh r.1 (w.now r.0 + margin)) [
        | some resp ↦ (r.0, got resp)
        | none ↦ add_got cert (fetch_ocsp cert issuer r.0)
      ]

  abbrev pub issuer_in : Certificate → List Certificate → Certificate
  issuer_in cert [] = cert
  issuer_in cert (c ∷ cs) = c

  abbrev pub judge : Option OcspError → Fetched → Judgement
  judge last (failed internal) = go_on last
  judge last (failed e) = give_up e
  judge last (got r) = elim r.status [
    | good ↦ go_on none
    | revoked ↦ give_up revoked_error
    | unknown ↦ give_up unknown_error
    | other_status n ↦ give_up protocol
  ]

  -- The inner loop from `lastError`: whether the chain was gone through, and `lastError` then.
  unfoldable pub check_chain : List Certificate → Option OcspError → S → S × Bool × Option OcspError
  check_chain [] last s = (s, true, last)
  check_chain (cert ∷ rest) last s = elim cert.ocsp_server [
    | [] ↦ check_chain rest last s
    | server ∷ servers ↦
        let r = response cert (issuer_in cert rest) 0 s in
        elim (judge last r.1) [
          | go_on l ↦ check_chain rest l r.0
          | give_up e ↦ (r.0, false, some e)
        ]
  ]

  unfoldable pub check_chains :
      List (List Certificate) → Option OcspError → S → S × Option OcspError
  unfolding check_chain
  check_chains [] last s = (s, last)
  check_chains (chain ∷ chains) last s =
      let r = check_chain chain last s in
      elim r.1 [ true ↦ (r.0, r.2) | false ↦ check_chains chains r.2 r.0 ]

  abbrev pub is_good : Response → Bool
  is_good r = elim r.status [ good ↦ true | _ ↦ false ]

  abbrev pub is_revoked_entry : Option Response → Bool
  is_revoked_entry none = false
  is_revoked_entry (some r) = elim r.status [ revoked ↦ true | _ ↦ false ]

  -- A stapled answer that is good goes into the cache, unless the cache says `Revoked`.
  unfoldable pub take_stapled : Option String → List (List Certificate) → S → S × Option OcspError
  take_stapled (some text) ((cert ∷ issuer ∷ more) ∷ chains) s =
      elim (w.parse_stapled text cert issuer) [
        | none ↦ (s, none)
        | some resp ↦
            if ltb (w.now s) resp.next_update && is_good resp
            then (let r = w.get cert.hash s in
                if is_revoked_entry r.1
                then (r.0, some revoked_error)
                else (w.add cert.hash resp r.0, none))
            else (s, none)
      ]
  take_stapled _ _ s = (s, none)

  unfoldable pub verify_chains : List (List Certificate) → Option String → S → S × Option OcspError
  unfolding take_stapled check_chains
  verify_chains chains stapled s =
      let r = take_stapled stapled chains s in
      elim r.1 [ some e ↦ (r.0, some e) | none ↦ check_chains chains none r.0 ]
