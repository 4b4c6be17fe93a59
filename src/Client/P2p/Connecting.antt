-- ===== src/Client/P2p/Connecting.antt =====
-- How `SocketP2PConnector::connect` ends (client/app_core/crates/p2p/src/runtime.rs).
use slan.Prelude.{
  String, false, ◌≡◌, ◌≢◌, refl, List, [], ◌∷◌, Result, ok, err, some, concat, ◌==◌, eq_iff,
  if_cases,
}
use slan.AppCore.Connection.{ConnectionState, connected, failed, p2p_path}
use slan.Client.Action.{◌>>=◌, pure, gets, modify, fail, fail_if, lift, next}
use slan.Client.System.{System}
use slan.Client.P2p.{PeerCandidate, P2p, Method, attempt, connect_tcp, take_stream, connect}

-- an error after what it is about
abbrev about : String → String → String → String → String
about before endpoint after e = concat (concat (before ∷ endpoint ∷ after ∷ []) ∷ e ∷ [])

-- The outcomes of an attempt to reach a peer: of a TCP candidate, a stream to the first address that its
-- endpoint resolves to, dialled with the connector's timeout, which is kept with the peer's name, or the
-- reason of the step that failed, and then nothing has changed but the system; of another candidate, a
-- reason that names it, and nothing has changed.
pub data Attempt (S : System) (peer : PeerCandidate) (s : P2p S)
    : Result String ConnectionState × P2p S → Type 0 where
  reached :
      (addr : S.Addr) (rest : List S.Addr) (u system' : S.State) (stream : S.Tcp)
      → peer.candidate_type ≡ "tcp"
      → S.resolve peer.endpoint s.system ≡ (ok (addr ∷ rest), u)
      → S.tcp_connect addr s.connect_timeout u ≡ (ok stream, system')
      → Attempt S peer s (
        ok (connected p2p_path),
        record s {
          active_stream = some stream;
          peer_node_id = some peer.peer_node_id;
          system = system';
        },
      )
  unresolved :
      (e : String) (u : S.State)
      → peer.candidate_type ≡ "tcp"
      → S.resolve peer.endpoint s.system ≡ (err e, u)
      → Attempt S peer s (
        ok (failed (about "resolve tcp endpoint " peer.endpoint ": " e)),
        record s { system = u },
      )
  no_address :
      (u : S.State)
      → peer.candidate_type ≡ "tcp"
      → S.resolve peer.endpoint s.system ≡ (ok [], u)
      → Attempt S peer s (
        ok (failed (concat ("no tcp address resolved for " ∷ peer.endpoint ∷ []))),
        record s { system = u },
      )
  refused :
      (addr : S.Addr) (rest : List S.Addr) (e : String) (u system' : S.State)
      → peer.candidate_type ≡ "tcp"
      → S.resolve peer.endpoint s.system ≡ (ok (addr ∷ rest), u)
      → S.tcp_connect addr s.connect_timeout u ≡ (err e, system')
      → Attempt S peer s (
        ok (failed (about "tcp connect to " peer.endpoint " failed: " e)),
        record s { system = system' },
      )
  udp_candidate :
      peer.candidate_type ≡ "udp"
      → Attempt S peer s (
        ok (
            failed (
              concat (
                "udp p2p connect not implemented for " ∷ peer.peer_node_id ∷ " via " ∷ peer.endpoint
                ∷ []))),
        s,
      )
  unsupported :
      peer.candidate_type ≢ "tcp"
      → peer.candidate_type ≢ "udp"
      → Attempt S peer s (
        ok (
            failed (
              concat (
                "unsupported p2p candidate type for " ∷ peer.peer_node_id ∷ ": "
                ∷ peer.candidate_type ∷ []))),
        s,
      )

-- what a call of the system came to
data Answer {A State : Type 0} (q : Result String A × State) : Type 0 where
  well : (a : A) (u : State) → q ≡ (ok a, u) → Answer q
  badly : (e : String) (u : State) → q ≡ (err e, u) → Answer q

answer_of : {A State : Type 0} (q : Result String A × State) → Answer q
answer_of (ok a, u) = well a u refl
answer_of (err e, u) = badly e u refl

module _ (S : System) (peer : PeerCandidate) (s : P2p S) (live : s.poisoned ≡ false) where
  dialled : P2p S → Result String ConnectionState × P2p S
  dialled t = (attempt S (connect_tcp S peer.endpoint) >>= λ r. take_stream S peer r) t

  dialled-Attempt : peer.candidate_type ≡ "tcp" → Attempt S peer s (dialled s)
  unfolding dialled connect_tcp ◌>>=◌ pure fail fail_if gets modify lift next
  dialled-Attempt is_tcp = elim (answer_of (S.resolve peer.endpoint s.system)) [
    | badly e u h ↦ rw h (unresolved e u is_tcp h)
    | well [] u h ↦ rw h (no_address u is_tcp h)
    | well (addr ∷ rest) u h ↦ elim (answer_of (S.tcp_connect addr s.connect_timeout u)) [
      | badly e v g ↦ rw (h, g) (refused addr rest e u v is_tcp h g)
      | well stream v g ↦ rw (h, g, live) (reached addr rest u v stream is_tcp h g)
    ]
  ]

  -- Unless a panic has poisoned the lock, connecting never fails: of a TCP candidate it ends with a stream
  -- to the first address of the peer's endpoint, dialled with the connector's timeout, which is kept with
  -- the peer's name, or with the reason of the step that failed, and then what was kept stays; of any
  -- other candidate it ends with a reason that names it, and nothing is asked of the system.
  pub connect-Attempt : Attempt S peer s (connect S peer s)
  unfolding connect dialled pure
  connect-Attempt =
      if_cases {A = Method S ConnectionState} (λ m. Attempt S peer s (m s))
        (peer.candidate_type == "tcp") _ _
        (λ is_tcp. dialled-Attempt ((eq_iff peer.candidate_type "tcp").0 is_tcp))
        (λ not_tcp.
          if_cases {A = Method S ConnectionState} (λ m. Attempt S peer s (m s))
            (peer.candidate_type == "udp") _ _
            (λ is_udp. udp_candidate ((eq_iff peer.candidate_type "udp").0 is_udp))
            (λ not_udp.
              unsupported (λ e. cc ((eq_iff peer.candidate_type "tcp").1 e, not_tcp))
                (λ e. cc ((eq_iff peer.candidate_type "udp").1 e, not_udp))))
