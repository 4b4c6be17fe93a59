-- ===== src/Client/Derp/Ready.antt =====
-- Sending by a `SocketDerpClient`, and what its snapshot shows
-- (client/app_core/crates/relay-client/src/runtime.rs).
use slan.Prelude.{
  ℕ, String, false, ◌≡◌, ◌≢◌, refl, List, null, some, Result, err, inl, inr, Bool-cases,
  Option-cases,
}
use slan.AppCore.Derp.{DerpNodeMeta, ready, RelayTicket}
use slan.Client.Action.{◌>>=◌, ◌>>◌, pure, fail, fail_if, need, gets}
use slan.Client.System.{System}
use slan.Client.Derp.{
  Derp, Method, Socket, derp_poisoned, lock, require_ready_state, its_socket, send_to,
  send_transport_packet, snapshot,
}

module _ (S : System) where
  -- a method that needs a ready link
  abbrev on_ready : {A : Type 0} → (Socket S → Method S A) → Method S A
  on_ready rest = do lock S; require_ready_state S; socket ← its_socket S; rest socket

  -- nothing but an error
  abbrev pub Refused : {A : Type 0} → Result String A × Derp S → Derp S → Type 0
  Refused q s = (e : String) × (q ≡ (err e, s))

  on_ready-Refused :
      {A : Type 0} (s : Derp S) (rest : Socket S → Method S A)
      → (snapshot S s).state ≢ ready
      → Refused (on_ready rest s) s
  unfolding require_ready_state snapshot ◌>>=◌ gets need fail_if pure fail
  on_ready-Refused s rest unready = elim (Bool-cases s.poisoned) [
    | inl dead ↦ (derp_poisoned, rw dead refl)
    | inr live ↦ elim (Option-cases s.meta) [
      | inl no_node ↦ ("derp client has no connected node", rw (live, no_node) refl)
      | inr (m, node) ↦ elim (Option-cases s.ticket) [
        | inl no_ticket ↦ ("derp client has no attached ticket", rw (live, node, no_ticket) refl)
        | inr (t, held) ↦ elim (Bool-cases s.closed) [
          | inl over ↦ ("derp client is closed", rw (live, node, held, over) refl)
          | inr still ↦ elim (Option-cases s.active_socket) [
            | inl no_socket ↦
                ("derp client has no active socket", rw (live, node, held, still, no_socket) refl)
            | inr (k, there) ↦ elim (unready (rw (live, still, held, there) refl)) [ ]
          ]
        ]
      ]
    ]
  ]

  -- A client whose snapshot is not ready refuses to send: nothing reaches a socket, and nothing
  -- changes.
  pub send-Refused :
      (s : Derp S) (bytes : List ℕ)
      → (snapshot S s).state ≢ ready
      → Refused (send_transport_packet S bytes s) s
  unfolding send_transport_packet ◌>>=◌ fail_if fail pure
  send-Refused s bytes unready = elim (Bool-cases (null bytes)) [
    | inl empty ↦ ("cannot send empty packet to derp node", rw empty refl)
    | inr full ↦ (let (e, h) = on_ready-Refused s (send_to S bytes) unready in (e, rw full h))
  ]

  -- what a ready snapshot tells of a client
  pub record IsReady (s : Derp S) : Type 0 where
    pub socket : Socket S
    pub open_socket : s.active_socket ≡ some socket
    pub ticket : RelayTicket
    pub held : s.ticket ≡ some ticket
    pub node : DerpNodeMeta
    pub its_node : s.meta ≡ some node
    pub still : s.closed ≡ false
