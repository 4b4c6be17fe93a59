-- ===== src/Client/Derp/Reach.antt =====
-- What holds of a `SocketDerpClient` after any calls
-- (client/app_core/crates/relay-client/src/runtime.rs).
use slan.Prelude.{ℕ, String, true, false, ◌≡◌, refl, ◌∙◌, List, Option, Result, if_cases, is_some}
use slan.AppCore.Derp.{DerpNodeMeta, DerpTransport, RelayTicket}
use slan.Client.Action.{modify}
use slan.Client.Action.Keeps.{
  Keeps, Keeps-next, Keeps-bind, Keeps-pure, Keeps-fail, Keeps-lift, Keeps-gets, Keeps-fail_if,
  Keeps-need, Keeps-modify,
}
use slan.Client.System.{System, tcp, udp}
use slan.Client.Derp.{
  DerpClientState, Derp, Method, Socket, new_derp, require_ready_state, send_to, receive_from,
  reset, got_packet, connect_node, attach_ticket, send_transport_packet, poll_transport_packet,
  probe, close, open_socket, connect_tcp, connect_udp, attached, heard, probed_at, closed_down, ask,
}

-- a call of the client
pub data DerpCall : Type 0 where
  connect : DerpNodeMeta → DerpCall
  attach : RelayTicket → DerpCall
  send : List ℕ → DerpCall
  poll probing closing : DerpCall

-- A client with a socket has a node, and no panic has poisoned it.
pub record Noded {T U V : Type 0} (s : DerpClientState T U V) : Type 0 where
  pub node : is_some s.active_socket ≡ true → is_some s.meta ≡ true
  pub live : s.poisoned ≡ false

module _ (S : System) where
  abbrev Sound : {A : Type 0} → Method S A → Type 0
  Sound m = Keeps (Noded {T = S.Tcp} {U = S.Udp} {V = S.State}) m

  ask-Sound : {E A : Type 0} (f : S.State → Result E A × S.State) → Sound (ask S f)
  ask-Sound f = record { holds = λ s n. record { node = n.node; live = n.live } }

  ruleset steps = (
    Keeps-bind, Keeps-pure, Keeps-fail, Keeps-lift, Keeps-gets, Keeps-fail_if, Keeps-need,
    Keeps-next, ask-Sound,
  )

  connect_tcp-Sound : (m : DerpNodeMeta) → Sound (connect_tcp S m)
  unfolding connect_tcp
  connect_tcp-Sound m = search steps depth 14

  connect_udp-Sound : (m : DerpNodeMeta) → Sound (connect_udp S m)
  unfolding connect_udp
  connect_udp-Sound m = search steps depth 14

  open_socket-Sound : (m : DerpNodeMeta) (t : DerpTransport) → Sound (open_socket S m t)
  open_socket-Sound m DerpTransport.tcp = connect_tcp-Sound m
  open_socket-Sound m DerpTransport.udp = connect_udp-Sound m
  open_socket-Sound m DerpTransport.quic = Keeps-fail _ _

  send_to-Sound : (b : List ℕ) (k : Socket S) → Sound (send_to S b k)
  send_to-Sound b (tcp stream) = search steps depth 14
  send_to-Sound b (udp socket) = search steps depth 14

  receive_from-Sound : (k : Socket S) → Sound (receive_from S k)
  receive_from-Sound (tcp stream) = search steps depth 14
  receive_from-Sound (udp socket) = search steps depth 14

  reset-Sound : (k : Socket S) → Sound (reset S k)
  reset-Sound (tcp stream) = search steps depth 14
  reset-Sound (udp socket) = search steps depth 14

  -- a change that leaves the lock alone, and a node wherever there is a socket
  update-Sound :
      (f : Derp S → Derp S)
      → ((s : Derp S) → (f s).poisoned ≡ s.poisoned)
      → ((s : Derp S) → Noded s → is_some (f s).active_socket ≡ true → is_some (f s).meta ≡ true)
      → Sound (modify f)
  update-Sound f h k = Keeps-modify _ f (λ s n. record { node = k s n; live = h s ∙ n.live })

  connect_node-Sound : (m : DerpNodeMeta) → Sound (connect_node S m)
  unfolding connect_node
  connect_node-Sound m = Keeps-bind _ _ _ (open_socket-Sound m m.transport) (λ k.
      Keeps-bind _ _ _ (search steps depth 14) (λ u. update-Sound _ (λ s. refl) (λ s n h. refl)))

  attached-Sound : (t : RelayTicket) → Sound (modify (attached S t))
  attached-Sound t = update-Sound (attached S t) (λ s. refl) (λ s n. n.node)

  probed_at-Sound : (now : ℕ) → Sound (modify (probed_at S now))
  probed_at-Sound now = update-Sound (probed_at S now) (λ s. refl) (λ s n. n.node)

  closed_down-Sound : Sound (modify (closed_down S))
  closed_down-Sound = update-Sound (closed_down S) (λ s. refl) (λ s n h. cc)

  heard-Sound : (r : Result String (Option (List ℕ))) → Sound (modify (heard S r))
  heard-Sound r = Keeps-modify _ (heard S r) (λ s n.
      if_cases Noded (got_packet r) _ _ (λ got. record { node = n.node; live = n.live })
        (λ nothing. n))

  attach_ticket-Sound : (t : RelayTicket) → Sound (attach_ticket S t)
  unfolding attach_ticket
  attach_ticket-Sound t = search (steps, attached-Sound) depth 14

  require-Sound : Sound (require_ready_state S)
  unfolding require_ready_state
  require-Sound = search steps depth 14

  send-Sound : (b : List ℕ) → Sound (send_transport_packet S b)
  unfolding send_transport_packet
  send-Sound b = search (steps, require-Sound, send_to-Sound) depth 14

  poll-Sound : Sound (poll_transport_packet S)
  unfolding poll_transport_packet
  poll-Sound = search (steps, require-Sound, receive_from-Sound, reset-Sound, heard-Sound) depth 14

  probe-Sound : Sound (probe S)
  unfolding probe
  probe-Sound = search (steps, require-Sound, probed_at-Sound) depth 14

  close-Sound : Sound (close S)
  unfolding close
  close-Sound = search (steps, closed_down-Sound) depth 14

  -- what a call leaves
  unfoldable pub after : Derp S → DerpCall → Derp S
  after s (connect m) = (connect_node S m s).1
  after s (attach t) = (attach_ticket S t s).1
  after s (send b) = (send_transport_packet S b s).1
  after s poll = (poll_transport_packet S s).1
  after s probing = (probe S s).1
  after s closing = (close S s).1

  pub data ReachableDerp : Derp S → Type 0 where
    made : ReachableDerp (new_derp S)
    called : {s : Derp S} (c : DerpCall) → ReachableDerp s → ReachableDerp (after s c)

  after-Noded : (s : Derp S) (c : DerpCall) → Noded s → Noded (after s c)
  unfolding after
  after-Noded s (connect m) n = (connect_node-Sound m).holds s n
  after-Noded s (attach t) n = (attach_ticket-Sound t).holds s n
  after-Noded s (send b) n = (send-Sound b).holds s n
  after-Noded s poll n = poll-Sound.holds s n
  after-Noded s probing n = probe-Sound.holds s n
  after-Noded s closing n = close-Sound.holds s n

  pub ReachableDerp-Noded : {s : Derp S} → ReachableDerp s → Noded s
  unfolding new_derp
  ReachableDerp-Noded made = record { node = λ h. cc; live = refl }
  ReachableDerp-Noded (called {s} c r) = after-Noded s c (ReachableDerp-Noded r)
