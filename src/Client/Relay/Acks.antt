-- ===== src/Client/Relay/Acks.antt =====
-- When a send of `SocketRelayClient` goes well, and what it makes of the answer of the daemon
-- (client/app_core/crates/relay-client/src/runtime.rs).
use slan.Prelude.{
  ℕ, String, false, ◌≡◌, ◌↔◌, refl, ap, subst, List, [], ◌∷◌, null, length, Option, none, some,
  Result, ok, err, map_err, concat, eq_iff, eq_refl, arith,
}
use slan.Auth.{Crypto}
use slan.Client.Action.{◌>>=◌, pure, fail, lift, gets, need}
use slan.Client.Action.Steps.{
  both_steps, gone_on, fail_if-passes, need-passes, gate-ok, need-ok, answered,
}
use slan.Client.Codes.{RelayClientError, message_only}
use slan.Client.System.{System, ActiveSocket, tcp, udp}
use slan.Client.Relay.{
  Json, RelayDaemonResponse, forward, forwarded, check_ack, Relay, read_udp_response,
  send_udp_request, send_to, send_transport_packet,
}

ack_sound :
    (j : Json) (session : String) (n : ℕ) (a : String) (to : String) (m : ℕ)
    → check_ack j session n (forwarded a to m) ≡ ok tt
    → (a ≡ session) × (m ≡ n)
unfolding check_ack
ack_sound j session n a to m h = ground (arith, eq_iff a session)

only_ack :
    (j : Json) (session : String) (n : ℕ) (r : RelayDaemonResponse)
    → check_ack j session n r ≡ ok tt
    → (to : String) × (r ≡ forwarded session to n)
unfolding check_ack
only_ack j session n (forwarded a to m) h =
    (let (e, f) = ack_sound j session n a to m h in (to, rw (e, f) refl))
only_ack j session n r h = cc

ack_complete :
    (j : Json) (session to : String) (n : ℕ)
    → check_ack j session n (forwarded session to n) ≡ ok tt
unfolding check_ack
ack_complete j session to n = ground (arith, eq_refl session)

-- the acknowledgement of this session and of all the bytes, and nothing else
check_ack_iff :
    (j : Json) (session : String) (n : ℕ) (r : RelayDaemonResponse)
    → (check_ack j session n r ≡ ok tt) ↔ ((to : String) × (r ≡ forwarded session to n))
check_ack_iff j session n r = (only_ack j session n r, λ p. rw p.1 (ack_complete j session p.0 n))

module _ (S : System) (c : Crypto) (j : Json) (wait : ℕ) (bytes : List ℕ)
    (s : Relay S c j wait) where
  -- A packet that went out from one state to another: over TCP it was written, and over UDP it was sent to
  -- the attached session, and what was read next is the acknowledgement of it in full.
  pub data Sent : Relay S c j wait → Type 0 where
    written :
        (stream : S.Tcp) (system' : S.State)
        → null bytes ≡ false
        → s.poisoned ≡ false
        → s.active_socket ≡ some (tcp stream)
        → S.tcp_write_all stream bytes s.system ≡ (ok tt, system')
        → Sent (record s { system = system' })
    acknowledged :
        (socket : S.Udp) (session participant to : String) (u t : Relay S c j wait)
        → null bytes ≡ false
        → s.poisoned ≡ false
        → s.active_socket ≡ some (udp socket)
        → s.session_id ≡ some session
        → s.local_participant_id ≡ some participant
        → send_udp_request S c j wait socket
            (forward session participant (c.encode_standard bytes))
            s
          ≡ (ok tt, u)
        → read_udp_response S c j wait socket (some wait) u
          ≡ (ok (some (forwarded session to (length bytes))), t)
        → Sent t

  by_write :
      (stream : S.Tcp) (t : Relay S c j wait) (q : Result String (Unit {0}) × S.State)
      → null bytes ≡ false
      → s.poisoned ≡ false
      → s.active_socket ≡ some (tcp stream)
      → S.tcp_write_all stream bytes s.system ≡ q
      → ◌≡◌ {A = Result RelayClientError (Unit {0}) × Relay S c j wait}
          (
            map_err
                (λ e. message_only (concat ("send packet to relay tcp socket failed: " ∷ e ∷ [])))
                q.0,
            record s { system = q.1 },
          )
          (ok tt, t)
      → Sent t
  by_write stream t (ok a, u) ne live is_tcp e g =
      subst Sent (ap (λ (x : Result RelayClientError (Unit {0}) × Relay S c j wait). x.1) g)
        (written stream u ne live is_tcp e)
  by_write stream t (err x, u) ne live is_tcp e g = cc

  tcp_sent :
      (stream : S.Tcp) (t : Relay S c j wait)
      → null bytes ≡ false
      → s.poisoned ≡ false
      → s.active_socket ≡ some (tcp stream)
      → send_to S c j wait bytes s.session_id s.local_participant_id (tcp stream) s ≡ (ok tt, t)
      → Sent t
  unfolding ◌>>=◌ lift
  tcp_sent stream t ne live is_tcp h =
      by_write stream t (S.tcp_write_all stream bytes s.system) ne live is_tcp refl h

  udp_sent :
      (socket : S.Udp) (t : Relay S c j wait) (session local : Option String)
      → null bytes ≡ false
      → s.poisoned ≡ false
      → s.active_socket ≡ some (udp socket)
      → s.session_id ≡ session
      → s.local_participant_id ≡ local
      → send_to S c j wait bytes session local (udp socket) s ≡ (ok tt, t)
      → Sent t
  unfolding ◌>>=◌ need fail pure lift
  udp_sent socket t none local ne live is_udp e f h = cc
  udp_sent socket t (some x) none ne live is_udp e f h = cc
  udp_sent socket t (some x) (some y) ne live is_udp e f h =
      let (a, u, sent, rest) =
        both_steps (send_udp_request S c j wait socket (forward x y (c.encode_standard bytes)))
          (λ _. read_udp_response S c j wait socket (some wait) >>= λ answer.
            need answer (message_only "timed out waiting for relay forward ack") >>= λ response.
            lift (check_ack j x (length bytes) response))
          s t tt h in
      let (answer, v, got, checking) =
        both_steps (read_udp_response S c j wait socket (some wait))
          (λ answer.
            need answer (message_only "timed out waiting for relay forward ack") >>= λ response.
            lift (check_ack j x (length bytes) response))
          u t tt rest in
      let (response, w, needed, checked) =
        both_steps (need answer (message_only "timed out waiting for relay forward ack"))
          (λ response. lift (check_ack j x (length bytes) response)) v t tt checking in
      let (is_some, same) = need-ok answer _ v w response needed in
      let (to, ack) =
        (check_ack_iff j x (length bytes) response).0
          (ap (λ (q : Result RelayClientError (Unit {0}) × Relay S c j wait). q.0) checked) in
      let end : w ≡ t =
        ap (λ (q : Result RelayClientError (Unit {0}) × Relay S c j wait). q.1) checked in
      acknowledged socket x y to u t ne live is_udp e f sent (
        answered (read_udp_response S c j wait socket (some wait) u) answer response
          (forwarded x to (length bytes)) v w t got is_some ack same end)

  on_socket :
      (t : Relay S c j wait) (o : Option (ActiveSocket S.Tcp S.Udp))
      → null bytes ≡ false
      → s.poisoned ≡ false
      → s.active_socket ≡ o
      → (need o (message_only "relay client has no active connection")
            >>= send_to S c j wait bytes s.session_id s.local_participant_id)
          s
        ≡ (ok tt, t)
      → Sent t
  unfolding ◌>>=◌ need fail pure
  on_socket t none ne live e h = cc
  on_socket t (some (tcp stream)) ne live e h = tcp_sent stream t ne live e h
  on_socket t (some (udp socket)) ne live e h =
      udp_sent socket t s.session_id s.local_participant_id ne live e refl refl h

  send-Sent :
      (t : Relay S c j wait) → send_transport_packet S c j wait bytes s ≡ (ok tt, t) → Sent t
  unfolding send_transport_packet ◌>>=◌ gets
  send-Sent t h =
      let (ne, unlocked) = gate-ok (null bytes) _ s t _ tt h in
      let (live, rest) = gate-ok s.poisoned _ s t _ tt unlocked in
      on_socket t s.active_socket ne live refl rest

  Sent-send :
      (t : Relay S c j wait) → Sent t → send_transport_packet S c j wait bytes s ≡ (ok tt, t)
  unfolding send_transport_packet ◌>>=◌ gets lift
  Sent-send t (written stream system' ne live is_tcp e) = gone_on _ (fail_if-passes _ ne) (
      gone_on _ (fail_if-passes _ live) (
        gone_on _ (need-passes _ is_tcp) (
          ap
            (λ (q : Result String (Unit {0}) × S.State). (
              map_err
                  (λ x. message_only (concat ("send packet to relay tcp socket failed: " ∷ x ∷ [])))
                  q.0,
              record s { system = q.1 },
            ))
            e)))
  Sent-send t (acknowledged socket session participant to u t' ne live is_udp e f sent got) =
      gone_on _ (fail_if-passes _ ne) (
        gone_on _ (fail_if-passes _ live) (
          gone_on _ (need-passes _ is_udp) (
            gone_on _ (need-passes _ e) (
              gone_on _ (need-passes _ f) (
                gone_on _ sent (
                  gone_on _ got (
                    gone_on _ (need-passes _ refl)
                      (ap (λ r. (r, t)) (ack_complete j session to (length bytes))))))))))

  -- A send goes well exactly if the packet is not empty, no panic has poisoned the lock, and either the
  -- socket is one of TCP and the packet is written to it; or it is one of UDP, a session is attached, the
  -- request to forward the packet is sent, and the next response that is read is the acknowledgement of
  -- this session and of all the bytes.
  pub send_transport_packet_iff :
      (t : Relay S c j wait) → (send_transport_packet S c j wait bytes s ≡ (ok tt, t)) ↔ Sent t
  send_transport_packet_iff t = (send-Sent t, Sent-send t)
