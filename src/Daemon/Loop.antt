-- ===== src/Daemon/Loop.antt =====
-- The loop of server/server-relay/crates/relay-daemon/src/daemon.rs: what it answers, and what ends
-- it.
use mathlib.Core.List.{append_assoc, append-nil, map-append}
use slan.Prelude.{
  ℕ, String, ◌≡◌, refl, ap, ◌∙◌, List, [], ◌∷◌, ◌++◌, map, Option, none, some, Result, ok, err,
  concat, take, ◌*◌,
}
use slan.Auth.{Crypto}
use slan.Daemon.Errors.{RelayRuntimeError}
use slan.Daemon.Protocol.{SocketAddr, ClientRequest, ServerResponse, error}
use slan.Daemon.Runtime.{RelayRuntime, Reply, handle_request}
use slan.Daemon.Serve.{
  Codec, Event, datagram, Daemon, Turn, proceed, serve, turn, answer, send_response,
}

-- the messages that a handled request sends, in the order of the sends
abbrev pub messages :
    SocketAddr → Result RelayRuntimeError Reply → List (SocketAddr × ServerResponse)
messages source (ok (response, none)) = (source, response) ∷ []
messages source (ok (response, some (peer, pushed))) = (peer, pushed) ∷ (source, response) ∷ []
messages source (err e) = (source, error (record { code = e.code; message = e.message })) ∷ []

-- a decoded datagram, with what the clock reads
pub record Served : Type 0 where
  pub source : SocketAddr
  pub clock : Option ℕ
  pub request : ClientRequest

module _ (c : Crypto) where
  -- The specification: the runtime after the requests, and all messages, the newest last.
  unfoldable pub final : RelayRuntime → List Served → RelayRuntime
  final r [] = r
  final r (s ∷ ss) = final (handle_request c s.clock r s.source s.request).1 ss

  unfoldable pub transcript : RelayRuntime → List Served → List (SocketAddr × ServerResponse)
  transcript r [] = []
  transcript r (s ∷ ss) =
      messages s.source (handle_request c s.clock r s.source s.request).0
      ++ transcript (handle_request c s.clock r s.source s.request).1 ss

module _ (k : Codec) (encode : ServerResponse → List ℕ)
    (encodes : (m : ServerResponse) → k.encode_response m ≡ ok (encode m)) where
  abbrev pub on_wire : SocketAddr × ServerResponse → SocketAddr × List ℕ
  on_wire (a, m) = (a, encode m)

  -- An event that brings a request, while no send fails.
  pub data Brings : Event → Served → Type 0 where
    brings :
        (source : SocketAddr) (payload : List ℕ) (clock : Option ℕ)
        (faults : SocketAddr → Option String) (request : ClientRequest)
        → k.decode_request (take (64 * 1024) payload) ≡ ok request
        → ((a : SocketAddr) → faults a ≡ none)
        → Brings
            (datagram source payload clock faults)
            (record { source = source; clock = clock; request = request })

  pub data BringsAll : List Event → List Served → Type 0 where
    done : BringsAll [] []
    more :
        {e : Event} {s : Served} {es : List Event} {ss : List Served}
        → Brings e s
        → BringsAll es ss
        → BringsAll (e ∷ es) (s ∷ ss)

  answer_lem :
      (d : Daemon) (faults : SocketAddr → Option String) (source : SocketAddr)
      (o : Result RelayRuntimeError Reply)
      → ((a : SocketAddr) → faults a ≡ none)
      → answer k d faults source o
        ≡ (ok tt, record d { sent = d.sent ++ map on_wire (messages source o) })
  unfolding answer send_response
  answer_lem d faults source (ok (response, none)) fine = rw (fine source, encodes response) refl
  answer_lem d faults source (ok (response, some (peer, pushed))) fine =
      rw (fine peer, encodes pushed, fine source, encodes response) (simp append_assoc)
  answer_lem d faults source (err e) fine =
      rw (fine source, encodes (error (record { code = e.code; message = e.message }))) refl

  turn_lem :
      (c : Crypto) (d : Daemon) {e : Event} {s : Served}
      → Brings e s
      → let o = handle_request c s.clock d.runtime s.source s.request in
        turn k c d e
        ≡ (ok tt, record { runtime = o.1; sent = d.sent ++ map on_wire (messages s.source o.0) })
  unfolding turn
  turn_lem c d (brings source payload clock faults request decoded fine) =
      rw decoded (answer_lem _ faults source _ fine)

  sent_both :
      (d : Daemon) (xs ys : List (SocketAddr × ServerResponse))
      → (d.sent ++ map on_wire xs) ++ map on_wire ys ≡ d.sent ++ map on_wire (xs ++ ys)
  sent_both d xs ys = simp (map-append, append_assoc)

  -- While datagrams decode and sends succeed the loop goes on, and sends what the specification
  -- says, in its order.
  pub serve-refines :
      (c : Crypto) (d : Daemon) {es : List Event} {ss : List Served}
      → BringsAll es ss
      → serve k c d es ≡ (
        ok tt,
        record {
          runtime = final c d.runtime ss;
          sent = d.sent ++ map on_wire (transcript c d.runtime ss);
        },
      )
  unfolding serve final transcript
  serve-refines c d done = simp append-nil
  serve-refines c d (more {s = s} {es = es} {ss = ss} b bs) =
      let o = handle_request c s.clock d.runtime s.source s.request in
      let d₁ : Daemon = record {
        runtime = o.1;
        sent = d.sent ++ map on_wire (messages s.source o.0);
      } in
      ap (λ t. proceed t (λ d'. serve k c d' es)) (turn_lem c d b)
      ∙ serve-refines c d₁ bs
      ∙ ap {B = Turn} (λ out. (ok tt, record { runtime = final c o.1 ss; sent = out }))
          (sent_both d (messages s.source o.0) (transcript c o.1 ss))

stops_from :
    (t : Turn) (d' : Daemon) {m : String} (rest rest' : Daemon → Turn)
    → ((d₁ : Daemon) → rest d₁ ≡ (ok tt, d') → rest' d₁ ≡ (err m, d'))
    → proceed t rest ≡ (ok tt, d')
    → proceed t rest' ≡ (err m, d')
stops_from (ok _, d₁) d' rest rest' go h = go d₁ h
stops_from (err e, d₁) d' rest rest' go h = let h₁ = ap (λ (t : Turn). t.0) h in cc

module _ (k : Codec) (c : Crypto) (after : List Event) (source : SocketAddr) (payload : List ℕ)
    (clock : Option ℕ) (faults : SocketAddr → Option String) (e : String)
    (bad : k.decode_request (take (64 * 1024) payload) ≡ err e) where
  bad_turn :
      (d : Daemon)
      → turn k c d (datagram source payload clock faults)
        ≡ (err (concat ("decode relay request: " ∷ e ∷ [])), d)
  unfolding turn
  bad_turn d = rw bad

  -- One datagram that is no request ends the daemon, whatever it has served and whatever is to come.
  pub serve-stops :
      (d d' : Daemon) (before : List Event)
      → serve k c d before ≡ (ok tt, d')
      → serve k c d (before ++ datagram source payload clock faults ∷ after)
        ≡ (err (concat ("decode relay request: " ∷ e ∷ [])), d')
  unfolding serve
  serve-stops d d' [] h = ap (λ t. proceed t (λ d₁. serve k c d₁ after)) (bad_turn d) ∙ λ i.
      (err (concat ("decode relay request: " ∷ e ∷ [])), (h i).1)
  serve-stops d d' (x ∷ xs) h = stops_from (turn k c d x) d' _ _ (λ d₁. serve-stops d₁ d' xs) h
