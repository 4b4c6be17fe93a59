-- ===== src/Control/Client/Draining.antt =====
-- `drain_pending_events` (client/app_core/crates/control-ws-client/src/lib.rs).
use slan.Prelude.{
  ℕ, zero, suc, ◌≤◌, ◌<◌, String, true, false, ◌≡◌, refl, ap, ◌∙◌, List, [], ◌∷◌, length, some,
  Result, ok, err, arith, eqb, inl, inr, Bool-cases, ◌==◌, concat, ok-injective,
}
use slan.Client.Action.{go_on, ◌>>=◌, pure, fail, lift, gets}
use slan.Control.Stream.{Arrival, byte, fault, set_read_timeout, read_exact, take_bytes}
use slan.Control.Frame.{labelled, decode_text_frame}
use slan.Control.Wire.{ControlWsEvent}
use slan.Control.Client.{
  Codec, ControlWsClient, Method, Message, on_stream, read_event, add_event, after_read, attempt,
  drain_loop, drain_pending_events, default_io_timeout, is_control_ws_timeout_error, reset_text,
  next_event, read_envelope, format_control_error,
}

-- the client with its drain timeout set
abbrev pub timed : ℕ → ControlWsClient → ControlWsClient
timed timeout s = record s { stream = record s.stream { read_timeout = some timeout } }

module _ (C : Codec) where
  abbrev Drained : Type 0
  Drained = Result String (Result String (List ControlWsEvent)) × ControlWsClient

  -- as many events as there were rounds, at most
  abbrev FewerThan : ℕ → Drained → Type 0
  FewerThan n q = (es : List ControlWsEvent) → q.0 ≡ ok (ok es) → length es ≤ n

  add_event_le :
      (n : ℕ) (v : ControlWsEvent) (q : Drained)
      → FewerThan n q
      → FewerThan (suc n) (go_on q (λ r. pure (add_event C v r)))
  unfolding pure
  add_event_le n v (ok (ok es), s) h fs e =
      let same : v ∷ es ≡ fs = cc in omega (arith, h es refl, ap length same)
  add_event_le n v (ok (err x), s) h fs e = cc
  add_event_le n v (err x, s) h fs e = cc

  after_read_le :
      (n : ℕ) (rest : Method (Result String (List ControlWsEvent)))
      → ((s : ControlWsClient) → FewerThan n (rest s))
      → (q : Result String (Result String ControlWsEvent) × ControlWsClient)
      → FewerThan (suc n) (go_on q (after_read C rest))
  unfolding ◌>>=◌ pure
  after_read_le n rest h (ok (ok v), s) = add_event_le n v (rest s) (h s)
  after_read_le n rest h (ok (err x), s) = λ es e.
      elim (Bool-cases (is_control_ws_timeout_error x)) [
        | inl quiet ↦ (let same : [] ≡ es = cc (rw quiet at e) in omega (arith, ap length same))
        | inr loud ↦ cc (rw loud at e)
      ]
  after_read_le n rest h (err x, s) = λ es e. cc

  drain_loop_le : (n : ℕ) (s : ControlWsClient) → FewerThan n (drain_loop C n s)
  unfolding drain_loop ◌>>=◌ pure
  drain_loop_le zero s = λ es e. let same : [] ≡ es = cc in omega (arith, ap length same)
  drain_loop_le (suc n) s =
      after_read_le n (drain_loop C n) (drain_loop_le n) (attempt (read_event C) s)

  -- the rounds end in a result for the caller, not by `?`
  abbrev Finished : Drained → Type 0
  Finished q = (r : Result String (List ControlWsEvent)) × q.0 ≡ ok r

  after_read-Finished :
      (rest : Method (Result String (List ControlWsEvent))) (r : Result String ControlWsEvent)
      (s : ControlWsClient)
      → ((t : ControlWsClient) → Finished (rest t))
      → Finished (after_read C rest r s)
  unfolding ◌>>=◌ pure
  after_read-Finished rest (ok v) s h = added (rest s) (h s)
    where
      added : (q : Drained) → Finished q → Finished (go_on q (λ r. pure (add_event C v r)))
      added (ok r, t) g = (add_event C v r, refl)
      added (err x, t) (r, e) = cc
  after_read-Finished rest (err x) s h = (_, refl)

  drain_loop-Finished : (n : ℕ) (s : ControlWsClient) → Finished (drain_loop C n s)
  unfolding drain_loop ◌>>=◌ pure
  drain_loop-Finished zero s = (ok [], refl)
  drain_loop-Finished (suc n) s =
      after_read-Finished (drain_loop C n) (read_event C s).0 (read_event C s).1
        (drain_loop-Finished n)

  -- what follows the rounds
  finish : Result String (List ControlWsEvent) → Method (List ControlWsEvent)
  finish r =
      on_stream (labelled (reset_text C r) (set_read_timeout default_io_timeout)) >>= λ _. lift r

  finished :
      (q : Drained) (r : Result String (List ControlWsEvent))
      → q.0 ≡ ok r
      → go_on q finish ≡ (r, timed default_io_timeout q.1)
  unfolding finish ◌>>=◌ set_read_timeout lift
  finished (ok p, s) r e = ap (λ x. (x, timed default_io_timeout s)) (ok-injective e)
  finished (err x, s) r e = cc

  drained :
      (timeout limit : ℕ) (s : ControlWsClient) (r : Result String (List ControlWsEvent))
      → 0 < timeout
      → (drain_loop C limit (timed timeout s)).0 ≡ ok r
      → drain_pending_events C timeout limit s
        ≡ (r, timed default_io_timeout (drain_loop C limit (timed timeout s)).1)
  unfolding drain_pending_events ◌>>=◌ set_read_timeout finish
  drained timeout limit s r h e =
      let positive : eqb timeout 0 ≡ false = ground arith in
      rw positive (finished (drain_loop C limit (timed timeout s)) r e)

  -- A drain, with a timeout that is not zero, leaves the read timeout of five seconds, whether it ends
  -- well or not, and the events that it gives are at most as many as its limit.
  pub drain-Bounded :
      (timeout limit : ℕ) (s : ControlWsClient)
      → 0 < timeout
      → (drain_pending_events C timeout limit s).1.stream.read_timeout ≡ some default_io_timeout
        × ((es : List ControlWsEvent)
            → (drain_pending_events C timeout limit s).0 ≡ ok es
            → length es ≤ limit)
  drain-Bounded timeout limit s h =
      let (r, e) = drain_loop-Finished limit (timed timeout s) in
      let all = drained timeout limit s r h e in
      rw all (refl, λ es good. drain_loop_le limit (timed timeout s) es (e ∙ ap ok good))

  -- reading an event where none waits and an error is sent
  refused :
      (s t : ControlWsClient) (m : Message C)
      → s.queued_events ≡ []
      → read_envelope C s ≡ (ok m, t)
      → (m.msg_type == "error") ≡ true
      → read_event C s ≡ (err (format_control_error C m.payload), t)
  unfolding read_event ◌>>=◌ gets fail
  refused s t m empty e is_error =
      let next : next_event C [] s ≡ (err (format_control_error C m.payload), t) =
        rw (e, is_error) refl in
      ap (λ q. next_event C q s) empty ∙ next

  -- Where no event waits and the server sends an error whose text a timeout could have, a drain answers
  -- that no events have come, without an error: the error of the server is lost.
  pub drain-swallows_error :
      (timeout n : ℕ) (s t : ControlWsClient) (m : Message C)
      → 0 < timeout
      → s.queued_events ≡ []
      → read_envelope C (timed timeout s) ≡ (ok m, t)
      → (m.msg_type == "error") ≡ true
      → is_control_ws_timeout_error (format_control_error C m.payload) ≡ true
      → drain_pending_events C timeout (suc n) s ≡ (ok [], timed default_io_timeout t)
  unfolding drain_loop ◌>>=◌ pure
  drain-swallows_error timeout n s t m h empty e is_error quiet =
      let event = refused (timed timeout s) t m empty e is_error in
      let round : drain_loop C (suc n) (timed timeout s) ≡ (ok (ok []), t) =
        rw (event, quiet) refl in
      drained timeout (suc n) s (ok []) h (ap (λ q. q.0) round)
      ∙ ap (λ (q : Drained). (ok [], timed default_io_timeout q.1)) round

  -- reading an event where a timeout comes after the first byte of a frame
  broken_off :
      (s : ControlWsClient) (b : ℕ) (x : String) (rest : List Arrival)
      → s.queued_events ≡ []
      → s.stream.incoming ≡ byte b ∷ fault x ∷ rest
      → ((read_event C s).0 ≡ err (concat ("read websocket frame header: " ∷ x ∷ [])))
        × ((read_event C s).1.stream.incoming ≡ rest)
  unfolding read_event read_envelope decode_text_frame read_exact take_bytes ◌>>=◌ gets
  broken_off s b x rest empty arrives = rw (empty, arrives) (refl, refl)

  -- Where no event waits and a timeout comes after the first byte of a frame, a drain answers that no
  -- events have come, and the byte is gone from the stream.
  pub drain-loses_byte :
      (timeout n : ℕ) (s : ControlWsClient) (b : ℕ) (x : String) (rest : List Arrival)
      → 0 < timeout
      → s.queued_events ≡ []
      → s.stream.incoming ≡ byte b ∷ fault x ∷ rest
      → is_control_ws_timeout_error (concat ("read websocket frame header: " ∷ x ∷ [])) ≡ true
      → ((drain_pending_events C timeout (suc n) s).0 ≡ ok [])
        × ((drain_pending_events C timeout (suc n) s).1.stream.incoming ≡ rest)
  unfolding drain_loop ◌>>=◌ pure
  drain-loses_byte timeout n s b x rest h empty arrives quiet =
      let (failed, left) = broken_off (timed timeout s) b x rest empty arrives in
      let round : drain_loop C (suc n) (timed timeout s)
          ≡ (ok (ok []), (read_event C (timed timeout s)).1) =
        rw (failed, quiet) refl in
      let all = drained timeout (suc n) s (ok []) h (ap (λ q. q.0) round) in
      (
        ap (λ q. q.0) all,
        ap (λ q. q.1.stream.incoming) all ∙ ap (λ (q : Drained). q.1.stream.incoming) round ∙ left,
      )
