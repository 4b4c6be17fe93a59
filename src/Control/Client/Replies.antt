-- ===== src/Control/Client/Replies.antt =====
-- What `read_response_envelope` answers, and what it leaves in the queue
-- (client/app_core/crates/control-ws-client/src/lib.rs).
use slan.Prelude.{
  ℕ, zero, suc, String, true, false, ◌≡◌, refl, sym, ap, ◌∙◌, List, [], ◌∷◌, ◌++◌, length, Option,
  none, some, Result, ok, err, inl, inr, Bool-cases, Result-cases, ◌==◌, eq_iff,
}
use mathlib.Core.List.{append_assoc, append-nil}
use slan.Client.Action.{go_on, ◌>>=◌, pure, fail, modify, gets, need}
use slan.Client.Action.Keeps.{Keeps, Keeps-bind, Keeps-pure, Keeps-lift, Keeps-modify}
use slan.Control.Wire.{ControlWsEvent}
use slan.Control.Client.{
  Codec, ControlWsClient, Method, Message, acknowledged, push_event, envelope_of, read_envelope,
  sort_message, read_loop, read_response_envelope, decode_control_ws_event,
}

module _ (C : Codec) (expected : String) where
  -- Messages come in until the expected one: each before it is an event, and is no error.
  pub data Comes
      : ControlWsClient → List ControlWsEvent → Message C → ControlWsClient → Type 0 where
    at_once :
        {s t : ControlWsClient} {m : Message C}
        → read_envelope C s ≡ (ok m, t)
        → (m.msg_type == "error") ≡ false
        → m.msg_type ≡ expected
        → Comes s [] m t
    event_first :
        {s t u : ControlWsClient} {m k : Message C} {es : List ControlWsEvent} (e : ControlWsEvent)
        → read_envelope C s ≡ (ok k, t)
        → (k.msg_type == "error") ≡ false
        → (k.msg_type == expected) ≡ false
        → decode_control_ws_event C k ≡ ok e
        → Comes (push_event e t) es m u
        → Comes s (e ∷ es) m u

  envelope_of-queue :
      (q : List ControlWsEvent) (bs : List ℕ)
      → Keeps (λ (s : ControlWsClient). s.queued_events ≡ q) (envelope_of C bs)
  envelope_of-queue q bs = Keeps-bind _ _ _ (Keeps-lift _ _) (λ m.
      Keeps-bind _ _ _ (Keeps-modify _ (acknowledged m.message_id) (λ s h. h))
        (λ u. Keeps-pure _ m))

  read_envelope-queue :
      (q : List ControlWsEvent)
      → Keeps (λ (s : ControlWsClient). s.queued_events ≡ q) (read_envelope C)
  unfolding read_envelope
  read_envelope-queue q =
      Keeps-bind _ _ _ (record { holds = λ s h. h }) (λ bs. envelope_of-queue q bs)

  -- the queue behind what comes
  Comes-queue :
      {s u : ControlWsClient} {m : Message C} {es : List ControlWsEvent}
      → Comes s es m u
      → u.queued_events ≡ s.queued_events ++ es
  Comes-queue (at_once {s} {t} e no_error wanted) =
      sym (ap (λ q. q.1.queued_events) e)
      ∙ (read_envelope-queue s.queued_events).holds s refl
      ∙ sym (append-nil s.queued_events)
  Comes-queue (event_first {s} {t} {u} {m} {k} {es} v e no_error unwanted event more) =
      Comes-queue more
      ∙ append_assoc t.queued_events (v ∷ []) es
      ∙ ap (λ q. q ++ v ∷ es)
          (sym (ap (λ q. q.1.queued_events) e) ∙ (read_envelope-queue s.queued_events).holds s refl)

  abbrev Came : ControlWsClient → Message C → ControlWsClient → Type 0
  Came s m u = (es : List ControlWsEvent) × Comes s es m u

  now :
      {s u : ControlWsClient} {m : Message C} (k : Message C) (t : ControlWsClient)
      → read_envelope C s ≡ (ok k, t)
      → (k.msg_type == "error") ≡ false
      → (k.msg_type == expected) ≡ true
      → pure {E = String} (some k) t ≡ (ok (some m), u)
      → Came s m u
  unfolding pure
  now {s} {u} {m} k t e no_error wanted g =
      let same : k ≡ m = cc in
      let next : t ≡ u = cc in
      let read : read_envelope C s ≡ (ok m, u) = cc in
      (
        [],
        at_once read (ap (λ (x : Message C). x.msg_type == "error") (sym same) ∙ no_error)
            (sym (ap (λ (x : Message C). x.msg_type) same) ∙ (eq_iff k.msg_type expected).0 wanted),
      )

  later :
      {s t u : ControlWsClient} {m k : Message C} (v : ControlWsEvent)
      → read_envelope C s ≡ (ok k, t)
      → (k.msg_type == "error") ≡ false
      → (k.msg_type == expected) ≡ false
      → decode_control_ws_event C k ≡ ok v
      → Came (push_event v t) m u
      → Came s m u
  later v e no_error unwanted event (es, c) = (v ∷ es, event_first v e no_error unwanted event c)

  -- what one round gives, where the rounds after it do
  by_envelope :
      (s : ControlWsClient) (m : Message C) (u : ControlWsClient)
      (rest : Method (Option (Message C))) (q : Result String (Message C) × ControlWsClient)
      → ((t : ControlWsClient) → rest t ≡ (ok (some m), u) → Came t m u)
      → read_envelope C s ≡ q
      → go_on q (λ k. sort_message C expected k rest) ≡ (ok (some m), u)
      → Came s m u
  unfolding ◌>>=◌ fail modify
  by_envelope s m u rest (err x, t) next e g = cc
  by_envelope s m u rest (ok k, t) next e g = elim (Bool-cases (k.msg_type == "error")) [
    | inl is_error ↦ cc (rw is_error at g)
    | inr no_error ↦ elim (Bool-cases (k.msg_type == expected)) [
      | inl wanted ↦ now k t e no_error wanted (rw (no_error, wanted) at g)
      | inr unwanted ↦ elim (Result-cases (decode_control_ws_event C k)) [
        | inl (v, event) ↦
            later v e no_error unwanted event
              (next (push_event v t) (rw (no_error, unwanted, event) at g))
        | inr (x, bad) ↦ cc (rw (no_error, unwanted, bad) at g)
      ]
    ]
  ]

  read_loop-Comes :
      (n : ℕ) (s : ControlWsClient) (m : Message C) (u : ControlWsClient)
      → read_loop C n expected s ≡ (ok (some m), u)
      → Came s m u
  unfolding read_loop ◌>>=◌ pure
  read_loop-Comes zero s m u h = cc
  read_loop-Comes (suc n) s m u h =
      by_envelope s m u (read_loop C n expected) (read_envelope C s) (λ t. read_loop-Comes n t m u)
        refl h

  -- the answer of the rounds
  answered :
      (q : Result String (Option (Message C)) × ControlWsClient) (m : Message C)
      (u : ControlWsClient)
      → go_on q (λ o. need o "out of rounds") ≡ (ok m, u)
      → q ≡ (ok (some m), u)
  unfolding need fail pure
  answered (ok (some k), t) m u h = cc
  answered (ok none, t) m u h = cc
  answered (err x, t) m u h = cc

  -- A response that is read is the first message of the expected type that comes; the messages before
  -- it are events, none is an error, and these events wait, in order, behind those that waited.
  pub read_response-Comes :
      (s : ControlWsClient) (m : Message C) (u : ControlWsClient)
      → read_response_envelope C expected s ≡ (ok m, u)
      → (es : List ControlWsEvent) × Comes s es m u × u.queued_events ≡ s.queued_events ++ es
  unfolding read_response_envelope ◌>>=◌ gets
  read_response-Comes s m u h =
      let (es, c) = read_loop-Comes (suc (length s.stream.incoming)) s m u (answered _ m u h) in
      (es, c, Comes-queue c)
