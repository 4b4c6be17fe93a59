-- ===== src/Control/Client/Ending.antt =====
-- The rounds of `read_response_envelope` (client/app_core/crates/control-ws-client/src/lib.rs).
use slan.Prelude.{
  ℕ, zero, suc, ◌≤◌, ◌<◌, String, Bool, true, false, ◌≡◌, ◌≢◌, refl, List, [], ◌∷◌, length, Option,
  none, Result, ok, err, map_err, arith, if_cases, ◌==◌, if◌then◌else◌,
}
use slan.Client.Action.{Action, go_on, ◌>>=◌, pure, fail, modify}
use slan.Client.Action.Keeps.{
  Keeps, Keeps-bind, Keeps-pure, Keeps-fail, Keeps-lift, Keeps-gets, Keeps-fail_if, Keeps-need,
  Keeps-modify,
}
use slan.Control.Stream.{Arrival, byte, fault, pause, TcpStream, take_bytes, read_exact, add_byte}
use slan.Control.Frame.{failure, labelled, read_mask, decode_rest, decode_text_frame}
use slan.Control.Wire.{ControlWsEvent}
use slan.Control.Client.{
  Codec, ControlWsClient, Method, Message, acknowledged, push_event, envelope_of, envelope_of,
  read_envelope, sort_message, queue_or_fail, read_loop, decode_control_ws_event,
}

add_byte-rest : (b : ℕ) (q : Result String (List ℕ) × List Arrival) → (add_byte b q).1 ≡ q.1
add_byte-rest b (ok bs, rest) = refl
add_byte-rest b (err e, rest) = refl

take_bytes_le : (n : ℕ) (xs : List Arrival) → length (take_bytes n xs).1 ≤ length xs
unfolding take_bytes
take_bytes_le zero xs = omega arith
take_bytes_le (suc n) [] = omega arith
take_bytes_le (suc n) (byte b ∷ xs) =
    rw (add_byte-rest b (take_bytes n xs)) (omega (arith, take_bytes_le n xs))
take_bytes_le (suc n) (fault e ∷ xs) = omega arith
take_bytes_le (suc n) (pause ∷ xs) = omega (arith, take_bytes_le (suc n) xs)

take_bytes_lt :
    (n : ℕ) (xs : List Arrival) (bs : List ℕ)
    → (take_bytes (suc n) xs).0 ≡ ok bs
    → length (take_bytes (suc n) xs).1 < length xs
unfolding take_bytes
take_bytes_lt n [] bs h = cc
take_bytes_lt n (byte b ∷ xs) bs h =
    rw (add_byte-rest b (take_bytes n xs)) (omega (arith, take_bytes_le n xs))
take_bytes_lt n (fault e ∷ xs) bs h = cc
take_bytes_lt n (pause ∷ xs) bs h = omega (arith, take_bytes_le (suc n) xs)

-- at most so much is left to read
abbrev AtMost : ℕ → TcpStream → Type 0
AtMost k s = length s.incoming ≤ k

module _ (k : ℕ) where
  read_exact-AtMost : (n : ℕ) → Keeps (AtMost k) (read_exact n)
  unfolding read_exact
  read_exact-AtMost n = record { holds = λ s h. omega (arith, h, take_bytes_le n s.incoming) }

  failure-AtMost :
      {A : Type 0} (text : String) (q : Result String A × TcpStream)
      → AtMost k q.1
      → AtMost k (failure text q).1
  failure-AtMost text (r, t) h = h

  labelled-AtMost :
      {A : Type 0} (text : String) (m : Action TcpStream String A)
      → Keeps (AtMost k) m
      → Keeps (AtMost k) (labelled text m)
  labelled-AtMost text m h = record { holds = λ s g. failure-AtMost text (m s) (h.holds s g) }

  ruleset steps = (
    Keeps-bind, Keeps-pure, Keeps-fail, Keeps-lift, Keeps-gets, Keeps-fail_if, Keeps-need,
    read_exact-AtMost, labelled-AtMost,
  )

  if-AtMost :
      {A : Type 0} (b : Bool) (m n : Action TcpStream String A)
      → Keeps (AtMost k) m
      → Keeps (AtMost k) n
      → Keeps (AtMost k) (if b then m else n)
  if-AtMost true m n h g = h
  if-AtMost false m n h g = g

  read_mask-AtMost : (b : Bool) → Keeps (AtMost k) (read_mask b)
  read_mask-AtMost true = search steps
  read_mask-AtMost false = search steps

  rest-AtMost : (header : List ℕ) → Keeps (AtMost k) (decode_rest header)
  rest-AtMost header = search (steps, if-AtMost, read_mask-AtMost) depth 14

-- what comes after a header
go_on-AtMost :
    {A B : Type 0} (k : ℕ) (q : Result String A × TcpStream) (f : A → Action TcpStream String B)
    (b : B)
    → ((a : A) → q.0 ≡ ok a → AtMost k q.1)
    → ((a : A) → Keeps (AtMost k) (f a))
    → (go_on q f).0 ≡ ok b
    → AtMost k (go_on q f).1
go_on-AtMost k (ok a, s) f b h g e = (g a).holds s (h a refl)
go_on-AtMost k (err x, s) f b h g e = cc

map_err-ok : {D E A : Type 0} (f : D → E) (r : Result D A) {a : A} → map_err f r ≡ ok a → r ≡ ok a
map_err-ok f (ok b) h = cc
map_err-ok f (err d) h = cc

bind-AtMost :
    {A B : Type 0} (k : ℕ) (m : Action TcpStream String A) (f : A → Action TcpStream String B)
    (s : TcpStream) (b : B)
    → ((a : A) → (m s).0 ≡ ok a → AtMost k (m s).1)
    → ((a : A) → Keeps (AtMost k) (f a))
    → ((m >>= f) s).0 ≡ ok b
    → AtMost k ((m >>= f) s).1
unfolding ◌>>=◌
bind-AtMost k m f s b h g e = go_on-AtMost k (m s) f b h g e

header_lt :
    (s : TcpStream) (a : List ℕ)
    → (labelled "read websocket frame header: " (read_exact 2) s).0 ≡ ok a
    → suc (length (labelled "read websocket frame header: " (read_exact 2) s).1.incoming)
      ≤ length s.incoming
unfolding read_exact
header_lt s a h = take_bytes_lt 1 s.incoming a (map_err-ok _ _ h)

header-AtMost :
    (k : ℕ) (s : TcpStream) (a : List ℕ)
    → length s.incoming ≤ suc k
    → (labelled "read websocket frame header: " (read_exact 2) s).0 ≡ ok a
    → AtMost k (labelled "read websocket frame header: " (read_exact 2) s).1
header-AtMost k s a le h = omega (arith, le, header_lt s a h)

-- A frame that is read takes bytes that have arrived.
decode_lt :
    (k : ℕ) (s : TcpStream) (bs : List ℕ)
    → length s.incoming ≤ suc k
    → (decode_text_frame s).0 ≡ ok bs
    → length (decode_text_frame s).1.incoming ≤ k
unfolding decode_text_frame
decode_lt k s bs le h =
    bind-AtMost k (labelled "read websocket frame header: " (read_exact 2)) _ s bs
      (λ a e. header-AtMost k s a le e) (λ a. rest-AtMost k a) h

-- An empty stream gives no frame.
nothing_to_read : (s : TcpStream) (bs : List ℕ) → s.incoming ≡ [] → (decode_text_frame s).0 ≢ ok bs
unfolding decode_text_frame read_exact take_bytes ◌>>=◌
nothing_to_read s bs e = rw e (λ h. cc)

frame_lt :
    (s : TcpStream) (bs : List ℕ)
    → (decode_text_frame s).0 ≡ ok bs
    → suc (length (decode_text_frame s).1.incoming) ≤ length s.incoming
frame_lt s bs h = by_list s.incoming refl
  where
    by_list :
        (xs : List Arrival)
        → s.incoming ≡ xs
        → suc (length (decode_text_frame s).1.incoming) ≤ length s.incoming
    by_list [] e = absurd (nothing_to_read s bs e h)
    by_list (x ∷ xs) e =
        let l : length s.incoming ≡ suc (length xs) = rw e refl in
        omega (arith, l, decode_lt (length xs) s bs (omega (arith, l)) h)

module _ (C : Codec) where
  envelope_of-Keeps :
      (x : TcpStream) (bs : List ℕ)
      → Keeps (λ (s : ControlWsClient). s.stream ≡ x) (envelope_of C bs)
  envelope_of-Keeps x bs = Keeps-bind _ _ _ (Keeps-lift _ _) (λ m.
      Keeps-bind _ _ _ (Keeps-modify _ (acknowledged m.message_id) (λ s h. h))
        (λ u. Keeps-pure _ m))

  -- what a message is read from has arrived
  read_envelope_lt :
      (s : ControlWsClient) (m : Message C)
      → (read_envelope C s).0 ≡ ok m
      → suc (length (read_envelope C s).1.stream.incoming) ≤ length s.stream.incoming
  unfolding read_envelope ◌>>=◌
  read_envelope_lt s m h = taken (decode_text_frame s.stream) (frame_lt s.stream) h
    where
      taken :
          (q : Result String (List ℕ) × TcpStream)
          → ((bs : List ℕ) → q.0 ≡ ok bs → suc (length q.1.incoming) ≤ length s.stream.incoming)
          → (go_on (q.0, record s { stream = q.1 }) (envelope_of C)).0 ≡ ok m
          → suc (length (go_on (q.0, record s { stream = q.1 }) (envelope_of C)).1.stream.incoming)
            ≤ length s.stream.incoming
      taken (ok bs, t) lt e =
          rw ((envelope_of-Keeps t bs).holds (record s { stream = t }) refl) (lt bs refl)
      taken (err x, t) lt e = cc

  ends_after :
      (q : Result String (Message C) × ControlWsClient)
      (f : Message C → Method (Option (Message C)))
      → ((m : Message C) → q.0 ≡ ok m → (f m q.1).0 ≢ ok none)
      → (go_on q f).0 ≢ ok none
  ends_after (ok m, s) f h e = h m refl e
  ends_after (err x, s) f h e = cc

  queue_ends :
      (expected : String) (r : Result String ControlWsEvent) (rest : Method (Option (Message C)))
      (s : ControlWsClient)
      → ((e : ControlWsEvent) → (rest (push_event e s)).0 ≢ ok none)
      → (queue_or_fail C expected r rest s).0 ≢ ok none
  unfolding fail ◌>>=◌ modify
  queue_ends expected (ok v) rest s h = h v
  queue_ends expected (err x) rest s h = λ e. cc

  sort_message_ends :
      (expected : String) (m : Message C) (rest : Method (Option (Message C))) (s : ControlWsClient)
      → ((e : ControlWsEvent) → (rest (push_event e s)).0 ≢ ok none)
      → (sort_message C expected m rest s).0 ≢ ok none
  unfolding fail pure
  sort_message_ends expected m rest s h =
      if_cases {A = Method (Option (Message C))} (λ a. (a s).0 ≢ ok none) (m.msg_type == "error") _
        _ (λ is_error e. cc)
        (λ other.
          if_cases {A = Method (Option (Message C))} (λ a. (a s).0 ≢ ok none)
            (m.msg_type == expected) _ _ (λ wanted e. cc)
            (λ more. queue_ends expected (decode_control_ws_event C m) rest s h))

  -- Reading a response ends within the rounds that it is given: each round takes at least one of the
  -- bytes, pauses and failures that have arrived, and without any the stream is closed.
  pub read_loop_ends :
      (n : ℕ) (expected : String) (s : ControlWsClient)
      → length s.stream.incoming < n
      → (read_loop C n expected s).0 ≢ ok none
  unfolding read_loop ◌>>=◌
  read_loop_ends zero expected s h = absurd (omega (arith, h))
  read_loop_ends (suc n) expected s h = ends_after (read_envelope C s) _ (λ m e.
      sort_message_ends expected m (read_loop C n expected) (read_envelope C s).1 (λ v.
        read_loop_ends n expected (push_event v (read_envelope C s).1)
          (omega (arith, h, read_envelope_lt s m e))))
