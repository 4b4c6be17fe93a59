-- ===== src/Control/Frame/RoundTrip.antt =====
-- Reading back a frame of client/app_core/crates/control-ws-client/src/lib.rs.
use Prim.Native.Nat.{bit_and, bit_or}
use slan.Prelude.{
  ℕ, suc, ◌+◌, ◌-◌, ◌%◌, ◌^◌, ◌<◌, true, false, ◌≡◌, refl, sym, ap, ◌∙◌, subst, List, [], ◌∷◌, ◌++◌,
  map, length, All, ok, ltb, leb, eqb, arith, if_cases,
}
use mathlib.Core.List.{append_assoc, map-append}
use slan.Client.Action.{◌>>=◌, pure, fail, fail_if}
use slan.Control.Stream.{Arrival, byte, TcpStream, take_bytes, read_exact}
use slan.Control.Frame.{
  mask_key, apply_mask, be_bytes, from_be_bytes, encode_text_frame, payload_length, read_length,
  decode_text_frame,
}
use slan.Control.Frame.Bits.{
  short_length, masked_twice, length-be_bytes, from_be_bytes-two, from_be_bytes-eight,
}

abbrev pub IsByte : ℕ → Type 0
IsByte b = b < 256

-- bytes that arrive
abbrev pub arrivals : List ℕ → List Arrival
arrivals bs = map byte bs

-- a stream at which these bytes arrive before the others
abbrev pub hears : TcpStream → List ℕ → List Arrival → TcpStream
hears s bs rest = record s { incoming = arrivals bs ++ rest }

take_bytes-arrivals :
    (bs : List ℕ) (rest : List Arrival)
    → take_bytes (length bs) (arrivals bs ++ rest) ≡ (ok bs, rest)
unfolding take_bytes
take_bytes-arrivals [] rest = refl
take_bytes-arrivals (b ∷ bs) rest = rw (take_bytes-arrivals bs rest) refl

read_exact-hears :
    (n : ℕ) (bs : List ℕ) (s : TcpStream) (rest : List Arrival)
    → n ≡ length bs
    → read_exact n (hears s bs rest) ≡ (ok bs, record s { incoming = rest })
unfolding read_exact
read_exact-hears n bs s rest e = rw (e, take_bytes-arrivals bs rest) refl

length-apply_mask : (key : List ℕ) (i : ℕ) (bs : List ℕ) → length (apply_mask key i bs) ≡ length bs
unfolding apply_mask
length-apply_mask key i [] = refl
length-apply_mask key i (b ∷ bs) = ap suc (length-apply_mask key (i + 1) bs)

apply_mask_twice :
    (i : ℕ) (bs : List ℕ) → All IsByte bs → apply_mask mask_key i (apply_mask mask_key i bs) ≡ bs
unfolding apply_mask
apply_mask_twice i [] h = refl
apply_mask_twice i (b ∷ bs) (h, hs) =
    rw (masked_twice b (i % 4) h (omega arith), apply_mask_twice (i + 1) bs hs) refl

append_hears :
    (s : TcpStream) (xs ys : List ℕ) (rest : List Arrival)
    → hears s (xs ++ ys) rest ≡ hears s xs (arrivals ys ++ rest)
append_hears s xs ys rest =
    ap (λ x. record s { incoming = x })
      (rw (map-append byte xs ys, append_assoc (arrivals xs) (arrivals ys) rest) refl)

-- the mask and the masked bytes
abbrev body : List ℕ → List ℕ
body payload = mask_key ++ apply_mask mask_key 0 payload

module _ (s : TcpStream) (payload : List ℕ) (rest : List Arrival) (bytes : All IsByte payload) where
  taken :
      take_bytes (length payload) (arrivals (apply_mask mask_key 0 payload) ++ rest)
      ≡ (ok (apply_mask mask_key 0 payload), rest)
  taken =
      subst
        (λ n.
          take_bytes n (arrivals (apply_mask mask_key 0 payload) ++ rest)
          ≡ (ok (apply_mask mask_key 0 payload), rest))
        (length-apply_mask mask_key 0 payload)
        (take_bytes-arrivals (apply_mask mask_key 0 payload) rest)

  -- behind the length, however it is written
  decode-body :
      (second : ℕ) (ext : List ℕ)
      → bit_and second 0x80 ≡ 0x80
      → payload_length (bit_and second 0x7f) (hears s (ext ++ body payload) rest)
        ≡ (ok (length payload), hears s (body payload) rest)
      → decode_text_frame (hears s (0x81 ∷ second ∷ (ext ++ body payload)) rest)
        ≡ (ok payload, record s { incoming = rest })
  unfolding decode_text_frame ◌>>=◌ pure fail fail_if read_exact take_bytes
  decode-body second ext masked long =
      rw (masked, long, taken, apply_mask_twice 0 payload bytes) refl

  long_length :
      (k n : ℕ) (text : List ℕ)
      → from_be_bytes 0 (be_bytes k n) ≡ n
      → read_exact k (hears s (be_bytes k n ++ text) rest) ≡ (ok (be_bytes k n), hears s text rest)
  long_length k n text h =
      ap (read_exact k) (append_hears s (be_bytes k n) text rest)
      ∙ read_exact-hears k (be_bytes k n) s (arrivals text ++ rest) (sym (length-be_bytes k n))

  -- what a frame with a length written so gives
  abbrev ReadBack : List ℕ → Type 0
  ReadBack l =
      decode_text_frame (hears s (0x81 ∷ (l ++ body payload)) rest)
      ≡ (ok payload, record s { incoming = rest })

  read_direct : (n : ℕ) (t : TcpStream) → n < 126 → payload_length n t ≡ (ok n, t)
  unfolding pure
  read_direct n t h = rw (not_126, not_127) refl
    where
      not_126 : eqb n 126 ≡ false
      not_126 = ground (arith, h)

      not_127 : eqb n 127 ≡ false
      not_127 = ground (arith, h)

  short_frame : length payload < 126 → ReadBack (bit_or 0x80 (length payload % 2 ^ 8) ∷ [])
  short_frame h =
      let (low, high) = short_length (length payload) (omega (arith, h)) in
      let e : length payload % 2 ^ 8 ≡ length payload = omega (arith, h) in
      rw e (
        decode-body (bit_or 0x80 (length payload)) [] high
          (rw low (read_direct (length payload) (hears s (body payload) rest) (omega (arith, h)))))

  -- a length in `k` bytes, announced by the second byte
  long_frame :
      (k second : ℕ)
      → bit_and second 0x80 ≡ 0x80
      → ((t : TcpStream)
          → payload_length (bit_and second 0x7f) t
            ≡ (read_length k >>= λ ext. pure (from_be_bytes 0 ext)) t)
      → from_be_bytes 0 (be_bytes k (length payload)) ≡ length payload
      → ReadBack (second ∷ be_bytes k (length payload))
  unfolding ◌>>=◌ pure
  long_frame k second masked announced back =
      decode-body second (be_bytes k (length payload)) masked
        (announced _ ∙ rw (long_length k (length payload) (body payload) back, back) refl)

  -- A payload of bytes, of a length that a 64-bit word holds, is read back from its frame, and what
  -- arrives after the frame is left in the stream.
  pub decode-encode :
      length payload < 2 ^ 64
      → decode_text_frame (hears s (encode_text_frame payload) rest)
        ≡ (ok payload, record s { incoming = rest })
  unfolding encode_text_frame
  decode-encode h =
      if_cases ReadBack (ltb (length payload) 126) _ _
        (λ short. short_frame (ground (arith, short)))
        (λ more.
          if_cases ReadBack (leb (length payload) (2 ^ 16 - 1)) _ _
            (λ two.
              (let e : length payload % 2 ^ 16 ≡ length payload = omega (arith, small two) in
                rw e (
                  long_frame 2 254 refl (λ t. refl)
                    (from_be_bytes-two (length payload) (small two)))))
            (λ eight.
              (let e : length payload % 2 ^ 64 ≡ length payload = omega (arith, h) in
                rw e (long_frame 8 255 refl (λ t. refl) (from_be_bytes-eight (length payload) h)))))
    where
      small : leb (length payload) (2 ^ 16 - 1) ≡ true → length payload < 2 ^ 16
      small two = ground (arith, two)
