-- ===== src/Control/Frame.antt =====
-- The WebSocket frames of client/app_core/crates/control-ws-client/src/lib.rs. Bytes are numbers below
-- 256; a length is a usize of 64 bits.
pub mod Bits
pub mod RoundTrip
use Prim.Native.Nat.{bit_and, bit_or, bit_xor}
use slan.Prelude.{
  ℕ, zero, suc, ◌+◌, ◌-◌, ◌*◌, ◌/◌, ◌%◌, ◌^◌, String, Bool, true, false, not, List, [], ◌∷◌, ◌++◌,
  length, get_elem?, concat, Option, Result, ok, err, map_err, ltb, leb, eqb, unwrap_or,
  if◌then◌else◌,
}
use slan.Client.Action.{Action, go_on, ◌>>=◌, ◌>>◌, pure, fail, fail_if}
use slan.Client.System.{decimal}
use slan.Control.Stream.{TcpStream, read_exact}

abbrev pub mask_key : List ℕ
mask_key = 0x12 ∷ 0x34 ∷ 0x56 ∷ 0x78 ∷ []

-- the last `k` bytes of a number, the highest first
unfoldable pub be_bytes : ℕ → ℕ → List ℕ
be_bytes zero n = []
be_bytes (suc k) n = n / 2 ^ (8 * k) % 2 ^ 8 ∷ be_bytes k n

-- `from_be_bytes`
unfoldable pub from_be_bytes : ℕ → List ℕ → ℕ
from_be_bytes n [] = n
from_be_bytes n (b ∷ bs) = from_be_bytes (n * 2 ^ 8 + b) bs

-- `mask[idx % 4]`
abbrev pub mask_at : List ℕ → ℕ → ℕ
mask_at key idx = unwrap_or (get_elem? key (idx % 4)) 0

-- every byte from an index on with its mask
unfoldable pub apply_mask : List ℕ → ℕ → List ℕ → List ℕ
apply_mask key idx [] = []
apply_mask key idx (b ∷ bs) = bit_xor b (mask_at key idx) ∷ apply_mask key (idx + 1) bs

abbrev pub frame_length : ℕ → List ℕ
frame_length n =
    if ltb n 126
    then bit_or 0x80 (n % 2 ^ 8) ∷ []
    else if leb n (2 ^ 16 - 1)
    then bit_or 0x80 126 ∷ be_bytes 2 (n % 2 ^ 16)
    else bit_or 0x80 127 ∷ be_bytes 8 (n % 2 ^ 64)

unfoldable pub encode_text_frame : List ℕ → List ℕ
encode_text_frame payload =
    0x81 ∷ (frame_length (length payload) ++ (mask_key ++ apply_mask mask_key 0 payload))

-- an error behind a text
abbrev pub failure :
    {A : Type 0} → String → Result String A × TcpStream → Result String A × TcpStream
failure text (r, s) = (map_err (λ e. concat (text ∷ e ∷ [])) r, s)

abbrev pub labelled : {A : Type 0} → String → Action TcpStream String A → Action TcpStream String A
labelled text m s = failure text (m s)

abbrev pub index : List ℕ → ℕ → ℕ
index bs i = unwrap_or (get_elem? bs i) 0

abbrev pub check_opcode : ℕ → Action TcpStream String (Unit {0})
check_opcode opcode =
    if eqb opcode 8
    then fail "control ws closed by server"
    else fail_if (not (eqb opcode 1))
        (concat ("unsupported websocket opcode: " ∷ decimal opcode ∷ []))

abbrev pub read_length : ℕ → Action TcpStream String (List ℕ)
read_length n = labelled "read websocket extended length: " (read_exact n)

abbrev pub payload_length : ℕ → Action TcpStream String ℕ
payload_length n =
    if eqb n 126
    then (read_length 2 >>= λ ext. pure (from_be_bytes 0 ext))
    else if eqb n 127
    then (read_length 8 >>= λ ext. pure (from_be_bytes 0 ext))
    else pure n

abbrev pub read_mask : Bool → Action TcpStream String (List ℕ)
read_mask true = labelled "read websocket mask: " (read_exact 4)
read_mask false = pure (0 ∷ 0 ∷ 0 ∷ 0 ∷ [])

abbrev pub unmask : Bool → List ℕ → List ℕ → List ℕ
unmask true mask payload = apply_mask mask 0 payload
unmask false mask payload = payload

-- behind the two bytes of a header
abbrev pub decode_rest : List ℕ → Action TcpStream String (List ℕ)
decode_rest header = do
  check_opcode (bit_and (index header 0) 0x0f)
  let masked = not (eqb (bit_and (index header 1) 0x80) 0)
  n ← payload_length (bit_and (index header 1) 0x7f)
  mask ← read_mask masked
  payload ← labelled "read websocket payload: " (read_exact n)
  pure (unmask masked mask payload)

unfoldable pub decode_text_frame : Action TcpStream String (List ℕ)
decode_text_frame =
    labelled "read websocket frame header: " (read_exact 2) >>= λ header. decode_rest header
