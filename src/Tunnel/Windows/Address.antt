-- ===== src/Tunnel/Windows/Address.antt =====
-- Prefix lengths and netmasks of client/app_core/crates/tunnel/src/windows_backend.rs. An integer of the
-- source is a u8 or a u32.
pub mod Netmask
use slan.Prelude.{
  ℕ, zero, suc, ◌+◌, ◌-◌, ◌*◌, ◌/◌, ◌%◌, ◌^◌, String, Bool, ◌&&◌, List, [], ◌∷◌, Option, none, some,
  Result, ok, err, ◌>>=◌, ◌>>◌, ok_or, map_err, reject_if, ltb, leb, eqb, codes, concat, trim,
  is_empty, if◌then◌else◌,
}
use slan.Client.System.{decimal, split_once}

-- the digits of a u8, behind what has been read
unfoldable pub u8_digits : ℕ → List ℕ → Result String ℕ
u8_digits n [] = ok n
u8_digits n (c ∷ cs) =
    let rest = u8_digits (n * 10 + (c - 48)) cs in
    if leb 48 c && leb c 57
    then (if ltb (n * 10 + (c - 48)) (2 ^ 8)
        then rest
        else err "number too large to fit in target type")
    else err "invalid digit found in string"

abbrev pub u8_unsigned : List ℕ → Result String ℕ
u8_unsigned [] = err "invalid digit found in string"
u8_unsigned (c ∷ cs) = u8_digits 0 (c ∷ cs)

-- `parse::<u8>`
unfoldable pub parse_u8 : List ℕ → Result String ℕ
parse_u8 [] = err "cannot parse integer from empty string"
parse_u8 (c ∷ cs) = if eqb c 43 then u8_unsigned cs else u8_digits 0 (c ∷ cs)

unfoldable pub parse_interface_address : String → Result String (String × ℕ)
parse_interface_address raw = do
  parts ←
      ok_or (split_once "/" raw)
        (concat ("windows backend requires cidr interface address, got " ∷ raw ∷ []))
  let (ip, prefix_len) = parts
  reject_if (is_empty (trim ip)) "windows backend requires non-empty local virtual ip"
  n ←
      map_err (λ e. concat ("windows backend invalid prefix length in " ∷ raw ∷ ": " ∷ e ∷ []))
        (parse_u8 (codes (trim prefix_len)))
  ok (trim ip, n)

-- the mask as a u32: `u32::MAX << (32 - prefix_len)`
unfoldable pub mask_of : ℕ → ℕ
mask_of prefix_len = if eqb prefix_len 0 then 0 else (2 ^ 32 - 1) * 2 ^ (32 - prefix_len) % 2 ^ 32

-- `(mask >> shift) & 0xff`
abbrev pub octet : ℕ → ℕ → ℕ
octet mask shift = mask / 2 ^ shift % 2 ^ 8

abbrev pub dotted : ℕ → String
dotted mask = concat (
    decimal (octet mask 24)
    ∷ "."
    ∷ decimal (octet mask 16)
    ∷ "."
    ∷ decimal (octet mask 8)
    ∷ "."
    ∷ decimal (octet mask 0)
    ∷ [])

unfoldable pub netmask_from_prefix_len : ℕ → Result String String
netmask_from_prefix_len prefix_len =
    if ltb 32 prefix_len
    then err (
        concat
          ("windows backend requires ipv4 prefix length <= 32, got " ∷ decimal prefix_len ∷ []))
    else ok (dotted (mask_of prefix_len))
