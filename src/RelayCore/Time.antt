-- ===== src/RelayCore/Time.antt =====
-- server/server-relay/crates/relay-core/src/time.rs. Texts are read as their UTF-8 bytes.
use slan.Prelude.{
  ℕ, suc, ◌+◌, ◌-◌, ◌*◌, ◌/◌, ◌^◌, String, Bool, true, ◌&&◌, ◌||◌, not, List, [], ◌∷◌, Option, none,
  some, Result, ok, err, ltb, leb, eqb, length, take, drop, bytes, trim, is_empty, if◌then◌else◌,
}
use slan.Prelude.Int.{ℤ, pos, negsuc, ◌+ℤ◌, ◌-ℤ◌, ◌*ℤ◌, leb_ℤ, div_ℤ, sub_ℕ}
use slan.RelayCore.Error.{RelayError, invalid_timestamp}

infixl 5 ◌>>=◌ ◌>>◌
abbrev ◌>>=◌ {ℓ κ} : {A : Type ℓ} {B : Type κ} → Option A → (A → Option B) → Option B
some a >>= f = f a
none >>= f = none

abbrev ◌>>◌ {ℓ κ} : {A : Type ℓ} {B : Type κ} → Option A → Option B → Option B
m >> k = m >>= λ _. k

-- the value of a row of decimal digits behind `n`
unfoldable pub digits : ℕ → List ℕ → Option ℕ
digits n [] = some n
digits n (b ∷ bs) =
    let rest = digits (n * 10 + (b - 48)) bs in if leb 48 b && leb b 57 then rest else none

abbrev digits1 : List ℕ → Option ℕ
digits1 [] = none
digits1 (b ∷ bs) = digits 0 (b ∷ bs)

abbrev below : ℕ → ℕ → Option ℕ
below limit n = if ltb n limit then some n else none

-- `parse::<u32>()`: a plus sign is taken
unfoldable pub parse_u32 : List ℕ → Option ℕ
unfolding digits
parse_u32 [] = none
parse_u32 (b ∷ bs) = do n ← digits1 (if eqb b b'+' then bs else b ∷ bs); below (2 ^ 32) n

-- `parse::<i32>()` and `parse::<i64>()`, with 2 ^ 31 and 2 ^ 63 for the limit
unfoldable pub parse_signed : ℕ → List ℕ → Option ℤ
unfolding digits
parse_signed limit [] = none
parse_signed limit (b ∷ bs) =
    if eqb b b'-'
    then (do n ← digits1 bs; m ← below (suc limit) n; some (sub_ℕ 0 m))
    else (do n ← digits1 (if eqb b b'+' then bs else b ∷ bs); m ← below limit n; some (pos m))

-- whether a character begins at the head of the bytes, or the text ends there
abbrev at_boundary : List ℕ → Bool
at_boundary [] = true
at_boundary (b ∷ bs) = ltb b 0x80 || leb 0xc0 b

-- `raw.get(a..)`
unfoldable pub get_from : List ℕ → ℕ → Option (List ℕ)
get_from bs a = if leb a (length bs) && at_boundary (drop a bs) then some (drop a bs) else none

-- `raw.get(a..b)`, where a <= b
unfoldable pub get_range : List ℕ → ℕ → ℕ → Option (List ℕ)
unfolding get_from
get_range bs a b = do from ← get_from bs a; get_from bs b; some (take (b - a) from)

unfoldable pub days_from_civil : ℤ → ℕ → ℕ → Option ℤ
days_from_civil year month day =
    if not (leb 1 month && leb month 12) || not (leb 1 day && leb day 31)
    then none
    else let y = year -ℤ pos (if leb month 2 then 1 else 0) in
      let era = div_ℤ (if leb_ℤ (pos 0) y then y else y -ℤ pos 399) 400 in
      let yoe = y -ℤ era *ℤ pos 400 in
      let mp : ℕ = if ltb 2 month then month - 3 else month + 9 in
      let doy = pos ((153 * mp + 2) / 5 + day) -ℤ pos 1 in
      let doe = yoe *ℤ pos 365 +ℤ div_ℤ yoe 4 -ℤ div_ℤ yoe 100 +ℤ doy in
      some (era *ℤ pos 146097 +ℤ doe -ℤ pos 719468)

-- the seconds of `Z` or of an offset `+hh:mm`, `-hh:mm`
unfoldable pub offset_seconds : List ℕ → Option ℤ
offset_seconds [] = none
offset_seconds (b ∷ bs) =
    if eqb b b'Z'
    then some (pos 0)
    else if eqb b b'+' || eqb b b'-'
    then (if not (eqb (length (b ∷ bs)) 6) then none else (do
      hh ← get_range (b ∷ bs) 1 3
      offset_hour ← parse_signed (2 ^ 63) hh
      mm ← get_range (b ∷ bs) 4 6
      offset_minute ← parse_signed (2 ^ 63) mm
      let sign : ℤ = if eqb b b'+' then pos 1 else negsuc 0
      some (sign *ℤ (offset_hour *ℤ pos 3600 +ℤ offset_minute *ℤ pos 60))))
    else none

unfoldable pub parse_rfc3339 : List ℕ → Option ℤ
parse_rfc3339 raw = if ltb (length raw) 20 then none else (do
  yyyy ← get_range raw 0 4
  year ← parse_signed (2 ^ 31) yyyy
  mo ← get_range raw 5 7
  month ← parse_u32 mo
  dd ← get_range raw 8 10
  day ← parse_u32 dd
  hh ← get_range raw 11 13
  hour ← parse_u32 hh
  mi ← get_range raw 14 16
  minute ← parse_u32 mi
  ss ← get_range raw 17 19
  second ← parse_u32 ss
  rest ← get_from raw 19
  offset ← offset_seconds rest
  days ← days_from_civil year month day
  let seconds = days *ℤ pos 86400 +ℤ pos (hour * 3600) +ℤ pos (minute * 60) +ℤ pos second
  some (seconds -ℤ offset))

abbrev pub ok_or_timestamp : Option ℤ → Result RelayError ℤ
ok_or_timestamp none = err invalid_timestamp
ok_or_timestamp (some t) = ok t

abbrev pub first_ok : Option ℤ → Option ℤ → Option ℤ
first_ok none other = other
first_ok (some n) other = some n

-- Unix seconds, or else RFC 3339
unfoldable pub parse_timestamp : String → Result RelayError ℤ
parse_timestamp raw =
    let trimmed = trim raw in
    if is_empty trimmed
    then err invalid_timestamp
    else ok_or_timestamp
        (first_ok (parse_signed (2 ^ 63) (bytes trimmed)) (parse_rfc3339 (bytes trimmed)))
