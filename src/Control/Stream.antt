-- ===== src/Control/Stream.antt =====
-- A `TcpStream` as its reader and writer see it: what arrives, byte by byte, with the failures of
-- reads between (a timeout, a reset) and the pauses at which a read returns, and what is written,
-- with the failures of writes in order. At the end of what arrives the peer has closed.
use slan.Prelude.{
  ℕ, zero, suc, String, List, [], ◌∷◌, ◌++◌, Option, none, some, Result, ok, err, eqb,
  if◌then◌else◌,
}
use slan.Client.Action.{Action}

pub data Arrival : Type 0 where
  byte : ℕ → Arrival
  fault : String → Arrival
  pause : Arrival

pub record TcpStream : Type 0 where
  pub incoming : List Arrival
  pub written : List ℕ
  -- what the next writes answer; none of them fails after these
  pub write_faults : List (Option String)
  -- in milliseconds
  pub read_timeout : Option ℕ
  pub write_timeout : Option ℕ

abbrev pub add_byte :
    ℕ → Result String (List ℕ) × List Arrival → Result String (List ℕ) × List Arrival
add_byte b (ok bs, rest) = (ok (b ∷ bs), rest)
add_byte b (err e, rest) = (err e, rest)

-- Bytes that were read before a failure are lost.
unfoldable pub take_bytes : ℕ → List Arrival → Result String (List ℕ) × List Arrival
take_bytes zero xs = (ok [], xs)
take_bytes (suc n) [] = (err "failed to fill whole buffer", [])
take_bytes (suc n) (byte b ∷ xs) = add_byte b (take_bytes n xs)
take_bytes (suc n) (fault e ∷ xs) = (err e, xs)
take_bytes (suc n) (pause ∷ xs) = take_bytes (suc n) xs

-- `read_exact`
unfoldable pub read_exact : ℕ → Action TcpStream String (List ℕ)
read_exact n s = let (r, rest) = take_bytes n s.incoming in (r, record s { incoming = rest })

-- the bytes that are there, at most so many
unfoldable pub take_available : ℕ → List Arrival → List ℕ × List Arrival
take_available zero xs = ([], xs)
take_available (suc n) (byte b ∷ xs) = let (bs, rest) = take_available n xs in (b ∷ bs, rest)
take_available (suc n) xs = ([], xs)

-- A read waits over the pauses; no bytes at all mean that the peer has closed.
unfoldable pub read_segment : ℕ → List Arrival → Result String (List ℕ) × List Arrival
read_segment n [] = (ok [], [])
read_segment n (fault e ∷ xs) = (err e, xs)
read_segment n (pause ∷ xs) = read_segment n xs
read_segment n (byte b ∷ xs) = let (bs, rest) = take_available n (byte b ∷ xs) in (ok bs, rest)

-- `read`
unfoldable pub read : ℕ → Action TcpStream String (List ℕ)
read n s = let (r, rest) = read_segment n s.incoming in (r, record s { incoming = rest })

abbrev pub answer_write :
    List ℕ → TcpStream → List (Option String) → Result String (Unit {0}) × TcpStream
answer_write bs s [] = (ok tt, record s { written = s.written ++ bs })
answer_write bs s (none ∷ fs) = (ok tt, record s { written = s.written ++ bs; write_faults = fs })
answer_write bs s (some e ∷ fs) = (err e, record s { write_faults = fs })

-- `write_all`; `flush` is a write of nothing
unfoldable pub write_all : List ℕ → Action TcpStream String (Unit {0})
write_all bs s = answer_write bs s s.write_faults

-- A timeout of zero is an error.
unfoldable pub set_read_timeout : ℕ → Action TcpStream String (Unit {0})
set_read_timeout ms s =
    if eqb ms 0
    then (err "cannot set a 0 duration timeout", s)
    else (ok tt, record s { read_timeout = some ms })

unfoldable pub set_write_timeout : ℕ → Action TcpStream String (Unit {0})
set_write_timeout ms s =
    if eqb ms 0
    then (err "cannot set a 0 duration timeout", s)
    else (ok tt, record s { write_timeout = some ms })
