-- ===== src/Tunnel/Windows/Text.antt =====
-- What client/app_core/crates/tunnel/src/windows_backend.rs does with texts.
use Prim.Native.Char.{code}
use Prim.Native.String.{String}
use slan.Prelude.{
  ℕ, Bool, ◌||◌, List, [], ◌∷◌, Option, none, some, eqb, codes, concat, is_empty, is_whitespace,
  if◌then◌else◌,
}
use slan.Control.Client.{begins}

-- a character before the head of a list of pieces
abbrev pub onto : String → List String → List String
onto c [] = c ∷ []
onto c (p ∷ ps) = concat (c ∷ p ∷ []) ∷ ps

-- the pieces between the characters of a kind
unfoldable pub pieces : (ℕ → Bool) → String → List String
pieces ends String.[] = "" ∷ []
pieces ends (String.◌∷◌ c s) =
    let rest = pieces ends s in if ends (code c) then "" ∷ rest else onto (String.◌∷◌ c "") rest

abbrev pub non_empty : List String → List String
non_empty [] = []
non_empty (p ∷ ps) = let rest = non_empty ps in if is_empty p then rest else p ∷ rest

-- `split_whitespace`
abbrev pub split_whitespace : String → List String
split_whitespace s = non_empty (pieces is_whitespace s)

-- the last piece is a line only if it has a character
abbrev pub no_last_empty : List String → List String
no_last_empty [] = []
no_last_empty (p ∷ []) = if is_empty p then [] else p ∷ []
no_last_empty (p ∷ q ∷ ps) = p ∷ no_last_empty (q ∷ ps)

-- `lines`; a carriage return before a line end goes when the line is trimmed
abbrev pub lines : String → List String
lines s = no_last_empty (pieces (λ n. eqb n 10) s)

-- `trim_matches` for blanks, tabs and line ends
abbrev pub is_ascii_blank : ℕ → Bool
is_ascii_blank n = eqb n 32 || eqb n 13 || eqb n 10 || eqb n 9

unfoldable pub drop_blanks : String → String
drop_blanks String.[] = ""
drop_blanks (String.◌∷◌ c s) =
    let rest = drop_blanks s in if is_ascii_blank (code c) then rest else String.◌∷◌ c s

unfoldable pub drop_last_blanks : String → String
drop_last_blanks String.[] = ""
drop_last_blanks (String.◌∷◌ c s) =
    let rest = drop_last_blanks s in
    if is_empty rest
    then (if is_ascii_blank (code c) then "" else String.◌∷◌ c rest)
    else String.◌∷◌ c rest

abbrev pub trim_ascii_whitespace : String → String
trim_ascii_whitespace raw = drop_last_blanks (drop_blanks raw)

-- `raw[raw.find(part)?..]`
unfoldable pub from_part : String → String → Option String
from_part part String.[] = if is_empty part then some "" else none
from_part part (String.◌∷◌ c s) =
    let later = from_part part s in
    if begins (codes part) (codes (String.◌∷◌ c s)) then some (String.◌∷◌ c s) else later

-- `replace`, for one character
unfoldable pub replace : ℕ → String → String → String
replace n by String.[] = ""
replace n by (String.◌∷◌ c s) =
    let rest = replace n by s in
    if eqb (code c) n then concat (by ∷ rest ∷ []) else String.◌∷◌ c rest
