-- ===== src/Client/System.antt =====
-- What the client's sockets and clock answer: an interface with a state of its own. The source
-- calls the standard library here; each call answers as it may and moves the state on.
use Prim.Native.Char.{code}
use Prim.Native.String.{String, ◌++◌ as cat}
use slan.Prelude.{
  ℕ, zero, suc, ◌/◌, ◌%◌, Bool, false, List, [], ◌∷◌, get_elem?, any, codes, concat, Option, none,
  some, Result, unwrap_or, ltb, eqb, if◌then◌else◌,
}

-- `ErrorKind`, as far as it is looked at, with the text of the error
pub data IoError : Type 0 where
  would_block timed_out connection_refused : String → IoError
  other_kind : String → IoError

abbrev pub io_text : IoError → String
io_text (would_block t) = t
io_text (timed_out t) = t
io_text (connection_refused t) = t
io_text (other_kind t) = t

pub record System : Type 1 where
  pub State : Type 0
  pub Addr : Type 0
  pub Tcp : Type 0
  pub Udp : Type 0
  pub initial : State
  pub now_ms : State → ℕ
  -- `to_socket_addrs`
  pub resolve : String → State → Result String (List Addr) × State
  -- a timeout in milliseconds
  pub tcp_connect : Addr → ℕ → State → Result String Tcp × State
  pub tcp_write_all : Tcp → List ℕ → State → Result String (Unit {0}) × State
  -- at most so many bytes
  pub tcp_read : Tcp → ℕ → State → Result IoError (List ℕ) × State
  pub tcp_set_nonblocking : Tcp → Bool → State → Result String (Unit {0}) × State
  pub udp_bind : String → State → Result String Udp × State
  pub udp_connect : Udp → String → State → Result String (Unit {0}) × State
  pub udp_send : Udp → List ℕ → State → Result String ℕ × State
  pub udp_recv : Udp → ℕ → State → Result IoError (List ℕ) × State
  pub udp_set_nonblocking : Udp → Bool → State → Result String (Unit {0}) × State
  pub udp_set_read_timeout : Udp → Option ℕ → State → Result String (Unit {0}) × State

pub data ActiveSocket (Tcp Udp : Type 0) : Type 0 where
  tcp : Tcp → ActiveSocket Tcp Udp
  udp : Udp → ActiveSocket Tcp Udp

abbrev digit : ℕ → String
digit n =
    unwrap_or (get_elem? ("0" ∷ "1" ∷ "2" ∷ "3" ∷ "4" ∷ "5" ∷ "6" ∷ "7" ∷ "8" ∷ "9" ∷ []) n) ""

-- the last digits of a number, at most so many, before a text
unfoldable pub digits_before : ℕ → ℕ → String → String
digits_before zero n text = text
digits_before (suc k) n text =
    let more = digits_before k (n / 10) (cat (digit (n % 10)) text) in
    if ltb n 10 then cat (digit n) text else more

-- `Display` of u16 and usize, which have at most twenty digits
unfoldable pub decimal : ℕ → String
decimal n = digits_before 20 n ""

-- `format!("{}:{}", host, port)`
abbrev pub authority_of : String → ℕ → String
authority_of host port = concat (host ∷ ":" ∷ decimal port ∷ [])

-- `contains(':')`
abbrev pub has_colon : String → Bool
has_colon s = any (λ n. eqb n 58) (codes s)

-- `starts_with('[')`
abbrev pub is_bracketed : String → Bool
is_bracketed s = elim (codes s) [ [] ↦ false | n ∷ ns ↦ eqb n 91 ]

unfoldable pub strip_prefix : String → String → Option String
strip_prefix String.[] s = some s
strip_prefix (String.◌∷◌ c p) String.[] = none
strip_prefix (String.◌∷◌ c p) (String.◌∷◌ d s) =
    let rest = strip_prefix p s in if eqb (code c) (code d) then rest else none

abbrev pub longer : String → Option (String × String) → Option (String × String)
longer start none = none
longer start (some (a, b)) = some (cat start a, b)

-- `split_once`
unfoldable pub split_once : String → String → Option (String × String)
split_once sep String.[] = elim (strip_prefix sep "") [ none ↦ none | some rest ↦ some ("", rest) ]
split_once sep (String.◌∷◌ c s) =
    let later = longer (String.◌∷◌ c "") (split_once sep s) in
    elim (strip_prefix sep (String.◌∷◌ c s)) [ none ↦ later | some rest ↦ some ("", rest) ]
