-- ===== src/Auth/Checks.antt =====
-- What the validation of server/server-relay/crates/auth/src/validator accepts and how it refuses.
use slan.Prelude.{
  ℕ, String, Bool, true, false, Option, none, some, Result, ok, err, ◌>>=◌, reject_if, ok_or,
  is_empty, trim, if◌then◌else◌,
}
use slan.Prelude.Int.{ℤ}
use slan.RelayCore.Error.{
  RelayError, invalid_ticket, invalid_signature, invalid_timestamp, ticket_expired, clock_skew,
}
use slan.RelayCore.Time.{parse_timestamp, ok_or_timestamp}
use slan.RelayCore.Ticket.{RelayTicket, is_expired, is_expired_at}
use slan.Auth.{
  Crypto, HmacTicketSignatureValidator, StaticTicketValidator, validate, validate_required_fields,
  validate_relay_prefix, validate_expiration, validate_signature,
}

-- the errors that are about the ticket or the clock, and not about sessions
abbrev pub IsTicketError : RelayError → Type 0
IsTicketError invalid_ticket = Unit
IsTicketError invalid_signature = Unit
IsTicketError invalid_timestamp = Unit
IsTicketError ticket_expired = Unit
IsTicketError clock_skew = Unit
IsTicketError _ = ⊥

-- An inductive family, so that the rules below determine their arguments.
pub data Refuses {ℓ} {A : Type ℓ} : Result RelayError A → Type ℓ where
  accepts : (a : A) → Refuses (ok a)
  refuses : (e : RelayError) → IsTicketError e → Refuses (err e)

pub refused {ℓ} : {A : Type ℓ} {e : RelayError} → Refuses {A = A} (err e) → IsTicketError e
refused (refuses e h) = h

module _ {ℓ κ} {A : Type ℓ} {B : Type κ} where
  Refuses-bind :
      (m : Result RelayError A) (f : A → Result RelayError B)
      → Refuses m
      → ((a : A) → Refuses (f a))
      → Refuses (m >>= f)
  Refuses-bind (ok a) f hm hf = hf a
  Refuses-bind (err e) f hm hf = refuses e (refused hm)

Refuses-if {ℓ} :
    {A : Type ℓ} (b : Bool) (m n : Result RelayError A)
    → Refuses m
    → Refuses n
    → Refuses (if b then m else n)
Refuses-if true m n hm hn = hm
Refuses-if false m n hm hn = hn

Refuses-reject_if : (b : Bool) (e : RelayError) → IsTicketError e → Refuses (reject_if b e)
Refuses-reject_if true e h = refuses e h
Refuses-reject_if false e h = accepts tt

Refuses-ok_or {ℓ} :
    {A : Type ℓ} (o : Option A) (e : RelayError) → IsTicketError e → Refuses (ok_or o e)
Refuses-ok_or none e h = refuses e h
Refuses-ok_or (some a) e h = accepts a

Refuses-ok_or_timestamp : (o : Option ℤ) → Refuses (ok_or_timestamp o)
Refuses-ok_or_timestamp none = refuses invalid_timestamp tt
Refuses-ok_or_timestamp (some t) = accepts t

parse_timestamp-Refuses : (raw : String) → Refuses (parse_timestamp raw)
unfolding parse_timestamp
parse_timestamp-Refuses raw =
    Refuses-if (is_empty (trim raw)) _ _ (refuses invalid_timestamp tt) (Refuses-ok_or_timestamp _)

ruleset refusals = (Refuses-bind, Refuses-reject_if, Refuses-ok_or, accepts)

is_expired-Refuses : (t : RelayTicket) (clock : Option ℕ) → Refuses (is_expired t clock)
unfolding is_expired is_expired_at
is_expired-Refuses t clock = search (refusals, parse_timestamp-Refuses)

validate_signature-Refuses :
    (c : Crypto) (v : Option HmacTicketSignatureValidator) (t : RelayTicket)
    → Refuses (validate_signature c v t)
unfolding validate_signature
validate_signature-Refuses c none t = accepts tt
validate_signature-Refuses c (some v) t = search refusals

validate_relay_prefix-Refuses :
    (t : RelayTicket) (prefix : Option String) → Refuses (validate_relay_prefix t prefix)
unfolding validate_relay_prefix
validate_relay_prefix-Refuses t none = accepts tt
validate_relay_prefix-Refuses t (some prefix) = search refusals

-- Every refusal is about the ticket or the clock.
pub validate-Refuses :
    (c : Crypto) (v : StaticTicketValidator) (clock : Option ℕ) (t : RelayTicket)
    → Refuses (validate c v clock t)
unfolding validate validate_required_fields validate_expiration
validate-Refuses c v clock t =
    search (refusals, validate_signature-Refuses, validate_relay_prefix-Refuses, is_expired-Refuses)
