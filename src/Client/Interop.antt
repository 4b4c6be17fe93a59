-- ===== src/Client/Interop.antt =====
-- The daemon's error codes as the client reads them
-- (server/server-relay/crates/relay-daemon/src/errors and runtime,
-- client/app_core/crates/relay-client/src/runtime.rs).
use slan.Prelude.{
  ℕ, String, Bool, true, false, ◌≡◌, refl, Option, none, some, Result, ok, err, ◌>>=◌, ok_or,
  map_err, reject_if, if_cases, if◌then◌else◌, null,
}
use slan.Prelude.Table
use slan.Prelude.Table.{Table}
use slan.RelayCore.Error.{
  RelayError, invalid_ticket, invalid_signature, invalid_timestamp, ticket_expired,
  session_not_found, session_already_exists, unauthorized_peer, empty_payload, clock_skew, store,
}
use slan.RelayCore.Ticket.{RelayTicket}
use slan.Auth.{Crypto}
use slan.UdpRelay.{UdpRelay}
use slan.Daemon.Errors.{RelayRuntimeError, relay_runtime_error}
use slan.Daemon.Protocol.{SocketAddr, ClientRequest, ping, attach, forward, detach}
use slan.Daemon.Runtime.{
  RelayRuntime, Outcome, accept_session, finish_attach, attach_ticket, handle_attach, authorize,
  handle_forward, remove_participant, detach_reply, finish_detach, handle_detach, handle_request,
}
use slan.Client.Codes.{is_known, read_code}

-- a result whose error, if it is one, has a code that the client knows by name
pub data Coded {A : Type 0} : Result RelayRuntimeError A → Type 0 where
  fine : (a : A) → Coded (ok a)
  coded : (e : RelayRuntimeError) → is_known (read_code e.code) ≡ true → Coded (err e)

code_of :
    {A : Type 0} {e : RelayRuntimeError}
    → Coded {A = A} (err e)
    → is_known (read_code e.code) ≡ true
code_of (coded e h) = h

Coded-bind :
    {A B : Type 0} (m : Result RelayRuntimeError A) (f : A → Result RelayRuntimeError B)
    → Coded m
    → ((a : A) → Coded (f a))
    → Coded (m >>= f)
Coded-bind (ok a) f h k = k a
Coded-bind (err e) f h k = coded e (code_of h)

Coded-ok_or :
    {A : Type 0} (o : Option A) (e : RelayRuntimeError)
    → is_known (read_code e.code) ≡ true
    → Coded (ok_or o e)
Coded-ok_or none e h = coded e h
Coded-ok_or (some a) e h = fine a

Coded-reject_if :
    (b : Bool) (e : RelayRuntimeError) → is_known (read_code e.code) ≡ true → Coded (reject_if b e)
Coded-reject_if true e h = coded e h
Coded-reject_if false e h = fine tt

Coded-map_err :
    {A D : Type 0} (f : D → RelayRuntimeError) (r : Result D A)
    → ((d : D) → is_known (read_code (f d).code) ≡ true)
    → Coded (map_err f r)
Coded-map_err f (ok a) h = fine a
Coded-map_err f (err d) h = coded (f d) (h d)

runtime_error-known : (e : RelayError) → is_known (read_code (relay_runtime_error e).code) ≡ true
unfolding relay_runtime_error read_code
runtime_error-known invalid_ticket = refl
runtime_error-known invalid_signature = refl
runtime_error-known invalid_timestamp = refl
runtime_error-known ticket_expired = refl
runtime_error-known session_not_found = refl
runtime_error-known session_already_exists = refl
runtime_error-known unauthorized_peer = refl
runtime_error-known empty_payload = refl
runtime_error-known clock_skew = refl
runtime_error-known (store message) = refl

map_relay-Coded : {A : Type 0} (r : Result RelayError A) → Coded (map_err relay_runtime_error r)
map_relay-Coded r = Coded-map_err relay_runtime_error r runtime_error-known

ruleset coded_rules =
    (Coded-bind, Coded-reject_if, Coded-ok_or, Coded-map_err, map_relay-Coded, fine)

Coded-either : (b : Bool) (x y : Outcome) → Coded x.0 → Coded y.0 → Coded (if b then x else y).0
Coded-either true x y h k = h
Coded-either false x y h k = k

accept-Coded :
    (u : UdpRelay) (t : RelayTicket) (r : Result RelayError (Unit {0}))
    → Coded (accept_session u t r)
unfolding accept_session read_code
accept-Coded u t (ok s) = fine tt
accept-Coded u t (err session_already_exists) = search coded_rules
accept-Coded u t (err e) = coded _ (runtime_error-known e)

authorize-Coded :
    (e : Table (Table SocketAddr)) (source : SocketAddr) (k p : String)
    → Coded (authorize e source k p)
unfolding authorize read_code
authorize-Coded e source k p = search coded_rules

finish_attach-Coded :
    (r : RelayRuntime) (source : SocketAddr) (p : String) (t : RelayTicket) (u : UdpRelay)
    (q : Result RelayRuntimeError (Unit {0}))
    → Coded q
    → Coded (finish_attach r source p t u q).0
finish_attach-Coded r source p t u (ok x) h = fine _
finish_attach-Coded r source p t u (err e) h = coded e (code_of h)

detach_reply-Coded : (k p : String) (q : Result RelayError (Unit {0})) → Coded (detach_reply k p q)
detach_reply-Coded k p q = search coded_rules

finish_detach-Coded :
    (r : RelayRuntime) (k p : String) (q : Result RelayRuntimeError (Table SocketAddr))
    → Coded q
    → Coded (finish_detach r k p q).0
unfolding remove_participant
finish_detach-Coded r k p (err e) h = coded e (code_of h)
finish_detach-Coded r k p (ok ps) h =
    if_cases {A = Outcome} (λ o. Coded o.0) (null (Table.remove p ps)) _ _
      (λ gone. detach_reply-Coded k p _) (λ left. fine _)

-- Whatever a peer asks, an error that the daemon answers with has a code that the client knows by
-- name.
pub handle_request-Coded :
    (c : Crypto) (clock : Option ℕ) (r : RelayRuntime) (source : SocketAddr) (q : ClientRequest)
    → Coded (handle_request c clock r source q).0
unfolding handle_request handle_attach attach_ticket handle_forward handle_detach read_code
handle_request-Coded c clock r source ping = fine _
handle_request-Coded c clock r source (attach p wire) =
    search (Coded-either, finish_attach-Coded, accept-Coded, coded)
handle_request-Coded c clock r source (forward k p payload) =
    search (coded_rules, authorize-Coded, map_relay-Coded)
handle_request-Coded c clock r source (detach k p) =
    finish_detach-Coded r k p _ (authorize-Coded r.endpoints source k p)
