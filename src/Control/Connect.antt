-- ===== src/Control/Connect.antt =====
-- `ControlWsClient::connect` and the handshake (client/app_core/crates/control-ws-client/src/lib.rs).
-- `TcpStream::connect` is an argument.
use slan.Prelude.{
  ℕ, zero, suc, String, not, ◌&&◌, List, [], ◌∷◌, ◌++◌, null, length, bytes, Option, none, some,
  Result, ok, err, map_err, concat, if◌then◌else◌,
}
use slan.Client.Action.{Action, ◌>>=◌, ◌>>◌, pure, fail, lift, gets, fail_if, need}
use slan.Control.Stream.{TcpStream, read, write_all, set_read_timeout, set_write_timeout}
use slan.Control.Frame.{labelled}
use slan.Control.Url.{WsEndpoint, parse_ws_url, from_ws_url, upgrade_request, first_response_line}
use slan.Control.Wire.{ControlWsConfig}
use slan.Control.Client.{Codec, ControlWsClient, contains, starts_with, default_io_timeout}

abbrev pub ok_option : {A : Type 0} → Result String A → Option A
ok_option (ok a) = some a
ok_option (err _) = none

abbrev pub blank_line : List ℕ
blank_line = 13 ∷ 10 ∷ 13 ∷ 10 ∷ []

module _ (C : Codec) where
  abbrev pub take_chunk :
      List ℕ
      → List ℕ
      → (List ℕ → Action TcpStream String (Option String))
      → Action TcpStream String (Option String)
  take_chunk buf chunk more =
      if null chunk
      then fail "control ws closed during handshake"
      else if contains blank_line (buf ++ chunk)
      then (lift (
            map_err (λ e. concat ("invalid handshake response utf8: " ∷ e ∷ []))
              (C.from_utf8 (buf ++ chunk)))
          >>= λ text. pure (some text))
      else more (buf ++ chunk)

  -- the loop, at most so many rounds; `none` where they do not do
  unfoldable pub read_head : ℕ → List ℕ → Action TcpStream String (Option String)
  read_head zero buf = pure none
  read_head (suc n) buf = labelled "read websocket handshake response: " (read 512) >>= λ chunk.
      take_chunk buf chunk (read_head n)

  -- Each round takes bytes that have arrived.
  unfoldable pub read_http_response : Action TcpStream String String
  read_http_response = do
    rounds ← gets (λ s. length s.incoming)
    answer ← read_head (suc rounds) []
    need answer "out of rounds"

  unfoldable pub handshake : WsEndpoint → ControlWsConfig → Action TcpStream String (Unit {0})
  handshake endpoint config = do
    labelled "set read timeout: " (set_read_timeout default_io_timeout)
    labelled "set write timeout: " (set_write_timeout default_io_timeout)
    labelled "write websocket handshake: "
        (write_all (bytes (upgrade_request endpoint config.device_id)))
    labelled "flush websocket handshake: " (write_all [])
    response ← read_http_response
    fail_if (not (starts_with "HTTP/1.1 101" response) && not (starts_with "HTTP/1.0 101" response))
        (concat ("control ws upgrade rejected: " ∷ first_response_line response ∷ []))

  abbrev pub opened :
      ControlWsConfig → Result String (Unit {0}) × TcpStream → Result String ControlWsClient
  opened config (err e, stream) = err e
  opened config (ok _, stream) = ok (record {
    stream = stream;
    ack_target = ok_option (from_ws_url config.ws_url config.access_token);
    queued_events = [];
    acked = [];
  })

  abbrev pub dialled :
      ControlWsConfig → WsEndpoint → Result String TcpStream → Result String ControlWsClient
  dialled config endpoint (err e) =
      err (concat ("connect control ws " ∷ endpoint.authority ∷ ": " ∷ e ∷ []))
  dialled config endpoint (ok stream) = opened config (handshake endpoint config stream)

  abbrev pub located :
      (String → Result String TcpStream)
      → ControlWsConfig
      → Result String WsEndpoint
      → Result String ControlWsClient
  located dial config (err e) = err e
  located dial config (ok endpoint) = dialled config endpoint (dial endpoint.authority)

  unfoldable pub connect :
      (String → Result String TcpStream) → ControlWsConfig → Result String ControlWsClient
  connect dial config = located dial config (parse_ws_url config.ws_url)
