-- ===== src/Control/Url.antt =====
-- The URLs and the HTTP requests of client/app_core/crates/control-ws-client/src/lib.rs.
use Prim.Native.Char.{code}
use Prim.Native.String.{String, ◌++◌ as cat}
use slan.Prelude.{
  Bool, ◌||◌, [], ◌∷◌, any, codes, concat, Option, none, some, Result, ok, ◌>>=◌, ◌>>◌, ok_or,
  reject_if, trim, is_empty, eqb, if◌then◌else◌,
}
use slan.Client.System.{strip_prefix, split_once}

pub record WsEndpoint : Type 0 where
  pub authority : String
  pub path : String

pub record AckTarget : Type 0 where
  pub base_url : String
  pub access_token : String

abbrev pub only_ws : String
only_ws = "only ws:// control plane URLs are currently supported"

abbrev pub split_path : String → Option (String × String) → String × String
split_path stripped none = (stripped, "/")
split_path stripped (some (authority, rest)) = (authority, cat "/" rest)

unfoldable pub parse_ws_url : String → Result String WsEndpoint
parse_ws_url url = do
  stripped ← ok_or (strip_prefix "ws://" (trim url)) only_ws
  let (authority, path) = split_path stripped (split_once "/" stripped)
  reject_if (is_empty (trim authority)) "invalid control plane ws url"
  ok (record { authority = authority; path = path })

abbrev pub before_path : String → Option (String × String) → String
before_path rest none = rest
before_path rest (some (authority, _)) = authority

-- `AckTarget::from_ws_url`
unfoldable pub from_ws_url : String → String → Result String AckTarget
from_ws_url ws_url access_token = do
  rest ← ok_or (strip_prefix "ws://" (trim ws_url)) only_ws
  let authority = trim (before_path rest (split_once "/" rest))
  reject_if (is_empty authority || is_empty (trim access_token)) "missing ack target"
  ok (record { base_url = cat "http://" authority; access_token = access_token })

-- `contains('?')`
abbrev pub has_query : String → Bool
has_query path = any (λ n. eqb n 63) (codes path)

unfoldable pub append_device_id_query : String → String → String
append_device_id_query path device_id =
    if is_empty (trim device_id)
    then path
    else concat (path ∷ (if has_query path then "&" else "?") ∷ "deviceId=" ∷ device_id ∷ [])

abbrev pub ws_origin : String → String
ws_origin authority = cat "http://" authority

-- the request that asks for a WebSocket
unfoldable pub upgrade_request : WsEndpoint → String → String
upgrade_request endpoint device_id = concat (
    "GET "
    ∷ append_device_id_query endpoint.path device_id
    ∷ " HTTP/1.1\r\nHost: "
    ∷ endpoint.authority
    ∷ "\r\nUpgrade: websocket\r\nConnection: Upgrade\r\nOrigin: "
    ∷ ws_origin endpoint.authority
    ∷ "\r\nSec-WebSocket-Version: 13\r\nSec-WebSocket-Key: "
    ∷ "dGhlIHNhbXBsZSBub25jZQ=="
    ∷ "\r\nX-Slan-Device-Id: "
    ∷ device_id
    ∷ "\r\n\r\n"
    ∷ [])

-- `lines().next()`: up to the first line end, which a carriage return may belong to
unfoldable pub first_line : String → String
first_line String.[] = ""
first_line (String.◌∷◌ c String.[]) = if eqb (code c) 10 then "" else String.◌∷◌ c ""
first_line (String.◌∷◌ c (String.◌∷◌ d s)) =
    let more = first_line (String.◌∷◌ d s) in
    if eqb (code c) 10
    then ""
    else if eqb (code c) 13
    then (if eqb (code d) 10 then "" else String.◌∷◌ c more)
    else String.◌∷◌ c more

unfoldable pub first_response_line : String → String
first_response_line response = if is_empty response then "invalid response" else first_line response
