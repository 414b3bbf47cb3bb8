-- ===== src/Rtt/Events.antt =====
-- The events of an RTT session, how `connect` makes them of the box's messages, and the request
-- that starts a session.
use lager_rs.Prelude.{Option, none, some, Bytes, Text, str, [], ◌∷◌}
use lager_rs.Json.{Value, number, pos_int, string, object, lookup, insert}
use lager_rs.Sio.Hex.{panics, decoded, hex_decode}
use lager_rs.Uart.Events.{text_at, or_text}
use lager_rs.Uart.Config.{put, number_value}
use lager_rs.Wire.Request.{entries}
use lager_rs.DebugNet.{RttOptions}

pub data RttEvent : Type 0 where
  -- `backend`
  connected : Text → RttEvent
  received : Bytes → RttEvent
  failed : Text → RttEvent
  stopped : RttEvent

unfoldable pub start_payload : Text → RttOptions → Value
unfolding insert
start_payload netname opts = object (
    put (str "chunk_size") number_value opts.chunk_size (
      put (str "search_size") number_value opts.search_size (
        put (str "search_addr") number_value opts.search_addr (
          entries (
            (str "netname", string netname)
            ∷ (str "channel", number (pos_int opts.channel))
            ∷ [])))))

-- The handlers, from a message's first JSON value on.
unfoldable pub on_connected : Option Value → RttEvent
unfolding lookup
on_connected payload = connected (or_text (str "") (text_at (str "backend") payload))

-- The outer `none` is a panic of the handler.
unfoldable pub on_data : Option Value → Option (Option RttEvent)
unfolding lookup hex_decode
on_data payload = elim (text_at (str "data") payload) [
  | none ↦ some none
  | some text ↦ elim (hex_decode text) [
    | panics ↦ none
    | decoded none ↦ some none
    | decoded (some bytes) ↦ some (some (received bytes))
  ]
]

unfoldable pub on_error : Option Value → RttEvent
unfolding lookup
on_error payload = failed (or_text (str "unknown RTT error") (text_at (str "message") payload))
