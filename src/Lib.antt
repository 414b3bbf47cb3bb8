-- ===== src/Lib.antt =====
-- The Lager client library: an HTTP client of a Lager box, with the credentials of the gateway in
-- front of it, the tunnels to its debug ports, the decoders of its streams and the codecs of its
-- wire formats. Text is a list of code points, bytes are numbers, and a 64-bit float is its bits.
--
-- Which file models what:
-- - Error: the error enum of src/error.rs and its `Display`.
-- - Chunked: `ChunkedReader` of src/chunked.rs. Source is the buffered connection, which hands out
--   its bytes in pieces of any size and may end with an error; Size is `parse_size`; Reader has
--   `read_line`, `skip_trailers` and `read`. Framing describes the well-formed streams.
-- - Codec: hex and percent encoding of src/wire.rs, base64 of src/nets/debug.rs, base64url of
--   src/auth.rs.
-- - Url: `base_url_with_port`, `base_url` and `service_base` of src/wire.rs, `host_of` of
--   src/auth.rs and `host_port` of src/tunnel.rs.
-- - Json: the JSON values of the serde_json library and their maps, as the code uses them.
-- - Auth: src/auth.rs. Jwt, Cookies and Denial are its pure functions, Store the token store and
--   the merge of a refresh, Refresh the two refreshes, which judge an answer differently, Gateway the
--   state of `GatewayAuth` and `resolve_token_blocking`.
-- - Tunnel: src/tunnel.rs, and in Reading the loop of `tunnel_once` in src/client.rs that reads the
--   head of the answer.
-- - Client: src/client.rs. The parent has what is sent with a token, Http one round trip over ureq,
--   Stream `stream_debug_once`, LagerBox the builder and `execute`, Calls what a box is asked for,
--   Lock `BoxLockGuard`, and Tunneling `debug_tunnel` with its retries. A call is an `Action` on the
--   state of the client, and Http has the requests and answers of both clients.
-- - AsyncClient: src/async_client.rs over reqwest. A future that is awaited is run to its end.
-- - Wire: src/wire.rs. Request has the request builders, Envelope the response envelope and
--   `parse_command`, Compat the refusals of an old box, Debug the answers of the debug service and
--   of the endpoints without an envelope, Values the lenient numbers, Dfu the answers of /usb/dfu
--   and /usb/devices, Multipart the form bodies.
-- - Admin: src/admin.rs. Answers reads the answers, Records has what is sent, Ops the operations, with
--   the typed ones in Typed, Uploads the uploads. Refused and Told are about the errors of all
--   operations, Delivered about the sources of their values, Saving and OwnFields about the records
--   that are saved, Agree about both clients.
-- - Nets: the operations in src/nets of supply, battery, eload, gpio, solar, i2c, spi, dmm, usb and,
--   in Analog, dac and adc nets, in Meters watt, energy and thermocouple nets. Ops has `Op`.
-- - DebugNet: the request bodies and `find_debug_record` of src/nets/debug.rs.
-- - Sio: src/nets/sio.rs, `take_through` and, in Hex, its hex codec.
-- - Uart: src/nets/uart.rs. Config is `UartConfig`, Events the events and their handlers, Session
--   the blocking `Uart` and Twins `AsyncUart`, both on a channel whose events have their times.
--   Stream, Progress, Waiting and Calls are about the bytes that its calls give, Agree and
--   Deadlines about the two sessions together.
-- - Rtt: src/nets/rtt.rs, likewise, and in AsUart as a UART session on the same data.
-- - ScopeTrace: src/nets/scope_trace.rs. Frame, Capture, Reading and Axes are `ScopeCapture`,
--   Socket and Commands the WebSocket session. Layout describes the frames that the box writes.
-- - AsyncBody: `AsyncBody` of src/chunked.rs. Source is its `BufReader`, over a connection that
--   gives bytes in pieces, has nothing yet, or fails; Body has `poll_line`, `poll_payload` and
--   `poll_read`.
--
-- Parameters stand for what the sources do not define: the files, the clock, floating-point
-- operations, the JSON parser and printer, serde's decoding of a record, and the network. A theorem
-- that needs the file to hold what was written to it has that as a hypothesis.
--
-- Loops are recursion on their data. `skip_trailers` has as much fuel as the stream has bytes, since
-- every trailer takes some, and `read` has four turns, since it passes through a state once at most.
-- `debug_tunnel` has 22 turns, for its wait of 5 s with 250 ms between the attempts. `wait_for` of a
-- session has two turns more than events arrive, since a turn that goes on takes one or lets the
-- deadline pass, and `poll_read` three more than there are bytes, since a turn that goes on takes a
-- line. The loops over `Socket::read` are run over the messages that it gives. `multipart` has so
-- many turns as it is told; 2 ^ 32 are enough for contents of less than 2 ^ 32 - 10 ^ 9 bytes, since
-- these cannot hold all candidates with ten digits, so that its counter, a `u32`, does not overflow.
--
-- Not modelled: the socket calls of the async client, the operations of the other kinds of net, the
-- handles that `net_handle!` and `admin_handle!` make, the oscilloscope's own commands, the records
-- that answers are decoded into, and the calls of the HTTP, Socket.IO and WebSocket libraries, with
-- the writes to a session and the opening of a scope socket, which are such calls only. The mutex of
-- `GatewayAuth` is one step per operation.
mod Prelude
pub mod Io
pub mod Error
pub mod Chunked
pub mod Codec
pub mod Url
pub mod Json
pub mod Auth
pub mod Tunnel
pub mod Client
pub mod Action
pub mod Admin
pub mod Http
pub mod Wire
pub mod AsyncClient
pub mod Nets
pub mod DebugNet
pub mod Sio
pub mod Uart
pub mod ScopeTrace
pub mod AsyncBody
pub mod Rtt
