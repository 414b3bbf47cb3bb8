-- ===== src/ScopeTrace/Tests.antt =====
-- A capture of two channels, and instances of the theorems on it.
use lager_rs.Prelude.{◌≡◌, refl, some, ok, true, [], ◌∷◌, length, arith, ◌+◌, ◌*◌, ◌/◌, leb}
use lager_rs.ScopeTrace.Frame.{bytes_at, from_le_bytes, number_at, counts_of}
use lager_rs.ScopeTrace.Capture.{
  dc, ac, ScopeCapture, channel_at, channels_loop, capture_of, decode_payload, decode_body,
  decode_frame, peek_seq,
}
use lager_rs.ScopeTrace.Reading.{position, channel_index, counts, overflowed}
use lager_rs.ScopeTrace.Axes.{FloatOps, volts}
use lager_rs.ScopeTrace.Yields.{Yields}
use lager_rs.ScopeTrace.Safety.{IsLetter, IsWhole, Judged, decode_frame-Yields}
use lager_rs.ScopeTrace.Channels.{decode_frame-volts}
use lager_rs.ScopeTrace.Layout.{frame, ChannelFits, ChannelsFit, SamplesFit}
use lager_rs.ScopeTrace.RoundTrip.{CaptureFits, decode_frame-frame}
use lager_rs.Prelude.{none, false, str, Text, Result}
use lager_rs.Json.{Value, number, pos_int, lookup, insert}
use lager_rs.Wire.Request.{json}
use lager_rs.ScopeTrace.Commands as Commands
use lager_rs.ScopeTrace.Socket.{Socket, binary, text, message, control, each_message, send}
use lager_rs.ScopeTrace.Commands.{
  reply, reply_step, daemon_reply, judge_reply, capture_step, await_capture, get_triggered_data,
}
use lager_rs.ScopeTrace.Sequence.{HasSeq}
use lager_rs.ScopeTrace.Streaming.{capture-HasSeq}

abbrev capture : ScopeCapture
capture = record {
  seq = 70000;
  capture_mono_ns = 5000000000;
  sample_interval_ns = 4636737291354636288;
  pre_trigger_samples = 1;
  post_trigger_samples = 2;
  samples_per_channel = 3;
  resolution_bits = 8;
  overflow_mask = 2;
  flags = 5;
  screen_samples = 0;
  channels =
      record { label = b'A'; range_code = 7; coupling = dc; scale_v_per_count = 1000; offset_v = 0 }
      ∷ record {
        label = b'C';
        range_code = 3;
        coupling = ac;
        scale_v_per_count = 2000;
        offset_v = 9;
      }
      ∷ [];
  samples = 1 ∷ 65535 ∷ 32768 ∷ 400 ∷ 5 ∷ 6 ∷ [];
}

decode_frame_run : decode_frame (frame capture) ≡ some (ok capture)
unfolding decode_frame number_at bytes_at from_le_bytes decode_body channels_loop channel_at
    decode_payload capture_of counts_of
decode_frame_run = refl

peek_seq_run : peek_seq (frame capture) ≡ some (some 70000)
unfolding peek_seq number_at bytes_at from_le_bytes
peek_seq_run = refl

index_c : channel_index capture b'c' ≡ some 1
unfolding channel_index position
index_c = refl

counts_run : counts capture b'c' ≡ some (400 ∷ 5 ∷ 6 ∷ [])
unfolding counts channel_index position
counts_run = refl

overflowed_run : overflowed capture b'C' ≡ true
unfolding overflowed channel_index position
overflowed_run = refl

decode_frame-Yields_example : Yields (Judged IsWhole) (decode_frame (frame capture))
decode_frame-Yields_example = decode_frame-Yields (frame capture)

-- Arithmetic on whole numbers stands in for that on floating-point numbers.
abbrev whole_numbers : FloatOps
whole_numbers = record {
  from_i16 = λ n. n;
  from_u32 = λ n. n;
  from_f32 = λ n. n;
  add = λ m n. m + n;
  mul = λ m n. m * n;
  div = λ m n. m / n;
  neg = λ n. n;
  le = leb;
  nan = 0;
  nought = 0;
  billion = 1000000000;
}

decode_frame-volts_example :
    Yields (λ s. length s ≡ 3) (counts capture b'c')
    × Yields (Yields (λ s. length s ≡ 3)) (volts whole_numbers capture b'c')
decode_frame-volts_example =
    decode_frame-volts whole_numbers (frame capture) capture decode_frame_run b'c' 1 index_c

fits : CaptureFits capture
unfolding CaptureFits ChannelsFit ChannelFits IsLetter SamplesFit
fits = ground arith

decode_frame-frame_example : decode_frame (frame capture) ≡ some (ok capture)
decode_frame-frame_example = decode_frame-frame capture fits

-- An acknowledgement, in place of its JSON text.
abbrev parse_ack : Text → Result Text Value
parse_ack t = ok (json ((str "seq", number (pos_int 70000)) ∷ []))

abbrev older : ScopeCapture
older = record capture { seq = 69999 }

-- An older capture that was pushed comes first.
abbrev socket : Socket
socket = record {
  now = 0;
  arriving =
      (5, message (text (str "ack")))
      ∷ (6, control)
      ∷ (7, message (binary (frame older)))
      ∷ (8, message (binary (frame capture)))
      ∷ [];
  sent = [];
  fault = none;
  closed = false;
}

capture_run : (Commands.capture parse_ack 100 socket).0 ≡ some (ok capture)
unfolding Commands.capture send reply reply_step daemon_reply judge_reply await_capture each_message
    capture_step lookup insert peek_seq decode_frame number_at bytes_at from_le_bytes decode_body
    channels_loop channel_at decode_payload capture_of counts_of
capture_run = refl

capture-HasSeq_example : HasSeq 70000 (Commands.capture parse_ack 100 socket).0
unfolding send reply reply_step daemon_reply judge_reply each_message lookup insert
capture-HasSeq_example =
    capture-HasSeq parse_ack 100 70000 socket (send get_triggered_data socket).1
      (reply parse_ack (str "GetTriggeredData") 100 (send get_triggered_data socket).1).1
      (json ((str "seq", number (pos_int 70000)) ∷ [])) refl refl refl
