-- ===== src/ScopeTrace/Capture.antt =====
-- `ScopeCapture::decode`. A floating-point number is held as its bits, and a count as its 16
-- bits, in two's complement.
use lager_rs.Prelude.{
  ℕ, zero, suc, ◌+◌, ◌*◌, not, Option, none, some, List, [], ◌∷◌, ◌++◌, Bytes, Text, ok, err, str,
  decimal, get_elem?, length, ltb, ◌==◌, ◌>>=?◌, if◌then◌else◌,
}
use lager_rs.Error.{Error, Res, decode}
use lager_rs.ScopeTrace.Frame.{number_at, u16_at, u32_at, u64_at, slice_from, counts_of, print_u32}

abbrev pub magic_number : ℕ
magic_number = 0x5043534c

abbrev pub version_number : ℕ
version_number = 1

abbrev pub header_size : ℕ
header_size = 64

abbrev pub channel_desc_size : ℕ
channel_desc_size = 16

pub data TraceCoupling : Type 0 where
  dc ac gnd : TraceCoupling

pub record TraceChannel : Type 0 where
  pub label : ℕ
  pub range_code : ℕ
  pub coupling : TraceCoupling
  pub scale_v_per_count : ℕ
  pub offset_v : ℕ

pub record ScopeCapture : Type 0 where
  pub seq : ℕ
  pub capture_mono_ns : ℕ
  pub sample_interval_ns : ℕ
  pub pre_trigger_samples : ℕ
  pub post_trigger_samples : ℕ
  pub samples_per_channel : ℕ
  pub resolution_bits : ℕ
  pub overflow_mask : ℕ
  pub flags : ℕ
  pub screen_samples : ℕ
  pub channels : List TraceChannel
  pub samples : List ℕ

abbrev pub decode_error : Text → Error
decode_error message = decode (str "LSCP frame: " ++ message)

abbrev pub coupling_of : ℕ → TraceCoupling
coupling_of (suc zero) = ac
coupling_of (suc (suc zero)) = gnd
coupling_of _ = dc

abbrev pub no_channel : ℕ → Error
no_channel code =
    decode_error (str "channel code " ++ (decimal code ++ str " names no channel A to Z"))

abbrev pub too_short : ℕ → ℕ → Error
too_short need got =
    decode_error
      (str "frame too short: need " ++ (decimal need ++ (str " bytes, got " ++ decimal got)))

abbrev pub mismatch : ℕ → ℕ → Error
mismatch expected got = decode_error (
    str "payload length mismatch: expected "
    ++ (decimal expected ++ (str " bytes, got " ++ decimal got)))

-- The descriptor at a place, whose first byte is the channel's code.
unfoldable pub channel_at : Bytes → ℕ → ℕ → Option TraceChannel
unfolding number_at
channel_at buf at code = get_elem? buf (at + 1) >>=? λ range_code.
    get_elem? buf (at + 2) >>=? λ coupling. u32_at buf (at + 4) >>=? λ scale.
    u32_at buf (at + 8) >>=? λ offset. some (record {
      label = b'A' + code;
      range_code = range_code;
      coupling = coupling_of coupling;
      scale_v_per_count = scale;
      offset_v = offset;
    })

abbrev pub push_front : TraceChannel → Res (List TraceChannel) → Res (List TraceChannel)
push_front c (ok cs) = ok (c ∷ cs)
push_front c (err e) = err e

-- The loop over the descriptors, from the channel `i` on. The outer `none` is a panic.
unfoldable pub channels_loop : Bytes → ℕ → ℕ → Option (Res (List TraceChannel))
unfolding channel_at
channels_loop buf zero i = some (ok [])
channels_loop buf (suc left) i =
    let rest = channels_loop buf left (suc i) in
    let at = header_size + i * channel_desc_size in
    get_elem? buf at >>=? λ code.
    if ltb 25 code
    then some (err (no_channel code))
    else channel_at buf at code >>=? λ c. rest >>=? λ cs. some (push_front c cs)

-- The struct at the end of `decode`.
unfoldable pub capture_of : Bytes → ℕ → List TraceChannel → Bytes → Option ScopeCapture
unfolding number_at counts_of
capture_of buf per_channel channels payload = u64_at buf 8 >>=? λ seq. u64_at buf 16 >>=? λ mono.
    u64_at buf 24 >>=? λ interval. u32_at buf 32 >>=? λ pre. u32_at buf 36 >>=? λ post.
    get_elem? buf 45 >>=? λ bits. u16_at buf 46 >>=? λ overflow. u16_at buf 6 >>=? λ flags.
    u32_at buf 48 >>=? λ screen. some (record {
      seq = seq;
      capture_mono_ns = mono;
      sample_interval_ns = interval;
      pre_trigger_samples = pre;
      post_trigger_samples = post;
      samples_per_channel = per_channel;
      resolution_bits = bits;
      overflow_mask = overflow;
      flags = flags;
      screen_samples = screen;
      channels = channels;
      samples = counts_of payload;
    })

-- Behind the descriptors.
unfoldable pub decode_payload : Bytes → ℕ → ℕ → List TraceChannel → Option (Res ScopeCapture)
unfolding number_at capture_of
decode_payload buf count descriptors_end channels = u32_at buf 40 >>=? λ per_channel.
    slice_from buf descriptors_end >>=? λ payload.
    if length payload == per_channel * count * 2
    then (capture_of buf per_channel channels payload >>=? λ c. some (ok c))
    else some (err (mismatch (per_channel * count * 2) (length payload)))

abbrev pub with_channels :
    (List TraceChannel → Option (Res ScopeCapture))
    → Res (List TraceChannel)
    → Option (Res ScopeCapture)
with_channels f (ok cs) = f cs
with_channels f (err e) = some (err e)

-- Behind the magic number and the version.
unfoldable pub decode_body : Bytes → Option (Res ScopeCapture)
unfolding channels_loop decode_payload
decode_body buf = get_elem? buf 44 >>=? λ count.
    if ltb (length buf) (header_size + count * channel_desc_size)
    then some (err (too_short (header_size + count * channel_desc_size) (length buf)))
    else channels_loop buf count 0 >>=? λ channels.
        with_channels (decode_payload buf count (header_size + count * channel_desc_size)) channels

-- `ScopeCapture::decode`
unfoldable pub decode_frame : Bytes → Option (Res ScopeCapture)
unfolding number_at print_u32 decode_body
decode_frame buf =
    if ltb (length buf) header_size
    then some (err (too_short header_size (length buf)))
    else u32_at buf 0 >>=? λ magic.
        if not (magic == magic_number)
        then some (
            err (
              decode_error (
                str "bad magic 0x"
                ++ (print_u32 magic ++ (str ", expected 0x" ++ print_u32 magic_number)))))
        else u16_at buf 4 >>=? λ version.
            if not (version == version_number)
            then some (
                err (
                  decode_error (
                    str "unsupported LSCP version "
                    ++ (decimal version ++ (str ", this crate reads " ++ decimal version_number)))))
            else decode_body buf

-- `peek_seq`
unfoldable pub peek_seq : Bytes → Option (Option ℕ)
unfolding number_at
peek_seq buf =
    if ltb (length buf) header_size
    then some none
    else u32_at buf 0 >>=? λ magic.
        if magic == magic_number then (u64_at buf 8 >>=? λ seq. some (some seq)) else some none
