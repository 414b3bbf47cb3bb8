-- ===== src/ScopeTrace/Safety.antt =====
-- A frame of any bytes is decoded or refused, and what is decoded is whole.
use lager_rs.Prelude.{
  ℕ, zero, suc, ◌+◌, ◌*◌, ◌≤◌, ◌≡◌, refl, sym, ap, subst, List, [], ◌∷◌, Bytes, Text, ok, err,
  get_elem?, drop, length, leb, ltb, leb→gt, ◌==◌, ==_iff, Bool-cases, inl, inr, arith,
}
use lager_rs.Error.{Error, Res, decode}
use lager_rs.ScopeTrace.Frame.{u16_at, u32_at, u64_at, slice_from, counts_of}
use lager_rs.ScopeTrace.Capture.{
  TraceChannel, ScopeCapture, header_size, channel_desc_size, channel_at, channels_loop, push_front,
  with_channels, capture_of, decode_payload, decode_body, decode_frame, no_channel, magic_number,
  version_number,
}
use lager_rs.ScopeTrace.Yields.{
  Yields, yields, and_then, Anything, get_elem?-Yields, number_at-Yields,
}

-- The labels are capital letters, and each channel has its samples.
unfoldable pub IsLetter : TraceChannel → Type 0
IsLetter c = (65 ≤ c.label) × (c.label ≤ 90)

unfoldable pub AreLetters : List TraceChannel → Type 0
AreLetters [] = Unit
AreLetters (c ∷ cs) = IsLetter c × AreLetters cs

unfoldable pub IsWhole : ScopeCapture → Type 0
IsWhole c = (length c.samples ≡ c.samples_per_channel * length c.channels) × AreLetters c.channels

pub IsDecodeError : Error → Type 0
IsDecodeError e = (message : Text) × (e ≡ decode message)

-- What is decoded is whole, and every refusal is a decode error.
unfoldable pub Judged : {A : Type 0} → (A → Type 0) → Res A → Type 0
Judged P (ok a) = P a
Judged P (err e) = IsDecodeError e

channel_at-Yields :
    (buf : Bytes) (at code : ℕ)
    → at + 16 ≤ length buf
    → code ≤ 25
    → Yields IsLetter (channel_at buf at code)
unfolding channel_at IsLetter
channel_at-Yields buf at code h k =
    and_then (get_elem? buf (at + 1)) _ (get_elem?-Yields buf (at + 1) (omega arith)) λ range any.
      and_then (get_elem? buf (at + 2)) _ (get_elem?-Yields buf (at + 2) (omega arith))
        λ coupling any.
          and_then (u32_at buf (at + 4)) _ (number_at-Yields 4 buf (at + 4) (omega arith))
            λ scale any.
              and_then (u32_at buf (at + 8)) _ (number_at-Yields 4 buf (at + 8) (omega arith))
                λ offset any. yields _ refl (omega arith, omega arith)

Listed : ℕ → List TraceChannel → Type 0
Listed n cs = (length cs ≡ n) × AreLetters cs

push_front-Judged :
    (n : ℕ) (c : TraceChannel) (r : Res (List TraceChannel))
    → IsLetter c
    → Judged (Listed n) r
    → Judged (Listed (suc n)) (push_front c r)
unfolding Judged Listed AreLetters
push_front-Judged n c (ok cs) h (e, more) = (ap suc e, (h, more))
push_front-Judged n c (err e) h k = k

channels_loop-Yields :
    (buf : Bytes) (left i : ℕ)
    → header_size + (i + left) * channel_desc_size ≤ length buf
    → Yields (Judged (Listed left)) (channels_loop buf left i)
unfolding channels_loop Judged Listed AreLetters IsDecodeError
channels_loop-Yields buf zero i h = yields (ok []) refl (refl, tt)
channels_loop-Yields buf (suc left) i h =
    and_then (get_elem? buf (64 + i * 16)) _ (get_elem?-Yields buf (64 + i * 16) (omega arith))
      λ code any. elim (Bool-cases (ltb 25 code)) [
        | inl foreign ↦ rw foreign (yields (err (no_channel code)) refl (_, refl))
        | inr known ↦ rw known (
            and_then (channel_at buf (64 + i * 16) code) _
              (channel_at-Yields buf (64 + i * 16) code (omega arith) (ground arith))
              λ c letter.
                and_then (channels_loop buf left (suc i)) _
                  (channels_loop-Yields buf left (suc i) (omega arith))
                  λ r judged.
                    yields (push_front c r) refl (push_front-Judged left c r letter judged))
      ]

length-counts_of : (n : ℕ) (s : Bytes) → length s ≡ n * 2 → length (counts_of s) ≡ n
unfolding counts_of
length-counts_of zero [] h = refl
length-counts_of zero (a ∷ s) h = absurd (omega arith)
length-counts_of (suc n) [] h = absurd (omega arith)
length-counts_of (suc n) (a ∷ []) h = absurd (omega arith)
length-counts_of (suc n) (a ∷ b ∷ s) h = ap suc (length-counts_of n s (omega arith))

capture_of-Yields :
    (buf : Bytes) (per : ℕ) (cs : List TraceChannel) (payload : Bytes)
    → header_size ≤ length buf
    → length payload ≡ per * length cs * 2
    → AreLetters cs
    → Yields IsWhole (capture_of buf per cs payload)
unfolding capture_of IsWhole
capture_of-Yields buf per cs payload h k letters =
    and_then (u64_at buf 8) _ (number_at-Yields 8 buf 8 (omega arith)) λ seq any.
      and_then (u64_at buf 16) _ (number_at-Yields 8 buf 16 (omega arith)) λ mono any.
        and_then (u64_at buf 24) _ (number_at-Yields 8 buf 24 (omega arith)) λ interval any.
          and_then (u32_at buf 32) _ (number_at-Yields 4 buf 32 (omega arith)) λ pre any.
            and_then (u32_at buf 36) _ (number_at-Yields 4 buf 36 (omega arith)) λ post any.
              and_then (get_elem? buf 45) _ (get_elem?-Yields buf 45 (omega arith)) λ bits any.
                and_then (u16_at buf 46) _ (number_at-Yields 2 buf 46 (omega arith)) λ overflow any.
                  and_then (u16_at buf 6) _ (number_at-Yields 2 buf 6 (omega arith)) λ flags any.
                    and_then (u32_at buf 48) _ (number_at-Yields 4 buf 48 (omega arith))
                      λ screen any.
                        yields _ refl (length-counts_of (per * length cs) payload k, letters)

slice_from-Yields : (buf : Bytes) (at : ℕ) → at ≤ length buf → Yields Anything (slice_from buf at)
unfolding Anything
slice_from-Yields buf at h = elim (Bool-cases (leb at (length buf))) [
  | inl there ↦ rw there (yields (drop at buf) refl tt)
  | inr beyond ↦ absurd (let late = leb→gt at (length buf) beyond in omega arith)
]

decode_payload-Yields :
    (buf : Bytes) (count : ℕ) (cs : List TraceChannel)
    → header_size ≤ length buf
    → header_size + count * channel_desc_size ≤ length buf
    → Listed count cs
    → Yields
        (Judged IsWhole)
        (decode_payload buf count (header_size + count * channel_desc_size) cs)
unfolding decode_payload Listed Judged IsDecodeError
decode_payload-Yields buf count cs h k (e, letters) =
    and_then (u32_at buf 40) _ (number_at-Yields 4 buf 40 (omega arith)) λ per any.
      and_then (slice_from buf (64 + count * 16)) _ (slice_from-Yields buf (64 + count * 16) k)
        λ payload any. elim (Bool-cases (length payload == per * count * 2)) [
          | inl exact ↦ rw exact (
              and_then (capture_of buf per cs payload) _
                (capture_of-Yields buf per cs payload h
                  (subst (λ n. length payload ≡ per * n * 2) (sym e) ((==_iff _ _).0 exact))
                  letters)
                λ c whole. yields (ok c) refl whole)
          | inr off ↦ rw off (yields _ refl (_, refl))
        ]

decode_body-Yields :
    (buf : Bytes) → header_size ≤ length buf → Yields (Judged IsWhole) (decode_body buf)
unfolding decode_body Judged IsDecodeError
decode_body-Yields buf h =
    and_then (get_elem? buf 44) _ (get_elem?-Yields buf 44 (omega arith)) λ count any.
      elim (Bool-cases (ltb (length buf) (64 + count * 16))) [
        | inl short ↦ rw short (yields _ refl (_, refl))
        | inr long ↦
            let room : header_size + count * channel_desc_size ≤ length buf = ground arith in
            rw long (
              and_then (channels_loop buf count 0) _
                (channels_loop-Yields buf count 0 (omega arith))
                λ r judged.
                  elim r
                      as (λ r.
                        Judged (Listed count) r
                        → Yields (Judged IsWhole)
                            (with_channels (decode_payload buf count (64 + count * 16)) r)) [
                              | ok cs ↦ λ listed. decode_payload-Yields buf count cs h room listed
                              | err e ↦ λ refused. yields (err e) refl refused
                            ]
                    judged)
      ]

-- Any bytes are decoded without a panic: they give a capture whose channels are labelled by
-- capital letters and have their samples, as many for each as the capture says, or they are
-- refused by a decode error.
pub decode_frame-Yields : (buf : Bytes) → Yields (Judged IsWhole) (decode_frame buf)
unfolding decode_frame Judged IsDecodeError
decode_frame-Yields buf = elim (Bool-cases (ltb (length buf) 64)) [
  | inl short ↦ rw short (yields _ refl (_, refl))
  | inr long ↦
      let room : header_size ≤ length buf = ground arith in
      rw long (
        and_then (u32_at buf 0) _ (number_at-Yields 4 buf 0 (omega arith)) λ magic any.
          elim (Bool-cases (magic == magic_number)) [
            | inr foreign ↦ rw foreign (yields _ refl (_, refl))
            | inl known ↦ rw known (
                and_then (u16_at buf 4) _ (number_at-Yields 2 buf 4 (omega arith)) λ version any.
                  elim (Bool-cases (version == version_number)) [
                    | inr other ↦ rw other (yields _ refl (_, refl))
                    | inl same ↦ rw same (decode_body-Yields buf room)
                  ])
          ])
]
