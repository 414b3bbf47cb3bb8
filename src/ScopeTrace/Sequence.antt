-- ===== src/ScopeTrace/Sequence.antt =====
-- A decoded capture and `peek_seq` have the same sequence number.
-- stream gives returns its credit.
use lager_rs.Prelude.{
  ℕ, ◌+◌, ◌*◌, ◌≤◌, ◌≡◌, refl, sym, ap, subst, ◌∙◌, true, Option, none, some, List, Bytes, ok, err,
  get_elem?, length, ltb, ◌==◌, ==_iff, Bool-cases, inl, inr, ◌>>=?◌, arith,
}
use lager_rs.Error.{Res}
use lager_rs.ScopeTrace.Frame.{u16_at, u32_at, u64_at, slice_from}
use lager_rs.ScopeTrace.Capture.{
  TraceChannel, ScopeCapture, channels_loop, with_channels, capture_of, decode_payload, decode_body,
  decode_frame, peek_seq, magic_number, version_number,
}
use lager_rs.ScopeTrace.Yields.{Yields, yields, Anything, and_then, number_at-Yields}
use lager_rs.ScopeTrace.Safety.{decode_frame-Yields}
use lager_rs.ScopeTrace.Commands.{Captured, is_number}

-- What is there is as said.
unfoldable pub Only {ℓ} : {A : Type ℓ} → (A → Type 0) → Option A → Type 0
Only P none = Unit
Only P (some a) = P a

module _ {ℓ κ} {A : Type ℓ} {B : Type κ} (P : B → Type 0) where
  Only-and_then :
      (o : Option A) (f : A → Option B) → ((a : A) → o ≡ some a → Only P (f a)) → Only P (o >>=? f)
  unfolding Only
  Only-and_then none f k = tt
  Only-and_then (some a) f k = k a refl

-- A capture that was decoded from some bytes has the sequence number that stands in them.
SeqAt : Bytes → Res ScopeCapture → Type 0
SeqAt buf (ok c) = u64_at buf 8 ≡ some c.seq
SeqAt buf (err e) = Unit

capture_of-seq :
    (buf : Bytes) (per : ℕ) (cs : List TraceChannel) (payload : Bytes)
    → Only (λ c. u64_at buf 8 ≡ some c.seq) (capture_of buf per cs payload)
unfolding capture_of Only
capture_of-seq buf per cs payload =
    let P : ScopeCapture → Type 0 = λ c. u64_at buf 8 ≡ some c.seq in
    Only-and_then P (u64_at buf 8) _ λ seq e. Only-and_then P (u64_at buf 16) _ λ mono _.
      Only-and_then P (u64_at buf 24) _ λ interval _. Only-and_then P (u32_at buf 32) _ λ pre _.
        Only-and_then P (u32_at buf 36) _ λ post _. Only-and_then P (get_elem? buf 45) _ λ bits _.
          Only-and_then P (u16_at buf 46) _ λ overflow _.
            Only-and_then P (u16_at buf 6) _
              λ flags _. Only-and_then P (u32_at buf 48) _ λ screen _. e

decode_payload-seq :
    (buf : Bytes) (count end : ℕ) (cs : List TraceChannel)
    → Only (SeqAt buf) (decode_payload buf count end cs)
unfolding decode_payload Only SeqAt
decode_payload-seq buf count end cs = Only-and_then (SeqAt buf) (u32_at buf 40) _ λ per _.
    Only-and_then (SeqAt buf) (slice_from buf end) _ λ payload _.
      elim (Bool-cases (length payload == per * count * 2)) [
        | inl exact ↦ rw exact (
            Only-and_then (SeqAt buf) (capture_of buf per cs payload) _ λ c e.
              subst (Only (λ c. u64_at buf 8 ≡ some c.seq)) e (capture_of-seq buf per cs payload))
        | inr off ↦ rw off tt
      ]

decode_body-seq : (buf : Bytes) → Only (SeqAt buf) (decode_body buf)
unfolding decode_body Only SeqAt
decode_body-seq buf = Only-and_then (SeqAt buf) (get_elem? buf 44) _ λ count _.
    elim (Bool-cases (ltb (length buf) (64 + count * 16))) [
      | inl short ↦ rw short tt
      | inr long ↦ rw long (
          Only-and_then (SeqAt buf) (channels_loop buf count 0) _ λ r _.
            elim r
              as (λ r.
                Only (SeqAt buf) (with_channels (decode_payload buf count (64 + count * 16)) r)) [
                  | ok cs ↦ decode_payload-seq buf count (64 + count * 16) cs
                  | err e ↦ tt
                ])
    ]

Peeks : Bytes → Res ScopeCapture → Type 0
Peeks buf (ok c) = peek_seq buf ≡ some (some c.seq)
Peeks buf (err e) = Unit

decode_frame-Peeks : (buf : Bytes) → Only (Peeks buf) (decode_frame buf)
unfolding decode_frame peek_seq Only Peeks SeqAt
decode_frame-Peeks buf = elim (Bool-cases (ltb (length buf) 64)) [
  | inl short ↦ rw short tt
  | inr long ↦ rw long (
      Only-and_then (Peeks buf) (u32_at buf 0) _ λ magic m.
        elim (Bool-cases (magic == magic_number)) [
          | inr foreign ↦ rw foreign tt
          | inl known ↦ rw known (
              Only-and_then (Peeks buf) (u16_at buf 4) _ λ version _.
                elim (Bool-cases (version == version_number)) [
                  | inr different ↦ rw different tt
                  | inl same ↦ rw same (
                      elim (decode_body buf) as (λ o. Only (SeqAt buf) o → Only (Peeks buf) o) [
                        | none ↦ λ h. tt
                        | some r ↦ elim r as (λ r. SeqAt buf r → Peeks buf r) [
                          | err e ↦ λ h. tt
                          | ok c ↦ λ h. rw (long, peek_seq) (rw m (rw known (rw h refl)))
                        ]
                      ]
                        (decode_body-seq buf))
                ])
        ])
]

pub peek_seq-Yields : (buf : Bytes) → Yields Anything (peek_seq buf)
unfolding peek_seq Anything
peek_seq-Yields buf = elim (Bool-cases (ltb (length buf) 64)) [
  | inl short ↦ rw short (yields none refl tt)
  | inr long ↦
      let room : 64 ≤ length buf = ground arith in
      rw long (
        and_then (u32_at buf 0) _ (number_at-Yields 4 buf 0 (omega arith)) λ magic _.
          elim (Bool-cases (magic == magic_number)) [
            | inr foreign ↦ rw foreign (yields none refl tt)
            | inl known ↦ rw known (
                and_then (u64_at buf 8) _ (number_at-Yields 8 buf 8 (omega arith))
                  λ seq _. yields (some seq) refl tt)
          ])
]

-- It is no panic, and a capture has the sequence number.
unfoldable pub HasSeq : ℕ → Captured → Type 0
HasSeq n none = ⊥
HasSeq n (some (err e)) = Unit
HasSeq n (some (ok c)) = c.seq ≡ n

pub is_number_eq : (n : ℕ) (o : Option ℕ) → is_number n o ≡ true → o ≡ some n
is_number_eq n none h = absurd cc
is_number_eq n (some m) h = ap some ((==_iff m n).0 h)

pub HasSeq-decode_frame :
    (n : ℕ) (frame : Bytes) → peek_seq frame ≡ some (some n) → HasSeq n (decode_frame frame)
unfolding HasSeq Peeks Only
HasSeq-decode_frame n frame h = elim (decode_frame-Yields frame) [
  | yields r e _ ↦ subst (HasSeq n) (sym e) (
      elim r as (λ r. Peeks frame r → HasSeq n (some r)) [
        | err x ↦ λ _. tt
        | ok c ↦ λ p. let same : some (some c.seq) ≡ some (some n) = sym p ∙ h in cc
      ]
        (subst (Only (Peeks frame)) e (decode_frame-Peeks frame)))
]
