-- ===== src/Json/Sorted.antt =====
-- The maps that `insert` builds are sorted, so `remove` leaves nothing under its key.
use lager_rs.Prelude.{
  subst, ◌≡◌, refl, true, false, none, [], ◌∷◌, Text, text_eq, text_eq_iff, inl, inr, Bool-cases,
  arith,
}
use lager_rs.Json.Map.{text_eq_same}
use lager_rs.Json.{Value, Fields, end, field, lookup, insert, remove, text_lt}

text_lt_trans : (s t u : Text) → text_lt s t ≡ true → text_lt t u ≡ true → text_lt s u ≡ true
unfolding text_lt
text_lt_trans [] [] u h k = cc
text_lt_trans (x ∷ xs) [] u h k = cc
text_lt_trans s (y ∷ ys) [] h k = cc
text_lt_trans [] (y ∷ ys) (z ∷ zs) h k = cc
text_lt_trans (x ∷ xs) (y ∷ ys) (z ∷ zs) h k = ground (arith, text_lt_trans xs ys zs)

text_lt_total : (s t : Text) → text_eq s t ≡ false → text_lt t s ≡ false → text_lt s t ≡ true
unfolding text_lt
text_lt_total [] [] h k = cc
text_lt_total [] (y ∷ ys) h k = cc
text_lt_total (x ∷ xs) [] h k = cc
text_lt_total (x ∷ xs) (y ∷ ys) h k = ground (arith, text_lt_total xs ys)

text_lt-differs : (s t : Text) → text_lt s t ≡ true → text_eq t s ≡ false
unfolding text_lt
text_lt-differs [] [] h = cc
text_lt-differs [] (y ∷ ys) h = cc
text_lt-differs (x ∷ xs) [] h = cc
text_lt-differs (x ∷ xs) (y ∷ ys) h = ground (arith, text_lt-differs xs ys)

-- All keys come behind this one.
abbrev pub Above : Text → Fields → Type 0
Above k end = Unit
Above k (field name v m) = (text_lt k name ≡ true) × Above k m

abbrev pub IsSorted : Fields → Type 0
IsSorted end = Unit
IsSorted (field name v m) = Above name m × IsSorted m

Above-below : (j k : Text) (m : Fields) → text_lt j k ≡ true → Above k m → Above j m
Above-below j k end h a = tt
Above-below j k (field name v m) h (first, rest) =
    (text_lt_trans j k name h first, Above-below j k m h rest)

insert-Above :
    (j k : Text) (v : Value) (m : Fields) → text_lt j k ≡ true → Above j m → Above j (insert k v m)
unfolding insert
insert-Above j k v end h a = (h, tt)
insert-Above j k v (field name w m) h (first, rest) = elim (Bool-cases (text_eq name k)) [
  | inl same ↦ rw same (first, rest)
  | inr differ ↦ rw differ (elim (Bool-cases (text_lt k name)) [
    | inl before ↦ rw before (h, (first, rest))
    | inr behind ↦ rw behind (first, insert-Above j k v m h rest)
  ])
]

pub insert-IsSorted : (k : Text) (v : Value) (m : Fields) → IsSorted m → IsSorted (insert k v m)
unfolding insert
insert-IsSorted k v end s = (tt, tt)
insert-IsSorted k v (field name w m) (above, sorted) = elim (Bool-cases (text_eq name k)) [
  | inl same ↦ rw same (above, sorted)
  | inr differ ↦ rw differ (elim (Bool-cases (text_lt k name)) [
    | inl before ↦ rw before ((before, Above-below k name m before above), (above, sorted))
    | inr behind ↦ rw behind (
      insert-Above name k v m (text_lt_total name k differ behind) above,
      insert-IsSorted k v m sorted,
    )
  ])
]

lookup-Above : (k : Text) (m : Fields) → Above k m → lookup k m ≡ none
unfolding lookup
lookup-Above k end a = cc
lookup-Above k (field name v m) (first, rest) =
    rw (text_lt-differs k name first) (lookup-Above k m rest)

pub lookup-remove : (k : Text) (m : Fields) → IsSorted m → lookup k (remove k m) ≡ none
unfolding remove lookup
lookup-remove k end s = cc
lookup-remove k (field name v m) (above, sorted) = elim (Bool-cases (text_eq name k)) [
  | inl same ↦
      rw same (lookup-Above k m (subst (λ x. Above x m) ((text_eq_iff name k).0 same) above))
  | inr differ ↦ rw (differ, differ) (lookup-remove k m sorted)
]

pub lookup-remove_other :
    (k other : Text) (m : Fields)
    → text_eq k other ≡ false
    → lookup other (remove k m) ≡ lookup other m
unfolding remove lookup
lookup-remove_other k other end h = refl
lookup-remove_other k other (field name v m) h =
    ground (arith, text_eq_same name k other, lookup-remove_other k other m h)
