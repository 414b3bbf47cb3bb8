-- ===== src/Json/Map.antt =====
-- What a map holds after an insertion.
use lager_rs.Prelude.{
  subst, Bool-cases, inl, inr, if◌then◌else◌, ◌≡◌, ap, true, false, some, Text, text_eq,
  text_eq_iff, text_eq_refl, arith,
}
use lager_rs.Json.{Value, Fields, end, field, lookup, insert}

pub lookup-insert : (k : Text) (v : Value) (m : Fields) → lookup k (insert k v m) ≡ some v
unfolding lookup insert
lookup-insert k v end = rw (text_eq_refl k)
lookup-insert k v (field name w m) = ground (arith, text_eq_refl k, lookup-insert k v m)

pub text_eq_same : (s k t : Text) → text_eq s k ≡ true → text_eq s t ≡ text_eq k t
text_eq_same s k t h = ap (λ x. text_eq x t) ((text_eq_iff s k).0 h)

-- Under another key, nothing changes.
pub lookup-insert_other :
    (k other : Text) (v : Value) (m : Fields)
    → text_eq k other ≡ false
    → lookup other (insert k v m) ≡ lookup other m
unfolding lookup insert
lookup-insert_other k other v end h = rw h
lookup-insert_other k other v (field name w m) h =
    ground (arith, text_eq_same name k other, lookup-insert_other k other v m)

pub lookup-insert_if :
    (k other : Text) (v : Value) (m : Fields)
    → lookup other (insert k v m) ≡ (if text_eq k other then some v else lookup other m)
lookup-insert_if k other v m = elim (Bool-cases (text_eq k other)) [
  | inl same ↦ rw same (
      subst (λ x. lookup x (insert k v m) ≡ some v) ((text_eq_iff k other).0 same)
        (lookup-insert k v m))
  | inr differ ↦ rw differ (lookup-insert_other k other v m differ)
]
