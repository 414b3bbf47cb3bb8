-- ===== src/DebugNet/Records.antt =====
-- Which record `find_debug_record` gives.
use lager_rs.Prelude.{
  ◌≡◌, refl, ap, sym, ◌∙◌, Bool, true, false, not, ◌&&◌, ◌||◌, List, [], ◌∷◌, ◌++◌, Text, str, ok,
  err, all, any, Bool-cases, inl, inr, arith,
}
use lager_rs.Json.{Value}
use lager_rs.Error.{Error, Res}
use lager_rs.DebugNet.{is_at, not_found, search_records, find_debug_record}

abbrev pub is_debug_net : Text → Value → Bool
is_debug_net name rec = is_at (str "name") rec name && is_at (str "role") rec (str "debug")

abbrev pub other_net : Text → Value → Bool
other_net name rec = not (is_debug_net name rec)

abbrev found : Value → Res Value
found rec = ok rec

abbrev missing : Error → Res Value
missing e = err e

-- The first record with the name and the role.
abbrev pub First : List Value → Text → Value → Type 0
First records name rec =
    (before after : List Value) × (records ≡ before ++ rec ∷ after)
    × (all (other_net name) before ≡ true)
    × (is_debug_net name rec ≡ true)

search_records-First :
    (wrong_role : Bool) (records : List Value) (name : Text) (rec : Value)
    → search_records wrong_role records name ≡ ok rec
    → First records name rec
unfolding search_records
search_records-First w [] name rec h = cc
search_records-First w (r ∷ records) name rec h = elim (Bool-cases (is_debug_net name r)) [
  | inl here ↦
      let same : found r ≡ ok rec = rw (here, search_records) at h in
      let equal : r ≡ rec = cc in
      ([], records, ap (λ x. x ∷ records) equal, refl, ap (is_debug_net name) (sym equal) ∙ here)
  | inr there ↦
      let (before, after, cut, others, hit) =
        search_records-First (w || is_at (str "name") r name) records name rec
          (rw (there, search_records) at h) in
      (r ∷ before, after, ap (λ l. r ∷ l) cut, rw there others, hit)
]

-- The record that is found is the first one with the name and the role `debug`.
pub find_debug_record-First :
    (records : List Value) (name : Text) (rec : Value)
    → find_debug_record records name ≡ ok rec
    → First records name rec
unfolding find_debug_record
find_debug_record-First records name rec h = search_records-First false records name rec h

or_false : (b : Bool) → b ≡ (b || false)
or_false b = ground arith

or_assoc : (a b c : Bool) → ((a || b) || c) ≡ (a || (b || c))
or_assoc a b c = ground arith

search_records-missing :
    (wrong_role : Bool) (records : List Value) (name : Text) (e : Error)
    → search_records wrong_role records name ≡ err e
    → (all (other_net name) records ≡ true)
      × (e ≡ not_found (wrong_role || any (λ r. is_at (str "name") r name) records) name)
unfolding search_records
search_records-missing w [] name e h =
    let same : missing (not_found w name) ≡ err e = h in
    let equal : not_found w name ≡ e = cc in
    (refl, sym equal ∙ ap (λ b. not_found b name) (or_false w))
search_records-missing w (r ∷ records) name e h = elim (Bool-cases (is_debug_net name r)) [
  | inl here ↦ let clash : found r ≡ err e = rw (here, search_records) at h in absurd cc
  | inr there ↦
      let named = is_at (str "name") r name in
      let (others, reason) =
        search_records-missing (w || named) records name e (rw (there, search_records) at h) in
      (
        rw there others,
        reason
            ∙ ap (λ b. not_found b name)
                (or_assoc w named (any (λ r. is_at (str "name") r name) records)),
      )
]

-- When none is found, no record has the name and the role `debug`, and the error says whether one
-- has the name with another role.
pub find_debug_record-missing :
    (records : List Value) (name : Text) (e : Error)
    → find_debug_record records name ≡ err e
    → (all (other_net name) records ≡ true)
      × (e ≡ not_found (any (λ r. is_at (str "name") r name) records) name)
unfolding find_debug_record
find_debug_record-missing records name e h = search_records-missing false records name e h
