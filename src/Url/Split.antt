-- ===== src/Url/Split.antt =====
-- Cutting text at a separator that it was put together with.
use lager_rs.Prelude.{
  ℕ, ◌≡◌, refl, true, false, not, none, some, [], ◌∷◌, ◌++◌, Text, all, strip_prefix, split_once,
  rsplit_once, trim_end_by, trim_start_by, contains_char, ◌==◌, ==_iff, arith,
}

pub strip_prefix-append : (p t : Text) → strip_prefix p (p ++ t) ≡ some t
strip_prefix-append [] t = refl
strip_prefix-append (c ∷ p) t = rw ((==_iff c c).1 refl) (strip_prefix-append p t)

abbrev pub FreeOf : ℕ → Text → Type 0
FreeOf sep s = all (λ c. not (c == sep)) s ≡ true

-- The first occurrence of a separator whose first character the text before it does not hold.
pub split_once-append :
    (p : ℕ) (ps s t : Text) → FreeOf p s → split_once (p ∷ ps) (s ++ ((p ∷ ps) ++ t)) ≡ some (s, t)
unfolding split_once
split_once-append p ps [] t h = rw (strip_prefix-append (p ∷ ps) t)
split_once-append p ps (c ∷ s) t h =
    let differ : (p == c) ≡ false = ground arith in
    rw differ (rw (split_once-append p ps s t (ground arith)))

pub split_once-none : (p : ℕ) (ps s : Text) → FreeOf p s → split_once (p ∷ ps) s ≡ none
unfolding split_once
split_once-none p ps [] h = refl
split_once-none p ps (c ∷ s) h = ground (arith, split_once-none p ps s)

pub rsplit_once-none : (sep : ℕ) (s : Text) → FreeOf sep s → rsplit_once sep s ≡ none
unfolding rsplit_once
rsplit_once-none sep [] h = refl
rsplit_once-none sep (c ∷ s) h = ground (arith, rsplit_once-none sep s)

-- The last occurrence of a character that the text behind it does not hold.
pub rsplit_once-append :
    (sep : ℕ) (s t : Text) → FreeOf sep t → rsplit_once sep (s ++ sep ∷ t) ≡ some (s, t)
unfolding rsplit_once
rsplit_once-append sep [] t h = rw (rsplit_once-none sep t h) (rw ((==_iff sep sep).1 refl))
rsplit_once-append sep (c ∷ s) t h = rw (rsplit_once-append sep s t h)

pub trim_end_by-free : (sep : ℕ) (s : Text) → FreeOf sep s → trim_end_by (λ c. c == sep) s ≡ s
trim_end_by-free sep [] h = refl
trim_end_by-free sep (c ∷ []) h = ground arith
trim_end_by-free sep (c ∷ d ∷ s) h = rw (trim_end_by-free sep (d ∷ s) (ground arith))

pub trim_start_by-free : (sep : ℕ) (s : Text) → FreeOf sep s → trim_start_by (λ c. c == sep) s ≡ s
trim_start_by-free sep [] h = refl
trim_start_by-free sep (c ∷ s) h = ground arith

pub contains_char-free : (sep : ℕ) (s : Text) → FreeOf sep s → contains_char sep s ≡ false
contains_char-free sep [] h = refl
contains_char-free sep (c ∷ s) h = ground (arith, contains_char-free sep s)

pub split_once-append_none :
    (p : ℕ) (ps s r : Text)
    → FreeOf p s
    → split_once (p ∷ ps) r ≡ none
    → split_once (p ∷ ps) (s ++ r) ≡ none
unfolding split_once
split_once-append_none p ps [] r h e = e
split_once-append_none p ps (c ∷ s) r h e =
    let differ : (p == c) ≡ false = ground arith in
    rw differ (rw (split_once-append_none p ps s r (ground arith) e))

-- Behind `:`, a port is not taken for the `//` of a scheme.
pub split_once-port :
    (d : Text)
    → FreeOf b':' d
    → FreeOf b'/' d
    → split_once (b':' ∷ b'/' ∷ b'/' ∷ []) (b':' ∷ d) ≡ none
unfolding split_once
split_once-port [] h k = refl
split_once-port (c ∷ d) h k =
    let slash : (b'/' == c) ≡ false = ground arith in
    let colon : (b':' == c) ≡ false = ground arith in
    rw slash (rw colon (rw (split_once-none b':' (b'/' ∷ b'/' ∷ []) d (ground arith))))

pub contains_char-append : (sep : ℕ) (s t : Text) → contains_char sep (s ++ sep ∷ t) ≡ true
contains_char-append sep [] t = rw ((==_iff sep sep).1 refl)
contains_char-append sep (c ∷ s) t = ground (arith, contains_char-append sep s t)
