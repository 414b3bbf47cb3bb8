-- ===== src/Url/Plain.antt =====
-- The URLs of a plain host name or address, through every function that takes them apart.
use lager_rs.Prelude.{
  ℕ, ◌≤◌, ◌≡◌, refl, Bool, true, false, not, ◌&&◌, some, [], ◌∷◌, ◌++◌, Text, ok, str, all,
  all_mono, all-append, decimal, print_radix-digits, parse_radix-print_radix, is_digit_char,
  is_empty, no_space, trim-plain, rsplit_once, first_piece-plain, ◌==◌, arith,
}
use lager_rs.Url.{
  u16_max, base_url_with_port, base_url, service_base, host_before, authority, host_of, unbracket,
  host_port,
}
use lager_rs.Url.Split.{
  split_once-append_none, split_once-port, contains_char-append, split_once-append, split_once-none,
  rsplit_once-append, trim_end_by-free, trim_start_by-free, contains_char-free,
}

abbrev pub is_host_char : ℕ → Bool
is_host_char c =
    no_space c && (not (c == b':') && (not (c == b'/') && (not (c == b'[') && not (c == b']'))))

-- A host name or IPv4 address: no port, path, brackets or white space.
pub record IsHost (h : Text) : Type 0 where
  pub chars : all is_host_char h ≡ true
  pub filled : is_empty h ≡ false

abbrev pub url_of : Text → ℕ → Text
url_of h n = str "http://" ++ (h ++ b':' ∷ decimal n)

module _ (n : ℕ) (q : ℕ → Bool) (digits : (c : ℕ) → is_digit_char c ≡ true → q c ≡ true) where
  decimal-all : all q (decimal n) ≡ true
  decimal-all =
      all_mono is_digit_char q (decimal n) digits
        (print_radix-digits 10 n (omega arith) (omega arith))

module _ {h : Text} (i : IsHost h) where
  host-all : (q : ℕ → Bool) → ((c : ℕ) → is_host_char c ≡ true → q c ≡ true) → all q h ≡ true
  host-all q f = all_mono is_host_char q h f i.chars

  authority-url_of : (n : ℕ) → authority (url_of h n) ≡ h ++ b':' ∷ decimal n
  authority-url_of n =
      rw (split_once-append b':' (str "//") (str "http") (h ++ b':' ∷ decimal n) refl) (
        first_piece-plain b'/' (h ++ b':' ∷ decimal n) (
          all-append (λ c. not (c == b'/')) h (b':' ∷ decimal n) (host-all _ (λ c e. ground arith))
            (decimal-all n _ (λ c e. ground arith))))

  rsplit-port : (n : ℕ) → rsplit_once b':' (h ++ b':' ∷ decimal n) ≡ some (h, decimal n)
  rsplit-port n = rsplit_once-append b':' h (decimal n) (decimal-all n _ (λ c e. ground arith))

  host_before-port : (n : ℕ) → host_before (h ++ b':' ∷ decimal n) ≡ h
  host_before-port n = rw (rsplit-port n, host_before)

  host_of-url_of : (n : ℕ) → host_of (url_of h n) ≡ h
  unfolding host_of
  host_of-url_of n = rw (authority-url_of n) (host_before-port n)

  service_base-url_of : (n m : ℕ) → service_base (url_of h n) m ≡ url_of h m
  unfolding service_base
  service_base-url_of n m =
      rw (split_once-append b':' (str "//") (str "http") (h ++ b':' ∷ decimal n) refl)
        (rw (host_before-port n))

  unbracket-host : unbracket h ≡ h
  unbracket-host =
      rw (trim_start_by-free b'[' h (host-all _ (λ c e. ground arith)))
        (trim_end_by-free b']' h (host-all _ (λ c e. ground arith)))

  host_port-url_of : (n : ℕ) → n ≤ u16_max → host_port (url_of h n) ≡ ok (h, n)
  unfolding host_port
  host_port-url_of n k = rw (authority-url_of n) (
      rw (rsplit-port n) (
        rw (parse_radix-print_radix 10 n u16_max k (omega arith) (omega arith))
          (rw unbracket-host)))

  base_url_with_port-host : (n : ℕ) → base_url_with_port h n ≡ ok (url_of h n)
  unfolding base_url_with_port
  base_url_with_port-host n = rw (trim-plain h (host-all no_space (λ c e. ground arith))) (
      rw (split_once-none b':' (str "//") h (host-all _ (λ c e. ground arith))) (
        rw (trim_end_by-free b'/' h (host-all _ (λ c e. ground arith)))
          (rw i.filled (rw (contains_char-free b':' h (host-all _ (λ c e. ground arith)))))))

  with_port-all :
      (n : ℕ) (q : ℕ → Bool)
      → ((c : ℕ) → is_host_char c ≡ true → q c ≡ true)
      → ((c : ℕ) → is_digit_char c ≡ true → q c ≡ true)
      → q b':' ≡ true
      → all q (h ++ b':' ∷ decimal n) ≡ true
  with_port-all n q f g e =
      all-append q h (b':' ∷ decimal n) (host-all q f) (rw e (decimal-all n q g))

  is_empty-port : (d : Text) → is_empty (h ++ b':' ∷ d) ≡ false
  is_empty-port d = elim h as (λ g. is_empty (g ++ b':' ∷ d) ≡ false) [ [] ↦ refl | c ∷ g ↦ refl ]

  base_url_with_port-port :
      (n m : ℕ) → base_url_with_port (h ++ b':' ∷ decimal n) m ≡ ok (url_of h n)
  unfolding base_url_with_port
  base_url_with_port-port n m =
      rw
        (trim-plain (h ++ b':' ∷ decimal n)
          (with_port-all n no_space (λ c e. ground arith) (λ c e. ground arith) refl))
        (rw
          (split_once-append_none b':' (str "//") h (b':' ∷ decimal n)
            (host-all _ (λ c e. ground arith))
            (split_once-port (decimal n) (decimal-all n _ (λ c e. ground arith))
              (decimal-all n _ (λ c e. ground arith))))
          (rw
            (trim_end_by-free b'/' (h ++ b':' ∷ decimal n)
              (with_port-all n _ (λ c e. ground arith) (λ c e. ground arith) refl))
            (rw (is_empty-port (decimal n)) (rw (contains_char-append b':' h (decimal n))))))

-- A plain host name or address, without port, path, brackets or white space, becomes a URL with
-- the default port, or with the 16-bit port given behind a colon. From that URL the host comes
-- back as it was given, with the same port, and the URL of another service on the box has the same
-- host and the other port.
pub base_url-host :
    {h : Text}
    → IsHost h
    → (given other : ℕ) → given ≤ u16_max
    → (base_url h ≡ ok (url_of h 9000))
      × (base_url (h ++ b':' ∷ decimal given) ≡ ok (url_of h given))
      × (host_of (url_of h given) ≡ h)
      × (host_port (url_of h given) ≡ ok (h, given))
      × (service_base (url_of h given) other ≡ url_of h other)
unfolding base_url
base_url-host i given other k = (
  base_url_with_port-host i 9000,
  base_url_with_port-port i given 9000,
  host_of-url_of i given,
  host_port-url_of i given k,
  service_base-url_of i given other,
)
