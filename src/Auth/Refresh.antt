-- ===== src/Auth/Refresh.antt =====
-- `refresh_blocking` and `refresh_async` of auth.rs: a refresh asks the auth server once. What the
-- HTTP library of the client gives for that is the parameter `ask`.
use lager_rs.Prelude.{
  ℕ, Bool, true, false, ◌&&◌, ◌||◌, Option, none, some, List, [], ◌∷◌, ◌++◌, ◌≡◌, ◌∙◌, refl, ap,
  Text, str, leb, ltb, if◌then◌else◌, ◌>>=?◌, Bool-cases, inl, inr, arith,
}
use lager_rs.Json.{Value, Fields, get, as_str}
use lager_rs.Auth.Cookies.{cookie_header, parse_set_cookie}
use lager_rs.Auth.Store.{RefreshOutcome}

-- An answer: its status, its `set-cookie` headers that are text, and its body where that is JSON
pub record RefreshReply : Type 0 where
  pub status : ℕ
  pub set_cookies : List Text
  pub body : Option Value

-- One POST to a URL with a `Cookie` header, within so many milliseconds
abbrev pub Ask : Type 0
Ask = Text → Text → ℕ → Option RefreshReply

abbrev pub auth_server_timeout : ℕ
auth_server_timeout = 10000

-- `filter_map(parse_set_cookie)`
abbrev pub keep_some : Option (Text × Text) → List (Text × Text) → List (Text × Text)
keep_some none rest = rest
keep_some (some cookie) rest = cookie ∷ rest

abbrev pub cookies_in : List Text → List (Text × Text)
cookies_in [] = []
cookies_in (header ∷ headers) = keep_some (parse_set_cookie header) (cookies_in headers)

abbrev pub outcome_of : RefreshReply → Option RefreshOutcome
outcome_of r = r.body >>=? λ body. get (str "accessToken") body >>=? λ v. as_str v >>=? λ token.
    some (record { access_token = token; set_cookies = cookies_in r.set_cookies })

abbrev pub asked : Ask → Text → Fields → Option RefreshReply
asked ask auth_url cookies =
    ask (auth_url ++ str "/api/auth/refresh") (cookie_header cookies) auth_server_timeout

unfoldable pub refresh_blocking : Ask → Text → Fields → Option RefreshOutcome
unfolding cookie_header parse_set_cookie
refresh_blocking ask auth_url cookies =
    asked ask auth_url cookies >>=? λ r. if leb 400 r.status then none else outcome_of r

-- `is_success`
abbrev pub is_success : ℕ → Bool
is_success status = leb 200 status && ltb status 300

unfoldable pub refresh_async : Ask → Text → Fields → Option RefreshOutcome
unfolding cookie_header parse_set_cookie
refresh_async ask auth_url cookies =
    asked ask auth_url cookies >>=? λ r. if is_success r.status then outcome_of r else none

-- An answer of success or an error: none with a status below 200 or of a redirection
abbrev pub IsFinal : Option RefreshReply → Type 0
IsFinal none = Unit
IsFinal (some r) = (is_success r.status || leb 400 r.status) ≡ true

-- Both libraries get the same final answer of the auth server.
abbrev pub AskedAlike : Ask → Ask → Type 0
AskedAlike ask ask' =
    (url cookies : Text) (ms : ℕ)
    → (ask url cookies ms ≡ ask' url cookies ms) × IsFinal (ask url cookies ms)

final-judged :
    (o : Option RefreshReply)
    → IsFinal o
    → (o >>=? λ r. if leb 400 r.status then none else outcome_of r)
      ≡ (o >>=? λ r. if is_success r.status then outcome_of r else none)
final-judged none final = refl
final-judged (some r) final = elim (Bool-cases (leb 400 r.status)) [
  | inl bad ↦
      let unsuccessful : is_success r.status ≡ false = ground arith in rw bad (rw unsuccessful refl)
  | inr good ↦ let success : is_success r.status ≡ true = ground arith in rw good (rw success refl)
]

-- Where both libraries get the same answers and none is a redirection, both refreshes are the same.
pub refresh_blocking-refresh_async :
    (ask ask' : Ask)
    → AskedAlike ask ask'
    → (url : Text) (cookies : Fields)
    → refresh_blocking ask url cookies ≡ refresh_async ask' url cookies
unfolding refresh_blocking refresh_async
refresh_blocking-refresh_async ask ask' alike url cookies =
    let (same, final) =
      alike (url ++ str "/api/auth/refresh") (cookie_header cookies) auth_server_timeout in
    final-judged (asked ask url cookies) final
    ∙ ap (λ o. o >>=? λ r. if is_success r.status then outcome_of r else none) same
