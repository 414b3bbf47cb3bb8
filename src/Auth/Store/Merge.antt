-- ===== src/Auth/Store/Merge.antt =====
-- What a refresh changes in the token store.
use lager_rs.Prelude.{
  ◌≡◌, refl, ap, ◌∙◌, false, Option, none, some, Text, str, text_eq, ◌>>=?◌ as ◌>>=◌,
}
use lager_rs.Json.{
  Value, string, object, null, boolean, number, array, Fields, lookup, insert, or_insert, no_fields,
  as_object, get,
}
use lager_rs.Json.Map.{lookup-insert, lookup-insert_other}
use lager_rs.Auth.Store.{
  RefreshOutcome, insert_cookies, merge_cookies, refresh_fields, refresh_entry, refresh_servers,
  apply_refresh, entry_in,
}
use lager_rs.Auth.Gateway.{known_server}

-- Nothing under the key, or an object.
abbrev pub map_at : Text → Fields → Option Fields
map_at k m = as_object (or_insert no_fields (lookup k m))

servers_key : text_eq (str "authServers") (str "boxes") ≡ false
servers_key = refl

-- The mapping from boxes to auth servers stays.
pub known_server-apply_refresh :
    (store : Value) (url : Text) (o : RefreshOutcome) (h : Text)
    → known_server (apply_refresh store url o) h ≡ known_server store h
unfolding apply_refresh
known_server-apply_refresh (object root) url o h = rw (
    lookup-insert_other (str "authServers") (str "boxes")
      (refresh_servers url o (or_insert no_fields (lookup (str "authServers") root))) root refl)
known_server-apply_refresh null url o h = refl
known_server-apply_refresh (boolean b) url o h = refl
known_server-apply_refresh (number n) url o h = refl
known_server-apply_refresh (string s) url o h = refl
known_server-apply_refresh (array vs) url o h = refl

module _ (url other : Text) (o : RefreshOutcome) (h : text_eq url other ≡ false) where
  get-refresh_servers : (v : Value) → get other (refresh_servers url o v) ≡ get other v
  get-refresh_servers (object servers) =
      lookup-insert_other url other (refresh_entry o (or_insert no_fields (lookup url servers)))
        servers h
  get-refresh_servers null = refl
  get-refresh_servers (boolean b) = refl
  get-refresh_servers (number n) = refl
  get-refresh_servers (string s) = refl
  get-refresh_servers (array vs) = refl

  or_empty_get : (v : Option Value) → get other (or_insert no_fields v) ≡ (v >>= get other)
  unfolding lookup
  or_empty_get none = refl
  or_empty_get (some v) = refl

  servers_after :
      (root : Fields)
      → (get (str "authServers") (apply_refresh (object root) url o) >>= get other)
        ≡ (get (str "authServers") (object root) >>= get other)
  unfolding apply_refresh
  servers_after root =
      rw
        (lookup-insert (str "authServers")
          (refresh_servers url o (or_insert no_fields (lookup (str "authServers") root))) root)
        (get-refresh_servers (or_insert no_fields (lookup (str "authServers") root))
          ∙ or_empty_get (lookup (str "authServers") root))

-- A refresh at one auth server changes nothing of what is stored for another.
pub entry_in-apply_refresh_other :
    (store : Value) (url other : Text) (o : RefreshOutcome)
    → text_eq url other ≡ false
    → entry_in (apply_refresh store url o) other ≡ entry_in store other
unfolding entry_in
entry_in-apply_refresh_other (object root) url other o h = rw (servers_after url other o h root)
entry_in-apply_refresh_other null url other o h = unfold apply_refresh in refl
entry_in-apply_refresh_other (boolean b) url other o h = unfold apply_refresh in refl
entry_in-apply_refresh_other (number n) url other o h = unfold apply_refresh in refl
entry_in-apply_refresh_other (string s) url other o h = unfold apply_refresh in refl
entry_in-apply_refresh_other (array vs) url other o h = unfold apply_refresh in refl

-- The store, the servers, the entry of one server and its cookies, each an object where it is
-- there at all.
pub record IsStore (store : Value) (url : Text) (root servers entry cookies : Fields) : Type 0 where
  pub root_at : store ≡ object root
  pub servers_at : or_insert no_fields (lookup (str "authServers") root) ≡ object servers
  pub entry_at : or_insert no_fields (lookup url servers) ≡ object entry
  pub cookies_at : or_insert no_fields (lookup (str "cookies") entry) ≡ object cookies

module _ {store : Value} {url : Text} {root servers entry cookies : Fields}
    (s : IsStore store url root servers entry cookies) (o : RefreshOutcome) where
  cookies_with_token :
      or_insert no_fields
        (lookup (str "cookies") (insert (str "accessToken") (string o.access_token) entry))
      ≡ object cookies
  cookies_with_token =
      rw
        (lookup-insert_other (str "accessToken") (str "cookies") (string o.access_token) entry refl)
        s.cookies_at

  token_after : lookup (str "accessToken") (refresh_fields o entry) ≡ some (string o.access_token)
  token_after =
      lookup-insert_other (str "cookies") (str "accessToken") _
        (insert (str "accessToken") (string o.access_token) entry) refl
      ∙ lookup-insert (str "accessToken") (string o.access_token) entry

  cookies_after :
      lookup (str "cookies") (refresh_fields o entry)
      ≡ some (object (insert_cookies o.set_cookies cookies))
  cookies_after =
      lookup-insert (str "cookies") _ (insert (str "accessToken") (string o.access_token) entry)
      ∙ ap (λ v. some (merge_cookies o.set_cookies v)) cookies_with_token

  entry_after :
      (get (str "authServers") (apply_refresh store url o) >>= get url)
      ≡ some (object (refresh_fields o entry))
  unfolding apply_refresh
  entry_after = rw s.root_at (
      rw
        (lookup-insert (str "authServers")
          (refresh_servers url o (or_insert no_fields (lookup (str "authServers") root))) root)
        (rw s.servers_at (
          rw
            (lookup-insert url (refresh_entry o (or_insert no_fields (lookup url servers))) servers)
            (rw s.entry_at))))

  -- Where the store, its servers, the entry of the server and its cookies are objects if they are
  -- there at all, a refresh leaves its access token at the auth server, and its cookies over the
  -- old ones.
  pub entry_in-apply_refresh :
      entry_in (apply_refresh store url o) url
      ≡ (some o.access_token, insert_cookies o.set_cookies cookies)
  unfolding entry_in
  entry_in-apply_refresh = rw entry_after (rw token_after (rw cookies_after))
