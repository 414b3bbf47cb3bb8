-- ===== src/Auth/Tests.antt =====
-- The token store and the token on concrete data, and instances of their theorems.
use lager_rs.Prelude.{
  ◌+◌, ◌≡◌, refl, ◌⊎◌, true, false, Option, none, some, [], ◌∷◌, Bytes, Text, pos, negsuc, str,
  text_eq, ltb, split, split_once, rsplit_once, utf8, char_bytes, trim, if◌then◌else◌,
}
use lager_rs.Json.{
  Value, is_end, number, pos_int, string, object, Fields, end, field, lookup, insert,
}
use lager_rs.Codec.Base64.{base64url_decode, url_groups, url_group, group_bytes, val}
use lager_rs.Url.{host_of}
use lager_rs.Auth.Jwt.{Floats, Context, token_is_fresh, token_expires_at}
use lager_rs.Auth.Cookies.{parse_set_cookie}
use lager_rs.Auth.Store.{
  Files, load_store, save_store, store_entry, RefreshOutcome, apply_refresh, entry_in,
}
use lager_rs.Auth.Store.Merge.{IsStore, entry_in-apply_refresh_other, entry_in-apply_refresh}
use lager_rs.Auth.Gateway.{
  GatewayAuth, new, learn_auth_server, usable_or_refresh, resolve_token, cache_token,
}
use lager_rs.Auth.Gateway.Learn.{IsBoxes, learned, new-learn_auth_server, learn_auth_server-pinned}
use lager_rs.Auth.Gateway.Resolve.{
  FromStore, FromRefresh, FromNowhere, resolve_token-sources, resolve_token-refreshed,
}

abbrev whole_floats : Floats
whole_floats = record {
  of_int = λ z. elim z [ pos n ↦ n | negsuc n ↦ 0 ];
  add = λ a b. a + b;
  less = ltb;
}

abbrev claims : Bytes → Option Value
claims bytes =
    if text_eq bytes (str "E")
    then some (object (field (str "exp") (number (pos_int 500)) end))
    else none

abbrev pub noon : Context
noon = record { floats = whole_floats; from_slice = claims; now_epoch = 100 }

-- The middle part is the base64url of `E`.
abbrev pub good_token : Text
good_token = str "x.RQ.y"

abbrev pub auth_url : Text
auth_url = str "https://auth"

good_token_is_fresh : token_is_fresh noon good_token ≡ true
unfolding token_is_fresh token_expires_at split utf8 char_bytes base64url_decode url_groups
    url_group group_bytes val lookup
good_token_is_fresh = refl

opaque_token_is_stale : token_is_fresh noon (str "secret") ≡ false
unfolding token_is_fresh token_expires_at split
opaque_token_is_stale = refl

rotated : parse_set_cookie (str "sid=abc; Path=/; HttpOnly") ≡ some (str "sid", str "abc")
unfolding parse_set_cookie trim split_once
rotated = refl

-- A file that holds one character, for one of two stores.
abbrev files : Value → Value → Files Text
files before after = record {
  read = λ d. some d;
  write = λ t d. t;
  from_str = λ t. if text_eq t (str "1") then some after else some before;
  to_string = λ v. some (str "1");
}

abbrev no_store : Value
no_store = object end

abbrev box_store : Value
box_store = learned (str "box") auth_url end end

abbrev box_url : Text
box_url = str "http://box:9000"

no_store-IsBoxes : IsBoxes (load_store (files no_store box_store) (str "0")) end end
unfolding load_store lookup
no_store-IsBoxes = record { root_at = refl; boxes_at = refl }

box_host : host_of box_url ≡ str "box"
unfolding host_of split_once rsplit_once
box_host = refl

unpinned : (new (files no_store box_store) (str "0") box_url none none).static_token ≡ none
unfolding new
unpinned = refl

box_store_kept :
    load_store
      (files no_store box_store)
      (save_store (files no_store box_store) (learned (host_of box_url) auth_url end end) (str "0"))
    ≡ learned (host_of box_url) auth_url end end
unfolding load_store save_store host_of split_once rsplit_once insert
box_store_kept = refl

new-learn_auth_server_example :
    (new
      (files no_store box_store)
      (learn_auth_server
        (files no_store box_store)
        auth_url
        (new (files no_store box_store) (str "0") box_url none none, str "0")).1
      box_url
      (some (str "pinned"))
      none).auth_url
    ≡ some auth_url
new-learn_auth_server_example =
    new-learn_auth_server (files no_store box_store) (str "0") box_url auth_url none none
      no_store-IsBoxes unpinned box_store_kept (some (str "pinned")) none

abbrev pinned_auth : GatewayAuth
pinned_auth = record {
  box_host = str "box";
  static_token = some (str "t");
  auth_url = none;
  token = none;
}

learn_auth_server-pinned_example :
    ((learn_auth_server (files no_store box_store) auth_url (pinned_auth, str "0")).1 ≡ str "0")
    × ((learn_auth_server (files no_store box_store) auth_url (pinned_auth, str "0")).0.auth_url
        ≡ some auth_url)
learn_auth_server-pinned_example =
    learn_auth_server-pinned (files no_store box_store) (str "0") auth_url pinned_auth refl

abbrev old_cookies : Fields
old_cookies = field (str "sid") (string (str "1")) end

abbrev old_entry : Fields
old_entry = field (str "cookies") (object old_cookies) end

abbrev old_servers : Fields
old_servers = field auth_url (object old_entry) end

abbrev old_root : Fields
old_root = field (str "authServers") (object old_servers) end

abbrev outcome : RefreshOutcome
outcome = record { access_token = good_token; set_cookies = (str "sid", str "2") ∷ [] }

old-IsStore : IsStore (object old_root) auth_url old_root old_servers old_entry old_cookies
unfolding lookup
old-IsStore = record { root_at = refl; servers_at = refl; entry_at = refl; cookies_at = refl }

entry_in-apply_refresh_example :
    entry_in (apply_refresh (object old_root) auth_url outcome) auth_url
    ≡ (some good_token, insert (str "sid") (string (str "2")) old_cookies)
entry_in-apply_refresh_example = entry_in-apply_refresh old-IsStore outcome

entry_in-apply_refresh_other_example :
    entry_in (apply_refresh (object old_root) auth_url outcome) (str "https://other")
    ≡ entry_in (object old_root) (str "https://other")
entry_in-apply_refresh_other_example =
    entry_in-apply_refresh_other (object old_root) auth_url (str "https://other") outcome refl

abbrev new_store : Value
new_store = apply_refresh (object old_root) auth_url outcome

abbrev old_files : Files Text
old_files = files (object old_root) new_store

abbrev blank_auth : GatewayAuth
blank_auth = record {
  box_host = str "box";
  static_token = none;
  auth_url = some auth_url;
  token = none;
}

abbrev renew : Text → Fields → Option RefreshOutcome
renew url cookies = some outcome

abbrev offline : Text → Fields → Option RefreshOutcome
offline url cookies = none

old_loaded-IsStore :
    IsStore (load_store old_files (str "0")) auth_url old_root old_servers old_entry old_cookies
unfolding load_store
old_loaded-IsStore = old-IsStore

old_entry_unusable :
    usable_or_refresh noon (store_entry old_files (str "0") auth_url).0 none ≡ (none, true)
unfolding store_entry load_store entry_in lookup usable_or_refresh
old_entry_unusable = refl

old_entry_cookies : is_end (store_entry old_files (str "0") auth_url).1 ≡ false
unfolding store_entry load_store entry_in lookup
old_entry_cookies = refl

new_store_kept :
    load_store old_files (
      save_store old_files
        (apply_refresh (load_store old_files (str "0")) auth_url outcome)
        (str "0"))
    ≡ apply_refresh (load_store old_files (str "0")) auth_url outcome
unfolding load_store save_store
new_store_kept = refl

-- A later time, at which the token is still fresh
abbrev afternoon : Context
afternoon = record noon { now_epoch = 200 }

good_token_is_still_fresh : token_is_fresh afternoon good_token ≡ true
unfolding token_is_fresh token_expires_at split utf8 char_bytes base64url_decode url_groups
    url_group group_bytes val lookup
good_token_is_still_fresh = refl

resolve_token-refreshed_example :
    (let later = (resolve_token old_files noon renew auth_url none (blank_auth, str "0")).2 in
      resolve_token old_files afternoon offline auth_url (some (str "denied")) (blank_auth, later)
      ≡ (some good_token, cache_token blank_auth good_token, later))
resolve_token-refreshed_example =
    resolve_token-refreshed old_files noon renew auth_url none blank_auth (str "0") outcome
      old_loaded-IsStore old_entry_unusable old_entry_cookies refl new_store_kept afternoon
      good_token_is_still_fresh (some (str "denied")) refl offline blank_auth

resolve_token-sources_example :
    FromStore old_files noon renew auth_url none blank_auth (str "0")
    ⊎ (FromRefresh old_files noon renew auth_url none blank_auth (str "0")
        ⊎ FromNowhere old_files noon renew auth_url none blank_auth (str "0"))
resolve_token-sources_example =
    resolve_token-sources old_files noon renew auth_url none blank_auth (str "0")
