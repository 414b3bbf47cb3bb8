-- ===== src/Auth/Gateway.antt =====
-- `GatewayAuth` of auth.rs: what one client knows of its box's gateway. The mutex around the
-- state is not modelled: every operation is one step on the state.
pub mod Learn
pub mod Resolve
use lager_rs.Prelude.{
  ℕ, Bool, true, false, not, ◌&&◌, ◌||◌, Option, none, some, Text, str, text_eq, trim, is_empty,
  is_some, if◌then◌else◌, ◌>>=?◌ as ◌>>=◌,
}
use lager_rs.Json.{
  Value, string, Fields, object, is_end, lookup, insert, or_insert, no_fields, as_str, get,
}
use lager_rs.Url.{host_of}
use lager_rs.Auth.Jwt.{Context, token_is_fresh}
use lager_rs.Auth.Store.{Files, load_store, save_store, store_entry, RefreshOutcome, apply_refresh}

pub record GatewayAuth : Type 0 where
  pub box_host : Text
  pub static_token : Option Text
  pub auth_url : Option Text
  pub token : Option Text

abbrev pub or_env : Option Text → Option Text → Option Text
or_env (some t) env = some t
or_env none env = env

-- `filter(|t| !t.trim().is_empty())`
abbrev pub filled : Option Text → Option Text
filled none = none
filled (some t) = if is_empty (trim t) then none else some t

abbrev pub known_server : Value → Text → Option Text
known_server store box_host = get (str "boxes") store >>= get box_host >>= as_str

abbrev pub is_text : Option Text → Text → Bool
is_text none t = false
is_text (some s) t = text_eq s t

-- The store with the mapping of a box, or `none` when nothing is to be written.
abbrev pub learn_in_boxes : Text → Text → Fields → Value → Option Value
learn_in_boxes box_host url root (object boxes) =
    if is_text (lookup box_host boxes >>= as_str) url
    then none
    else some (object (insert (str "boxes") (object (insert box_host (string url) boxes)) root))
learn_in_boxes box_host url root other = none

abbrev pub learn_in_store : Text → Text → Value → Option Value
learn_in_store box_host url (object root) =
    learn_in_boxes box_host url root (or_insert no_fields (lookup (str "boxes") root))
learn_in_store box_host url other = none

-- `usable_or_refresh`: the stored token, when it is fresh and not the one just rejected.
abbrev pub is_avoided : Text → Option Text → Bool
is_avoided token none = false
is_avoided token (some avoid) = text_eq token avoid

unfoldable pub usable_or_refresh : Context → Option Text → Option Text → Option Text × Bool
usable_or_refresh w none avoid = (none, true)
usable_or_refresh w (some token) avoid =
    if not (is_avoided token avoid) && token_is_fresh w token
    then (some token, false)
    else (none, true)

unfoldable pub cache_token : GatewayAuth → Text → GatewayAuth
cache_token a token = if is_some a.static_token then a else record a { token = some token }

unfoldable pub wants_store_token : GatewayAuth → Bool
wants_store_token a = not (is_some a.static_token) && is_some a.auth_url

unfoldable pub has_static_token : GatewayAuth → Bool
has_static_token a = is_some a.static_token

abbrev pub fresh_only : Context → GatewayAuth → Option Text → Option Text × GatewayAuth
fresh_only w a none = (none, a)
fresh_only w a (some token) =
    if token_is_fresh w token then (some token, a) else (none, record a { token = none })

abbrev pub cached_or_static : Context → GatewayAuth → Option Text → Option Text × GatewayAuth
cached_or_static w a (some token) = (some token, a)
cached_or_static w a none = fresh_only w a a.token

unfoldable pub cached_token : Context → GatewayAuth → Option Text × GatewayAuth
cached_token w a = cached_or_static w a a.static_token

module _ {D : Type 0} (f : Files D) where
  unfoldable pub new : D → Text → Option Text → Option Text → GatewayAuth
  unfolding load_store
  new disk base_url builder_token env_token = record {
    box_host = host_of base_url;
    static_token = filled (or_env builder_token env_token);
    auth_url = known_server (load_store f disk) (host_of base_url);
    token = none;
  }

  abbrev save_learned : Option Value → D → D
  save_learned none disk = disk
  save_learned (some store) disk = save_store f store disk

  unfoldable pub learn_auth_server : Text → GatewayAuth × D → GatewayAuth × D
  unfolding load_store save_store
  learn_auth_server url (a, disk) =
      if is_text a.auth_url url
      then (a, disk)
      else let a' = record a { auth_url = some url } in
        if is_some a.static_token
        then (a', disk)
        else (a', save_learned (learn_in_store a.box_host url (load_store f disk)) disk)

  -- After a refresh, against the store as it then is.
  abbrev keep_outcome :
      Text → Option RefreshOutcome → GatewayAuth × D → Option Text × GatewayAuth × D
  keep_outcome url none (a, disk) = (none, a, disk)
  keep_outcome url (some o) (a, disk) = (
    some o.access_token,
    cache_token a o.access_token,
    save_store f (apply_refresh (load_store f disk) url o) disk,
  )

  abbrev use_or_refresh :
      (Text → Fields → Option RefreshOutcome)
      → Text
      → Option Text × Bool
      → Fields
      → GatewayAuth × D
      → Option Text × GatewayAuth × D
  use_or_refresh refresh url (some token, needs_refresh) cookies (a, disk) =
      (some token, cache_token a token, disk)
  use_or_refresh refresh url (none, needs_refresh) cookies (a, disk) =
      if not needs_refresh || is_end cookies
      then (none, a, disk)
      else keep_outcome url (refresh url cookies) (a, disk)

  -- `resolve_token_blocking`; `refresh` is the call of the auth server.
  unfoldable pub resolve_token :
      Context
      → (Text → Fields → Option RefreshOutcome)
      → Text
      → Option Text
      → GatewayAuth × D
      → Option Text × GatewayAuth × D
  unfolding load_store save_store store_entry usable_or_refresh cache_token apply_refresh
  resolve_token w refresh url avoid (a, disk) =
      let stored = store_entry f disk url in
      use_or_refresh refresh url (usable_or_refresh w stored.0 avoid) stored.1 (a, disk)
