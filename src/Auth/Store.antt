-- ===== src/Auth/Store.antt =====
-- The token store of auth.rs: a JSON file that the command line tool shares. The file, the JSON
-- parser and the printer are parameters.

pub mod Merge
use lager_rs.Prelude.{
  ℕ, Bool, true, false, Option, none, some, List, [], ◌∷◌, Text, str, text_eq, is_some,
  if◌then◌else◌, ◌>>=?◌ as ◌>>=◌,
}
use lager_rs.Json.{
  Value, string, Fields, object, lookup, insert, or_insert, no_fields, as_str, as_object, get, end,
}

-- `none` from `read` when there is no file that holds text.
pub record Files (D : Type 0) : Type 0 where
  pub read : D → Option Text
  pub write : Text → D → D
  pub from_str : Text → Option Value
  pub to_string : Value → Option Text

abbrev pub or_empty : Option Value → Value
or_empty none = no_fields
or_empty (some v) = v

unfoldable pub load_store : {D : Type 0} → Files D → D → Value
load_store f disk = or_empty (f.read disk >>= f.from_str)

abbrev pub write_text : {D : Type 0} → Files D → Option Text → D → D
write_text f none disk = disk
write_text f (some text) disk = f.write text disk

unfoldable pub save_store : {D : Type 0} → Files D → Value → D → D
save_store f store disk = write_text f (f.to_string store) disk

-- The parts of a refresh response that the store needs.
pub record RefreshOutcome : Type 0 where
  pub access_token : Text
  pub set_cookies : List (Text × Text)

abbrev pub insert_cookies : List (Text × Text) → Fields → Fields
insert_cookies [] cookies = cookies
insert_cookies ((name, value) ∷ more) cookies =
    insert_cookies more (insert name (string value) cookies)

abbrev pub merge_cookies : List (Text × Text) → Value → Value
merge_cookies set_cookies (object cookies) = object (insert_cookies set_cookies cookies)
merge_cookies set_cookies other = other

abbrev pub refresh_fields : RefreshOutcome → Fields → Fields
refresh_fields o entry =
    let with_token = insert (str "accessToken") (string o.access_token) entry in
    insert (str "cookies")
      (merge_cookies o.set_cookies (or_insert no_fields (lookup (str "cookies") with_token)))
      with_token

abbrev pub refresh_entry : RefreshOutcome → Value → Value
refresh_entry o (object entry) = object (refresh_fields o entry)
refresh_entry o other = other

abbrev pub refresh_servers : Text → RefreshOutcome → Value → Value
refresh_servers auth_url o (object servers) =
    object
      (insert auth_url (refresh_entry o (or_insert no_fields (lookup auth_url servers))) servers)
refresh_servers auth_url o other = other

unfoldable pub apply_refresh : Value → Text → RefreshOutcome → Value
apply_refresh (object root) auth_url o = object (
    insert (str "authServers")
      (refresh_servers auth_url o (or_insert no_fields (lookup (str "authServers") root))) root)
apply_refresh other auth_url o = other

abbrev pub map_or_empty : Option Fields → Fields
map_or_empty none = end
map_or_empty (some m) = m

-- What `store_entry` reads from the store.
unfoldable pub entry_in : Value → Text → Option Text × Fields
entry_in store auth_url =
    let entry = get (str "authServers") store >>= get auth_url in
    (
      entry >>= get (str "accessToken") >>= as_str,
      map_or_empty (entry >>= get (str "cookies") >>= as_object),
    )

unfoldable pub store_entry : {D : Type 0} → Files D → D → Text → Option Text × Fields
unfolding load_store
store_entry f disk auth_url = entry_in (load_store f disk) auth_url
