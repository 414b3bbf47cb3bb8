-- ===== src/Auth/Gateway/Resolve.antt =====
-- Which token `resolve_token` gives, and what it leaves in the store.
use lager_rs.Prelude.{
  ◌≡◌, refl, ◌⊎◌, inl, inr, true, false, not, ◌&&◌, Option, none, some, Text, Bool-cases,
  Option-cases, arith,
}
use lager_rs.Json.{Fields, is_end}
use lager_rs.Auth.Jwt.{Context, token_is_fresh}
use lager_rs.Auth.Store.{Files, load_store, save_store, store_entry, RefreshOutcome, apply_refresh}
use lager_rs.Auth.Store.Merge.{IsStore, entry_in-apply_refresh}
use lager_rs.Auth.Gateway.{GatewayAuth, is_avoided, usable_or_refresh, cache_token, resolve_token}

usable-source :
    (w : Context) (stored avoid : Option Text)
    → ((t : Text) × (stored ≡ some t)
        × (is_avoided t avoid ≡ false)
        × (token_is_fresh w t ≡ true)
        × (usable_or_refresh w stored avoid ≡ (some t, false)))
      ⊎ (usable_or_refresh w stored avoid ≡ (none, true))
unfolding usable_or_refresh
usable-source w none avoid = inr refl
usable-source w (some t) avoid =
    elim (Bool-cases (not (is_avoided t avoid) && token_is_fresh w t)) [
      | inl both ↦ inl (t, refl, ground arith, ground arith, rw both)
      | inr either ↦ inr (rw either)
    ]

module _ {D : Type 0} (f : Files D) (w : Context) (refresh : Text → Fields → Option RefreshOutcome)
    (url : Text) (avoid : Option Text) (a : GatewayAuth) (disk : D) where
  -- The stored token: fresh, and not the one to avoid.
  abbrev pub FromStore : Type 0
  FromStore =
      (t : Text) × ((store_entry f disk url).0 ≡ some t)
      × (is_avoided t avoid ≡ false)
      × (token_is_fresh w t ≡ true)
      × (resolve_token f w refresh url avoid (a, disk) ≡ (some t, cache_token a t, disk))

  -- The access token of a refresh with the stored cookies, which is merged into the store.
  abbrev pub FromRefresh : Type 0
  FromRefresh =
      (o : RefreshOutcome) × (refresh url (store_entry f disk url).1 ≡ some o)
      × (resolve_token f w refresh url avoid (a, disk) ≡ (
        some o.access_token,
        cache_token a o.access_token,
        save_store f (apply_refresh (load_store f disk) url o) disk,
      ))

  -- No token, and nothing changed.
  abbrev pub FromNowhere : Type 0
  FromNowhere = resolve_token f w refresh url avoid (a, disk) ≡ (none, a, disk)

  without_stored :
      usable_or_refresh w (store_entry f disk url).0 avoid ≡ (none, true)
      → FromRefresh ⊎ FromNowhere
  unfolding resolve_token
  without_stored e = elim (Bool-cases (is_end (store_entry f disk url).1)) [
    | inl empty ↦ inr (rw e (rw empty))
    | inr cookies ↦ elim (Option-cases (refresh url (store_entry f disk url).1)) [
      | inl failed ↦ inr (rw e (rw cookies (rw failed)))
      | inr (o, refreshed) ↦ inl (o, refreshed, rw e (rw cookies (rw refreshed)))
    ]
  ]

  -- A token comes from the store or from a refresh, never from elsewhere: out of the store it is
  -- fresh and not the token to avoid, and out of a refresh it is also stored.
  pub resolve_token-sources : FromStore ⊎ (FromRefresh ⊎ FromNowhere)
  unfolding resolve_token
  resolve_token-sources = elim (usable-source w (store_entry f disk url).0 avoid) [
    | inl (t, stored, kept, fresh, usable) ↦ inl (t, stored, kept, fresh, rw usable)
    | inr none_usable ↦ inr (without_stored none_usable)
  ]

  -- When the stored token cannot be used and a refresh with the stored cookies succeeds, every
  -- client finds the new access token in the store at every later time at which it is fresh, and
  -- needs no refresh, unless it is this token that it is to avoid. The parts of the store are to be
  -- objects where they are there at all, and the file is to hold what was written to it.
  pub resolve_token-refreshed :
      {root servers entry cookies : Fields} (o : RefreshOutcome)
      → IsStore (load_store f disk) url root servers entry cookies
      → usable_or_refresh w (store_entry f disk url).0 avoid ≡ (none, true)
      → is_end (store_entry f disk url).1 ≡ false
      → refresh url (store_entry f disk url).1 ≡ some o
      → (let store = apply_refresh (load_store f disk) url o in
          load_store f (save_store f store disk) ≡ store)
      → (w' : Context) → token_is_fresh w' o.access_token ≡ true
      → (avoid' : Option Text) → is_avoided o.access_token avoid' ≡ false
      → (refresh' : Text → Fields → Option RefreshOutcome) (a' : GatewayAuth)
      → (let later = (resolve_token f w refresh url avoid (a, disk)).2 in
          resolve_token f w' refresh' url avoid' (a', later)
          ≡ (some o.access_token, cache_token a' o.access_token, later))
  unfolding resolve_token store_entry usable_or_refresh
  resolve_token-refreshed o s unusable cookies refreshed kept w' fresh avoid' free refresh' a' =
      rw unusable
        (rw cookies (rw refreshed (rw kept (rw (entry_in-apply_refresh s o) (rw (free, fresh))))))
