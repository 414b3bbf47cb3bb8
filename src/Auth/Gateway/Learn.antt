-- ===== src/Auth/Gateway/Learn.antt =====
-- What a client learns of its box's auth server, and what the next one finds in the store.
use lager_rs.Prelude.{
  ◌≡◌, sym, ap, ◌∙◌, true, false, Option, none, some, Text, str, text_eq_iff, inl, inr, Bool-cases,
  is_some, ◌>>=?◌ as ◌>>=◌,
}
use lager_rs.Json.{Value, string, object, Fields, lookup, insert, or_insert, no_fields, as_str, get}
use lager_rs.Json.Map.{lookup-insert}
use lager_rs.Url.{host_of}
use lager_rs.Auth.Store.{Files, load_store, save_store}
use lager_rs.Auth.Gateway.{
  GatewayAuth, known_server, is_text, learn_in_store, new, learn_auth_server,
}

-- A store that is an object, with the boxes, if there at all, in an object.
pub record IsBoxes (store : Value) (root boxes : Fields) : Type 0 where
  pub root_at : store ≡ object root
  pub boxes_at : or_insert no_fields (lookup (str "boxes") root) ≡ object boxes

abbrev pub learned : Text → Text → Fields → Fields → Value
learned host url root boxes =
    object (insert (str "boxes") (object (insert host (string url) boxes)) root)

is_text_same : (o : Option Text) (t : Text) → is_text o t ≡ true → o ≡ some t
is_text_same none t h = cc
is_text_same (some s) t h = ap some ((text_eq_iff s t).0 h)

boxes_get :
    (o : Option Value) (boxes : Fields) (host : Text)
    → or_insert no_fields o ≡ object boxes
    → (o >>= get host) ≡ lookup host boxes
unfolding lookup
boxes_get none boxes host h = rw (sym (ap (λ v. get host v) h))
boxes_get (some v) boxes host h = ap (λ v. get host v) h

module _ {store : Value} {root boxes : Fields} (s : IsBoxes store root boxes)
    (host url : Text) where
  known_boxes : known_server store host ≡ (lookup host boxes >>= as_str)
  known_boxes = rw s.root_at (rw (boxes_get (lookup (str "boxes") root) boxes host s.boxes_at))

  known_server-learned : known_server (learned host url root boxes) host ≡ some url
  known_server-learned =
      rw (lookup-insert (str "boxes") (object (insert host (string url) boxes)) root)
        (rw (lookup-insert host (string url) boxes))

  learn_in_store-new :
      is_text (known_server store host) url ≡ false
      → learn_in_store host url store ≡ some (learned host url root boxes)
  learn_in_store-new h =
      rw s.root_at (rw s.boxes_at (rw (sym (ap (λ k. is_text k url) known_boxes) ∙ h)))

module _ {D : Type 0} (f : Files D) (disk : D) (base url : Text) (builder env : Option Text)
    {root boxes : Fields} (s : IsBoxes (load_store f disk) root boxes) where
  -- When a client without a pinned token learns its auth server, the next client of the same box
  -- knows it from the store, if the store is an object whose boxes are an object where they are
  -- there at all, and the file then holds what was written to it.
  pub new-learn_auth_server :
      (new f disk base builder env).static_token ≡ none
      → (kept : load_store f (save_store f (learned (host_of base) url root boxes) disk)
          ≡ learned (host_of base) url root boxes)
      → (builder' env' : Option Text)
      → (new f
          (learn_auth_server f url (new f disk base builder env, disk)).1
          base
          builder'
          env').auth_url
        ≡ some url
  unfolding new learn_auth_server
  new-learn_auth_server pinned kept builder' env' =
      elim (Bool-cases (is_text (known_server (load_store f disk) (host_of base)) url)) [
        | inl same ↦ rw same (is_text_same _ url same)
        | inr other ↦ rw other (
            rw pinned (
              rw (learn_in_store-new s (host_of base) url other)
                (rw kept (known_server-learned s (host_of base) url))))
      ]

module _ {D : Type 0} (f : Files D) (disk : D) (url : Text) where
  -- With a pinned token, the store is left alone and the client still knows the server.
  pub learn_auth_server-pinned :
      (a : GatewayAuth)
      → is_some a.static_token ≡ true
      → ((learn_auth_server f url (a, disk)).1 ≡ disk)
        × ((learn_auth_server f url (a, disk)).0.auth_url ≡ some url)
  unfolding learn_auth_server
  learn_auth_server-pinned a pinned = elim (Bool-cases (is_text a.auth_url url)) [
    | inl same ↦ (rw same, rw same (is_text_same _ url same))
    | inr other ↦ (rw other (rw pinned), rw other (rw pinned))
  ]
