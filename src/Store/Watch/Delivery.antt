-- ===== src/Store/Watch/Delivery.antt =====
-- A manifest that was put is what the watch reports.
use clowk_voodu.Base.{ℕ, ◌≡◌, ◌≢◌, refl, true, some, [], Bytes, ok}
use clowk_voodu.Keys.{valid_kind, is_scoped, desired_key}
use clowk_voodu.Keys.RoundTrip.{parse_desired_key-desired_key}
use clowk_voodu.Base.Text.Laws.{Lacks}
use clowk_voodu.Reconciler.{watch_put}
use clowk_voodu.Etcd.Client.{Client}
use clowk_voodu.Store.{Codec, Manifest, stamped, with_revision, decode_manifest}
use clowk_voodu.Store.Json.{IsCodec}
use clowk_voodu.Store.Watch.{event_put, watched}

module _ {S : Type 0} (client : Client S) (codec : Codec Manifest) (form : Manifest → Manifest)
    (own : IsCodec codec form) where
  -- The event of a Put at the clock now, of a manifest of a valid scoped kind with a scope that is not
  -- empty and has no slash and a name that is not empty, reaches the controller with the kind, the scope
  -- and the name of the manifest and its revision, and the manifest with its times entered, in the
  -- form that JSON makes of it.
  pub put_watched :
      (now rev : ℕ) (m : Manifest) (text : Bytes)
      → valid_kind m.kind ≡ true
      → is_scoped m.kind ≡ true
      → m.scope ≢ []
      → Lacks b'/' m.scope
      → m.name ≢ []
      → codec.encode (stamped now m) ≡ ok text
      → watched client codec (record {
        type = event_put;
        key = desired_key m.kind m.scope m.name;
        value = text;
        revision = rev;
      })
        ≡ some (record {
          event = record {
            type = watch_put;
            kind = m.kind;
            scope = m.scope;
            name = m.name;
            revision = rev;
          };
          manifest = some (with_revision rev (form (stamped now m)));
        })
  unfolding watched decode_manifest
  put_watched now rev m text valid scoped some_scope no_slash some_name encoded =
      rw
        (
          parse_desired_key-desired_key m.kind m.scope m.name valid scoped some_scope no_slash
              some_name,
          own.read_back (stamped now m) text encoded,
        )
        refl
