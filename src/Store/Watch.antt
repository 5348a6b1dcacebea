-- ===== src/Store/Watch.antt =====
-- internal/controller/store.go: Watch, which makes the events of the desired keys into the controller's
-- own. The stream of etcd's responses is a list; a response is an error or its events.
pub mod Delivery
use clowk_voodu.Base.{ℕ, Option, none, some, List, [], ◌∷◌, ◌++◌, Bytes, Result, ok, err}
use clowk_voodu.Keys.{Kind, parse_desired_key}
use clowk_voodu.Reconciler.{WatchEventType, watch_put, watch_delete, WatchEvent}
use clowk_voodu.Etcd.Client.{Client}
use clowk_voodu.Store.{Codec, Manifest, decode_manifest}

-- ev.Type.String()
pub data EventType : Type 0 where
  event_put event_delete event_other : EventType

pub record EtcdEvent : Type 0 where
  pub type : EventType
  pub key : Bytes
  pub value : Bytes
  pub revision : ℕ

-- An event with its manifest, which is nil for a delete and where the value does not decode.
pub record Watched : Type 0 where
  pub event : WatchEvent
  pub manifest : Option Manifest

abbrev pub manifest_or_nil : Result Bytes Manifest → Option Manifest
manifest_or_nil (err e) = none
manifest_or_nil (ok m) = some m

module _ {S : Type 0} (client : Client S) (codec : Codec Manifest) where
  abbrev pub event_of : EtcdEvent → Kind × Bytes × Bytes → WatchEventType → WatchEvent
  event_of ev (kind, scope, name) type = record {
    type = type;
    kind = kind;
    scope = scope;
    name = name;
    revision = ev.revision;
  }

  abbrev pub typed_event : EtcdEvent → Kind × Bytes × Bytes → EventType → Option Watched
  typed_event ev place event_put = some (record {
    event = event_of ev place watch_put;
    manifest = manifest_or_nil (decode_manifest client codec ev.value ev.revision);
  })
  typed_event ev place event_delete =
      some (record { event = event_of ev place watch_delete; manifest = none })
  typed_event ev place event_other = none

  abbrev pub parsed_event : EtcdEvent → Option (Kind × Bytes × Bytes) → Option Watched
  parsed_event ev none = none
  parsed_event ev (some place) = typed_event ev place ev.type

  -- One event; `none` where the loop goes on without one.
  unfoldable pub watched : EtcdEvent → Option Watched
  unfolding parse_desired_key decode_manifest
  watched ev = parsed_event ev (parse_desired_key ev.key)

  abbrev pub and_then : Option Watched → List Watched → List Watched
  and_then none rest = rest
  and_then (some w) rest = w ∷ rest

  unfoldable pub watched_all : List EtcdEvent → List Watched
  unfolding watched
  watched_all [] = []
  watched_all (ev ∷ events) = and_then (watched ev) (watched_all events)

  -- What the channel gets before it is closed, at an error or at the end of the stream.
  unfoldable pub watch : List (Result Bytes (List EtcdEvent)) → List Watched
  unfolding watched_all
  watch [] = []
  watch (err e ∷ responses) = []
  watch (ok events ∷ responses) = watched_all events ++ watch responses
