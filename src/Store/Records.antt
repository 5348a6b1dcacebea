-- ===== src/Store/Records.antt =====
-- internal/controller/pat_store.go, trigger_store.go and wire_store.go: tokens, deploy triggers and
-- WireGuard peers, each a record in JSON under its key; and the frozen replicas of store.go.
pub mod ReadBack
use clowk_voodu.Base.{
  ℕ, Bool, true, false, Option, none, some, List, [], ◌∷◌, ◌++◌, Bytes, Result, ok, err,
}
use clowk_voodu.Base.Text.{codes}
use clowk_voodu.Base.Dict.{Dict}
use clowk_voodu.Keys.{Kind}
use clowk_voodu.Etcd.{Call, ◌>>=◌, return, fail, wrapping}
use clowk_voodu.Etcd.Client.{Client, Stored}
use clowk_voodu.Store.{Codec, answer}

-- The fields of a token that the store reads and writes; the others are `rest`.
pub record Pat : Type 0 where
  pub id : Bytes
  pub last_used_at : ℕ
  pub rest : Bytes

pub record TriggerRecord : Type 0 where
  pub id : Bytes
  pub rest : Bytes

pub record WirePeer : Type 0 where
  pub public_key : Bytes
  pub address : Bytes
  pub endpoint : Bytes
  pub added_at : ℕ

abbrev pub pats_prefix : Bytes
pats_prefix = codes "/pats/"

abbrev pub triggers_prefix : Bytes
triggers_prefix = codes "/triggers/"

abbrev pub wire_peers_prefix : Bytes
wire_peers_prefix = codes "/wire/peers/"

unfoldable pub pat_key : Bytes → Bytes
pat_key id = pats_prefix ++ id

unfoldable pub trigger_key : Bytes → Bytes
trigger_key id = triggers_prefix ++ id

unfoldable pub wire_peer_key : Bytes → Bytes
wire_peer_key address = wire_peers_prefix ++ address

unfoldable pub frozen_key : Kind → Bytes → Bytes → Bytes
frozen_key kind [] name = codes "/frozen/" ++ kind ++ codes "s/" ++ name
frozen_key kind (b ∷ scope) name =
    codes "/frozen/" ++ kind ++ codes "s/" ++ (b ∷ scope) ++ codes "/" ++ name

module _ {S : Type 0} (client : Client S) where
  module _ {A : Type 0} (codec : Codec A) where
    -- Marshal and Put, with the errors' texts.
    abbrev pub put_json : Bytes → Bytes → Bytes → A → Call S (Unit {0})
    put_json marshalling putting key a = wrapping marshalling (answer (codec.encode a)) >>= λ text.
        wrapping putting (client.put key text) >>= λ rev. return tt

    abbrev pub decode_value : Bytes → Option Bytes → Call S (Option A)
    decode_value decoding none = return none
    decode_value decoding (some text) =
        wrapping decoding (answer (codec.decode text)) >>= λ a. return (some a)

    abbrev pub get_json : Bytes → Bytes → Bytes → Call S (Option A)
    get_json getting decoding key = wrapping getting (client.etcd.get key) >>= decode_value decoding

    unfoldable pub decode_records : Bytes → Dict Stored → Call S (List A)
    decode_records what [] = return []
    decode_records what ((key, (text, rev)) ∷ kvs) =
        wrapping (codes "decode " ++ what ++ codes " " ++ key ++ codes ": ")
          (answer (codec.decode text))
        >>= λ a. decode_records what kvs >>= λ out. return (a ∷ out)

    unfoldable pub list_json : Bytes → Bytes → Bytes → Call S (List A)
    unfolding decode_records
    list_json listing what prefix = wrapping listing (client.list prefix) >>= decode_records what

  abbrev pub delete_named : Bytes → Bytes → Call S Bool
  delete_named deleting key = wrapping deleting (client.delete key)

  module _ (codec : Codec Pat) where
    abbrev pub put_pat_id : Pat → Bytes → Call S (Unit {0})
    put_pat_id p [] = fail (codes "etcd put PAT: empty ID")
    put_pat_id p (b ∷ id) =
        put_json codec (codes "marshal PAT " ++ (b ∷ id) ++ codes ": ")
          (codes "etcd put PAT " ++ (b ∷ id) ++ codes ": ") (pat_key (b ∷ id)) p

    unfoldable pub put_pat : Pat → Call S (Unit {0})
    unfolding pat_key
    put_pat p = put_pat_id p p.id

    unfoldable pub get_pat : Bytes → Call S (Option Pat)
    unfolding pat_key
    get_pat [] = return none
    get_pat (b ∷ id) =
        get_json codec (codes "etcd get PAT " ++ (b ∷ id) ++ codes ": ")
          (codes "decode PAT " ++ (b ∷ id) ++ codes ": ") (pat_key (b ∷ id))

    unfoldable pub list_pats : Call S (List Pat)
    unfolding list_json
    list_pats = list_json codec (codes "etcd list PATs: ") (codes "PAT") pats_prefix

    unfoldable pub delete_pat : Bytes → Call S Bool
    unfolding pat_key
    delete_pat [] = return false
    delete_pat (b ∷ id) =
        delete_named (codes "etcd delete PAT " ++ (b ∷ id) ++ codes ": ") (pat_key (b ∷ id))

    abbrev pub touch_found : ℕ → Option Pat → Call S (Unit {0})
    touch_found at none = return tt
    touch_found at (some p) = put_pat (record p { last_used_at = at })

    unfoldable pub touch_pat : Bytes → ℕ → Call S (Unit {0})
    unfolding get_pat put_pat
    touch_pat id at = get_pat id >>= touch_found at

  module _ (codec : Codec TriggerRecord) where
    abbrev pub put_trigger_id : TriggerRecord → Bytes → Call S (Unit {0})
    put_trigger_id t [] = fail (codes "etcd put trigger: empty ID")
    put_trigger_id t (b ∷ id) =
        put_json codec (codes "marshal trigger " ++ (b ∷ id) ++ codes ": ")
          (codes "etcd put trigger " ++ (b ∷ id) ++ codes ": ") (trigger_key (b ∷ id)) t

    unfoldable pub put_trigger : TriggerRecord → Call S (Unit {0})
    unfolding trigger_key
    put_trigger t = put_trigger_id t t.id

    unfoldable pub get_trigger : Bytes → Call S (Option TriggerRecord)
    unfolding trigger_key
    get_trigger [] = return none
    get_trigger (b ∷ id) =
        get_json codec (codes "etcd get trigger " ++ (b ∷ id) ++ codes ": ")
          (codes "decode trigger " ++ (b ∷ id) ++ codes ": ") (trigger_key (b ∷ id))

    unfoldable pub list_triggers : Call S (List TriggerRecord)
    unfolding list_json
    list_triggers = list_json codec (codes "etcd list triggers: ") (codes "trigger") triggers_prefix

    unfoldable pub delete_trigger : Bytes → Call S Bool
    unfolding trigger_key
    delete_trigger [] = return false
    delete_trigger (b ∷ id) =
        delete_named (codes "etcd delete trigger " ++ (b ∷ id) ++ codes ": ") (trigger_key (b ∷ id))

  module _ (codec : Codec WirePeer) where
    abbrev pub put_peer_at : WirePeer → Bytes → Call S (Unit {0})
    put_peer_at p [] = fail (codes "etcd put wire peer: empty address")
    put_peer_at p (b ∷ address) =
        put_json codec (codes "marshal wire peer " ++ (b ∷ address) ++ codes ": ")
          (codes "etcd put wire peer " ++ (b ∷ address) ++ codes ": ") (wire_peer_key (b ∷ address))
          p

    unfoldable pub put_wire_peer : WirePeer → Call S (Unit {0})
    unfolding wire_peer_key
    put_wire_peer p = put_peer_at p p.address

    unfoldable pub list_wire_peers : Call S (List WirePeer)
    unfolding list_json
    list_wire_peers =
        list_json codec (codes "etcd list wire peers: ") (codes "wire peer") wire_peers_prefix

    unfoldable pub delete_wire_peer : Bytes → Call S Bool
    unfolding wire_peer_key
    delete_wire_peer [] = return false
    delete_wire_peer (b ∷ address) =
        delete_named (codes "etcd delete wire peer " ++ (b ∷ address) ++ codes ": ")
          (wire_peer_key (b ∷ address))

  -- The frozen replicas; the payload wraps their list.
  module _ (codec : Codec (List Bytes)) where
    abbrev pub or_empty : Option (List Bytes) → List Bytes
    or_empty none = []
    or_empty (some ids) = ids

    unfoldable pub get_frozen : Kind → Bytes → Bytes → Call S (List Bytes)
    unfolding frozen_key
    get_frozen kind scope name =
        get_json codec (codes "etcd get frozen: ") (codes "decode frozen payload: ")
          (frozen_key kind scope name)
        >>= λ ids. return (or_empty ids)

    unfoldable pub delete_frozen : Kind → Bytes → Bytes → Call S (Unit {0})
    unfolding frozen_key
    delete_frozen kind scope name =
        wrapping (codes "etcd delete frozen: ") (client.delete (frozen_key kind scope name))
        >>= λ deleted. return tt

    unfoldable pub set_frozen : Kind → Bytes → Bytes → List Bytes → Call S (Unit {0})
    unfolding frozen_key delete_frozen
    set_frozen kind scope name [] = delete_frozen kind scope name
    set_frozen kind scope name (id ∷ ids) =
        put_json codec (codes "encode frozen payload: ") (codes "etcd put frozen: ")
          (frozen_key kind scope name) (id ∷ ids)
