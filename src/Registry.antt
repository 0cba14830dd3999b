-- ===== src/Registry.antt =====
-- internal/registry: the records in etcd. The functions here work on what the etcd client returns for a
-- request, and Client, Lock and Heartbeat make the requests; the JSON coder of encoding/json is a
-- parameter.
pub mod Path
pub mod Index
pub mod Wire
pub mod Client
pub mod Lock
pub mod Heartbeat
use docker_coredns_sync.Prelude.{
  Bool, List, Option, Result, Text, [], codes, err, false, if◌then◌else◌, nat_eq, none, not, ok,
  some, text_beq, text_eq, ℕ, ◌&&◌, ◌++◌, ◌/◌, ◌==◌, ◌>>=◌, ◌||◌, ◌∷◌,
}
use docker_coredns_sync.GoMap.{Map, insert, keys}
use docker_coredns_sync.GoText.{has_prefix, trim_prefix}
use docker_coredns_sync.Config.{heartbeat_key_prefix, is_blank}
use docker_coredns_sync.Domain.Kind.{RecordKind, kind_beq, kind_eq}
use docker_coredns_sync.Domain.Record.{Record, RecordError, new_from_kind}
use docker_coredns_sync.Domain.Intent.{RecordIntent, Time}
use docker_coredns_sync.State.{TextSet}
use docker_coredns_sync.Registry.Path.{fqdn_from_key, key_base_for_fqdn}

-- etcdRecord
pub record EtcdRecord : Type 0 where
  pub host : Text
  pub ttl : ℕ
  pub kind : RecordKind
  pub owner_hostname : Text
  pub owner_container_id : Text
  pub owner_container_name : Text
  pub created : Time
  pub force : Bool

unfoldable pub to_wire : RecordIntent → EtcdRecord
to_wire ri = record {
  host = ri.rec.value;
  ttl = ri.ttl;
  kind = ri.rec.kind;
  owner_hostname = ri.hostname;
  owner_container_id = ri.container_id;
  owner_container_name = ri.container_name;
  created = ri.created;
  force = ri.force;
}

unfoldable pub intent_of : EtcdRecord → Record → RecordIntent
intent_of wire rec = record {
  container_id = wire.owner_container_id;
  container_name = wire.owner_container_name;
  created = wire.created;
  hostname = wire.owner_hostname;
  force = wire.force;
  ttl = wire.ttl;
  rec = rec;
}

unfoldable pub intent_of_result : EtcdRecord → Result RecordError Record → Option RecordIntent
unfolding intent_of
intent_of_result wire (err e) = none
intent_of_result wire (ok rec) = some (intent_of wire rec)

-- json.Marshal and json.Unmarshal on an etcdRecord
pub record Json : Type 0 where
  pub encode : EtcdRecord → Option Text
  pub decode : Text → Option EtcdRecord

-- marshalEtcdValue
unfoldable pub marshal_etcd_value : Json → RecordIntent → Option Text
unfolding to_wire
marshal_etcd_value json ri = json.encode (to_wire ri)

-- unmarshalEtcdValue: none is an error
unfoldable pub unmarshal_etcd_value : Json → Text → Text → Text → Option RecordIntent
unfolding intent_of_result
unmarshal_etcd_value json key raw prefix = do
  wire ← json.decode raw
  intent_of_result wire (new_from_kind wire.kind (fqdn_from_key prefix key) wire.host)

-- The key-value pairs of a response of the etcd client
abbrev pub Kvs : Type 0
Kvs = List (Text × Text)

unfoldable pub cons_intent : Option RecordIntent → List RecordIntent → List RecordIntent
cons_intent none intents = intents
cons_intent (some ri) intents = ri ∷ intents

-- List, on the response to the request for the keys with the prefix
unfoldable pub list_intents : Json → Text → Kvs → List RecordIntent
unfolding unmarshal_etcd_value cons_intent
list_intents json prefix [] = []
list_intents json prefix ((key, raw) ∷ kvs) =
    cons_intent (unmarshal_etcd_value json key raw prefix) (list_intents json prefix kvs)

-- recordMatches
unfoldable pub record_matches : EtcdRecord → RecordIntent → Bool
unfolding text_beq kind_beq
record_matches w ri =
    w.host == ri.rec.value
    && w.kind == ri.rec.kind
    && w.owner_hostname == ri.hostname
    && w.owner_container_name == ri.container_name
    && (is_blank ri.container_id || w.owner_container_id == ri.container_id)

unfoldable pub matches_value : Option EtcdRecord → RecordIntent → Bool
unfolding record_matches
matches_value none ri = false
matches_value (some w) ri = record_matches w ri

-- The loop of Remove that collects the keys to delete
unfoldable pub keys_to_delete : Json → Text → Kvs → RecordIntent → List Text
unfolding matches_value has_prefix
keys_to_delete json base [] ri = []
keys_to_delete json base ((key, raw) ∷ kvs) ri =
    let rest = keys_to_delete json base kvs ri in
    if has_prefix key (base ++ codes "/") && matches_value (json.decode raw) ri
    then key ∷ rest
    else rest

-- heartbeatKey
unfoldable pub heartbeat_key : Text → Text
heartbeat_key hostname = heartbeat_key_prefix ++ (b'/' ∷ hostname)

-- The loop of GetLiveHostnames, on the keys under the heartbeat prefix
unfoldable pub live_loop : List Text → TextSet → TextSet
unfolding trim_prefix insert
live_loop [] live = live
live_loop (key ∷ keys) live =
    let hostname = trim_prefix key (heartbeat_key_prefix ++ codes "/") in
    live_loop keys (if is_blank hostname then live else insert live hostname tt)

-- GetLiveHostnames: none is nil, when this host has no heartbeat of its own
unfoldable pub get_live_hostnames : Bool → Text → List Text → Option TextSet
unfolding live_loop insert
get_live_hostnames active hostname keys =
    if not active then none else some (insert (live_loop keys []) hostname tt)
