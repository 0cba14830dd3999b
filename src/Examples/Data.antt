-- ===== src/Examples/Data.antt =====
-- The records, containers and events of the runs.
use docker_coredns_sync.Prelude.{Text, [], codes, false, nat_eq, text_eq, ◌∷◌}
use docker_coredns_sync.Domain.Kind.{kind_eq, record_a, record_cname}
use docker_coredns_sync.Domain.Record.{Record}
use docker_coredns_sync.Domain.Intent.{RecordIntent, Time}
use docker_coredns_sync.Domain.Event.{ContainerEvent, start}
use docker_coredns_sync.Config.{AppConfig}
use docker_coredns_sync.GoText.Decimal.{pos, int_eq}

abbrev pub app_name : Text
app_name = codes "app.lan"

abbrev pub app_a : Record
app_a = record { name = app_name; kind = record_a; value = codes "10.0.0.1" }

abbrev pub app_cname : Record
app_cname = record { name = app_name; kind = record_cname; value = codes "web.lan" }

abbrev pub owned : Text → Time → Record → RecordIntent
owned host created rec = record {
  container_id = codes "c1";
  container_name = codes "web";
  created = created;
  hostname = host;
  force = false;
  ttl = 0;
  rec = rec;
}

abbrev pub here : Text
here = codes "h1"

abbrev pub there : Text
there = codes "h2"

-- An address of this host, and a younger CNAME of another host under the same name.
abbrev pub address : RecordIntent
address = owned here 5 app_a

abbrev pub alias : RecordIntent
alias = owned there 9 app_cname

abbrev pub config : AppConfig
config = record {
  docker_label_prefix = codes "coredns";
  host_ipv4 = codes "10.0.0.1";
  host_ipv6 = [];
  hostname = here;
  poll_interval = pos 5;
  dry_run = false;
  record_ttl = 0;
  heartbeat_ttl = pos 30;
}

abbrev pub labelled : ContainerEvent
labelled = record {
  container = record {
    id = codes "c1";
    name = codes "web";
    created = 5;
    labels =
        (codes "coredns.enabled", codes "True")
        ∷ (codes "coredns.A.name", codes "app.lan")
        ∷ (codes "coredns.A.value", codes "10.0.0.1")
        ∷ [];
  };
  event_type = start;
  running_container_ids = [];
}
