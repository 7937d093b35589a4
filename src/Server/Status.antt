-- ===== src/Server/Status.antt =====
-- status_json of crates/whdr-server/src/daemon.rs: the document of the admin plane, with the fields
-- that crates/whdr-server/src/metrics.rs reads. The counters that a handle shares with its tasks are
-- those of its link, and come with its restarts as an argument.
pub mod Connections
mod Tests
use whdr.Common.{ℕ, List, [], ◌∷◌, ◌++◌, map, Option, none, some, true, false, Text, codes, length}
use whdr.Server.DeliveryLog.Storage.{Store}
use whdr.Server.DeliveryLog.{Shared}
use whdr.Server.Subscribers.{SubscriberSnapshot, SubscriberRegistry, snapshots}
use whdr.Server.Daemon.{ExtHandle, Reason, Inner}
use whdr.Server.ExtensionLink.{ExtensionLink, last_event_at}
use whdr.Server.Metrics.{Value, number, null, ExtensionRow, SubscriberRow, DeliveryRow, Status}

abbrev pub optional : Option ℕ → Value
optional none = null
optional (some n) = number n

abbrev pub ready_row : (ExtHandle → ExtensionLink × ℕ) → ExtHandle → ExtensionRow
ready_row counters handle =
    let (link, restarts) = counters handle in
    record {
      id = some handle.id;
      state = some (codes "Ready");
      restarts = number restarts;
      in_flight = number handle.dispatches.in_flight;
      protocol_errors = number link.malformed_lines;
      namespace_violations = number link.namespace_violations;
      consecutive_timeouts = number link.consecutive_timeouts;
      events_emitted = number link.event_stats.emitted;
      last_event_at_ms = optional (last_event_at link.event_stats);
    }

abbrev pub failed_row : Text × Reason → ExtensionRow
failed_row (id, reason) = record {
  id = some id;
  state = some (codes "Failed");
  restarts = null;
  in_flight = null;
  protocol_errors = null;
  namespace_violations = null;
  consecutive_timeouts = null;
  events_emitted = null;
  last_event_at_ms = null;
}

abbrev pub subscriber_row : SubscriberSnapshot → SubscriberRow
subscriber_row subscriber = record {
  name = some subscriber.name;
  delivered = some subscriber.delivered;
  dropped = some subscriber.dropped;
}

module _ (store : Store) where
  abbrev pub delivery_row : (persist_errors : ℕ) → Option (Shared store) → DeliveryRow
  delivery_row persist_errors none = record {
    enabled = some false;
    head_seq = null;
    floor_seq = null;
    retained_events = null;
    retained_bytes = null;
    persist_errors = null;
  }
  delivery_row persist_errors (some log) = record {
    enabled = some true;
    head_seq = number log.head;
    floor_seq = number log.floor;
    retained_events = number log.retained_count;
    retained_bytes = number log.retained_bytes;
    persist_errors = number persist_errors;
  }

  unfoldable pub subscriber_rows : SubscriberRegistry store → List SubscriberRow
  subscriber_rows r = map subscriber_row (snapshots store r)

  unfoldable pub status_json :
      (uptime_ms : ℕ) (counters : ExtHandle → ExtensionLink × ℕ) (s : Inner)
      → SubscriberRegistry store
      → Status
  status_json uptime_ms counters s r = record {
    uptime_ms = number uptime_ms;
    extensions = some (
        map (λ entry. ready_row counters entry.1) s.extensions
        ++ map failed_row s.failed_extensions);
    subscribers = some (subscriber_rows r);
    routes = number (length s.claims.routes);
    unavailable_routes = number (length s.unavailable_routes);
    channel_prefixes = number (length s.claims.channel_prefixes);
    subscriber_count = number (length (subscriber_rows r));
    delivery = some (delivery_row r.persist_errors r.delivery);
  }
