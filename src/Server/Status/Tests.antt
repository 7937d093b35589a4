-- ===== src/Server/Status/Tests.antt =====
-- The metrics of a daemon with one extension, one that has failed and two connections, and the theorem
-- applied to its registry.
use whdr.Common.{
  ℕ, ◌+◌, ◌/◌, ◌%◌, ◌≡◌, refl, arith, [], ◌∷◌, ◌++◌, map, none, false, Text, codes, ltb,
  if◌then◌else◌, fetch_add, get, text_eq,
}
use whdr.Server.DeliveryLog.ListStore.{list_store}
use whdr.Server.Subscribers.{Subscriber, SubscriberRegistry, snapshots, active_connection_counts}
use whdr.Server.Daemon.{ExtHandle, Inner, exited, new_state}
use whdr.Server.Daemon.Starting.{new_handle}
use whdr.Server.DispatchWindow
use whdr.Server.ExtensionLink.{ExtensionLink, fresh_link, last_event_at}
use whdr.Server.Metrics.{
  sum_by_name, add_row, gauges, gauge, labels_text, escape_label, replace, render_extensions,
  render_sums, render_prometheus,
}
use whdr.Server.Metrics.Series.{rows_of, total}
use whdr.Server.Status.{subscriber_rows, status_json}
use whdr.Server.Status.Connections.{count_list, connections-active_connection_counts}

-- The digits of a number below 100.
abbrev digits : ℕ → Text
digits n = if ltb n 10 then (48 + n) ∷ [] else (48 + n / 10) ∷ (48 + n % 10) ∷ []

abbrev line : Text → Text
line text = text ++ b'\n' ∷ []

abbrev handle : ExtHandle
handle =
    new_handle (codes "github") 1
      (record { id = codes "gh"; paths = codes "gh" ∷ []; channels = codes "code" ∷ [] })

abbrev state : Inner
state =
    record (new_state (record { enabled = []; autostart_all = false })
      (record { crashloop_threshold = 5; crashloop_window_ms = 60000 })) {
        claims = record {
          routes = (codes "gh", codes "gh") ∷ [];
          channel_prefixes = (codes "code", codes "gh") ∷ [];
        };
        extensions = (codes "gh", handle) ∷ [];
        failed_extensions = (codes "teams", exited (codes "1")) ∷ [];
      }

abbrev counters : ExtHandle → ExtensionLink × ℕ
counters h = (
  record (fresh_link h.id h.paths h.channels) {
    event_stats = record { emitted = 4; last_event_at_ms = 50 };
  },
  2,
)

abbrev connection : ℕ → Subscriber
connection delivered = record {
  name = codes "p";
  remote_addr = none;
  patterns = [];
  queue = record {
    inner = [];
    max_events = 4;
    max_event_bytes = 100;
    delivered = delivered;
    dropped = 1;
    lag_pending = 0;
  };
  close = none;
}

abbrev registry : SubscriberRegistry list_store
registry = record {
  subscribers = (1, connection 7) ∷ (2, connection 5) ∷ [];
  next_id = 3;
  seq = 0;
  delivery = none;
  persist_errors = 0;
}

renders :
    render_prometheus digits (status_json list_store 99 counters state registry)
    ≡ line (codes "whdr_uptime_ms 99")
      ++ line (codes "whdr_ext_up{ext=\"gh\"} 1")
      ++ line (codes "whdr_ext_restarts{ext=\"gh\"} 2")
      ++ line (codes "whdr_ext_in_flight{ext=\"gh\"} 0")
      ++ line (codes "whdr_ext_protocol_errors{ext=\"gh\"} 0")
      ++ line (codes "whdr_ext_namespace_violations{ext=\"gh\"} 0")
      ++ line (codes "whdr_ext_consecutive_timeouts{ext=\"gh\"} 0")
      ++ line (codes "whdr_ext_events_emitted{ext=\"gh\"} 4")
      ++ line (codes "whdr_ext_last_event_at_ms{ext=\"gh\"} 50")
      ++ line (codes "whdr_ext_up{ext=\"teams\"} 0")
      ++ line (codes "whdr_subscriber_delivered{name=\"p\"} 12")
      ++ line (codes "whdr_subscriber_dropped{name=\"p\"} 2")
      ++ line (codes "whdr_subscriber_connections{name=\"p\"} 2")
      ++ line (codes "whdr_routes 1")
      ++ line (codes "whdr_unavailable_routes 0")
      ++ line (codes "whdr_channel_prefixes 1")
      ++ line (codes "whdr_subscriber_count 2")
      ++ line (codes "whdr_delivery_enabled 0")
unfolding status_json subscriber_rows snapshots last_event_at DispatchWindow.new new_state
    render_prometheus render_extensions render_sums sum_by_name add_row gauges gauge labels_text
    escape_label replace fetch_add
renders = refl

connections-active_connection_counts_example :
    map
      (λ row. row.connections)
      (rows_of (codes "p") (sum_by_name [] (subscriber_rows list_store registry)))
    ≡ count_list (get (active_connection_counts list_store registry) (codes "p"))
unfolding total subscriber_rows snapshots
connections-active_connection_counts_example =
    connections-active_connection_counts list_store registry (codes "p")
      (omega arith, omega arith, omega arith)
