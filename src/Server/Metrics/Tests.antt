-- ===== src/Server/Metrics/Tests.antt =====
-- The status document of the program's own test, rendered, and the theorems applied to it.
use whdr.Common.{
  ℕ, ◌+◌, ◌/◌, ◌%◌, ◌≡◌, refl, List, [], ◌∷◌, ◌++◌, none, some, true, Text, codes, ltb,
  if◌then◌else◌, fetch_add,
}
use whdr.Server.Metrics.{
  number, null, ExtensionRow, SubscriberRow, Status, DeliveryRow, sum_by_name, gauge, labels_text,
  gauges, replace, escape_label, add_row, render_extensions, render_sums, render_prometheus,
}
use whdr.Server.Metrics.Labels.{read_label, gauge-label}

-- The digits of a number below 100.
abbrev digits : ℕ → Text
digits n = if ltb n 10 then (48 + n) ∷ [] else (48 + n / 10) ∷ (48 + n % 10) ∷ []

abbrev line : Text → Text
line text = text ++ b'\n' ∷ []

abbrev failed_extension : ExtensionRow
failed_extension = record {
  id = some (codes "teams");
  state = some (codes "Failed");
  restarts = null;
  in_flight = null;
  protocol_errors = null;
  namespace_violations = null;
  consecutive_timeouts = null;
  events_emitted = null;
  last_event_at_ms = null;
}

abbrev ready_extension : ExtensionRow
ready_extension = record failed_extension {
  id = some (codes "github");
  state = some (codes "Ready");
  restarts = number 2;
  events_emitted = number 42;
}

abbrev subscriber : Text → ℕ → ℕ → SubscriberRow
subscriber name delivered dropped = record {
  name = some name;
  delivered = some delivered;
  dropped = some dropped;
}

abbrev subscribers : List SubscriberRow
subscribers =
    subscriber (codes "a") 10 1
    ∷ subscriber (codes "b") 3 0
    ∷ (record { name = none; delivered = some 7; dropped = none })
    ∷ subscriber (codes "a") 5 0
    ∷ []

abbrev delivery : DeliveryRow
delivery = record {
  enabled = some true;
  head_seq = number 9;
  floor_seq = null;
  retained_events = null;
  retained_bytes = null;
  persist_errors = number 0;
}

abbrev status : Status
status = record {
  uptime_ms = number 12;
  extensions = some (ready_extension ∷ failed_extension ∷ []);
  subscribers = some subscribers;
  routes = number 3;
  unavailable_routes = null;
  channel_prefixes = null;
  subscriber_count = number 4;
  delivery = some delivery;
}

renders :
    render_prometheus digits status
    ≡ line (codes "whdr_uptime_ms 12")
      ++ line (codes "whdr_ext_up{ext=\"github\"} 1")
      ++ line (codes "whdr_ext_restarts{ext=\"github\"} 2")
      ++ line (codes "whdr_ext_events_emitted{ext=\"github\"} 42")
      ++ line (codes "whdr_ext_up{ext=\"teams\"} 0")
      ++ line (codes "whdr_subscriber_delivered{name=\"a\"} 15")
      ++ line (codes "whdr_subscriber_dropped{name=\"a\"} 1")
      ++ line (codes "whdr_subscriber_connections{name=\"a\"} 2")
      ++ line (codes "whdr_subscriber_delivered{name=\"b\"} 3")
      ++ line (codes "whdr_subscriber_dropped{name=\"b\"} 0")
      ++ line (codes "whdr_subscriber_connections{name=\"b\"} 1")
      ++ line (codes "whdr_routes 3")
      ++ line (codes "whdr_subscriber_count 4")
      ++ line (codes "whdr_delivery_enabled 1")
      ++ line (codes "whdr_delivery_head_seq 9")
      ++ line (codes "whdr_delivery_persist_errors 0")
unfolding render_prometheus render_extensions render_sums sum_by_name add_row gauges gauge
    labels_text escape_label replace fetch_add
renders = refl

escapes : escape_label (codes "we\"ird\\name") ≡ codes "we\\\"ird\\\\name"
unfolding escape_label replace fetch_add
escapes = refl

gauge-label_example :
    (quoted : Text) × (gauge digits []
        (codes "m")
        ((codes "name", codes "we\"ird\\name") ∷ [])
        (number 7)
      ≡ [] ++ (codes "m" ++ (b'{' ∷ (codes "name" ++ (b'=' ∷ b'"' ∷ quoted)))))
    × (read_label quoted ≡ some (codes "we\"ird\\name", b'}' ∷ b' ' ∷ (digits 7 ++ (b'\n' ∷ []))))
gauge-label_example = gauge-label digits [] (codes "m") (codes "name") (codes "we\"ird\\name") 7
