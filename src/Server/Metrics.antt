-- ===== src/Server/Metrics.antt =====
-- crates/whdr-server/src/metrics.rs: the Prometheus text of the status document. The document is a
-- record of the fields that the renderer reads, each nothing where it has not the type the renderer
-- asks for; the decimal digits of a number are an argument.
pub mod Labels
pub mod Series
mod Tests
use whdr.Common.{
  ℕ, ◌+◌, List, [], ◌∷◌, ◌++◌, Option, none, some, Bool, true, false, Text, codes, ◌==◌, nat_eq,
  text_eq, if◌then◌else◌, fetch_add,
}

-- A value of the document; `other` is a Boolean, an array or an object.
pub data Value : Type 0 where
  number : ℕ → Value
  string : Text → Value
  null other : Value

-- `replace` of one byte by two
unfoldable pub replace : (byte : ℕ) → (by : Text) → Text → Text
replace byte by [] = []
replace byte by (c ∷ s) = let rest = replace byte by s in if c == byte then by ++ rest else c ∷ rest

unfoldable pub escape_label : Text → Text
escape_label value =
    replace b'\n' (b'\\' ∷ b'n' ∷ [])
      (replace b'"' (b'\\' ∷ b'"' ∷ []) (replace b'\\' (b'\\' ∷ b'\\' ∷ []) value))

-- The fields of an element of `extensions`.
pub record ExtensionRow : Type 0 where
  pub id : Option Text
  pub state : Option Text
  pub restarts : Value
  pub in_flight : Value
  pub protocol_errors : Value
  pub namespace_violations : Value
  pub consecutive_timeouts : Value
  pub events_emitted : Value
  pub last_event_at_ms : Value

-- The fields of an element of `subscribers`.
pub record SubscriberRow : Type 0 where
  pub name : Option Text
  pub delivered : Option ℕ
  pub dropped : Option ℕ

pub record DeliveryRow : Type 0 where
  pub enabled : Option Bool
  pub head_seq : Value
  pub floor_seq : Value
  pub retained_events : Value
  pub retained_bytes : Value
  pub persist_errors : Value

-- The fields of `global` stand beside the others.
pub record Status : Type 0 where
  pub uptime_ms : Value
  pub extensions : Option (List ExtensionRow)
  pub subscribers : Option (List SubscriberRow)
  pub routes : Value
  pub unavailable_routes : Value
  pub channel_prefixes : Value
  pub subscriber_count : Value
  pub delivery : Option DeliveryRow

-- `unwrap_or(0)`
abbrev pub or_zero : Option ℕ → ℕ
or_zero none = 0
or_zero (some n) = n

-- A row of `by_name`.
pub record Sums : Type 0 where
  pub name : Text
  pub delivered : ℕ
  pub dropped : ℕ
  pub connections : ℕ

abbrev pub add_to : Sums → (delivered dropped : ℕ) → Sums
add_to row delivered dropped = record row {
  delivered = fetch_add row.delivered delivered;
  dropped = fetch_add row.dropped dropped;
  connections = fetch_add row.connections 1;
}

-- The first row of the name is added to, or a new one is pushed.
unfoldable pub add_row : (name : Text) → (delivered dropped : ℕ) → List Sums → List Sums
add_row name delivered dropped [] =
    record { name = name; delivered = delivered; dropped = dropped; connections = 1 } ∷ []
add_row name delivered dropped (row ∷ rows) =
    let rest = add_row name delivered dropped rows in
    if row.name == name then add_to row delivered dropped ∷ rows else row ∷ rest

abbrev pub add_subscriber : List Sums → SubscriberRow → List Sums
add_subscriber rows subscriber = elim subscriber.name [
  | none ↦ rows
  | some name ↦ add_row name (or_zero subscriber.delivered) (or_zero subscriber.dropped) rows
]

unfoldable pub sum_by_name : List Sums → List SubscriberRow → List Sums
sum_by_name rows [] = rows
sum_by_name rows (subscriber ∷ subscribers) =
    sum_by_name (add_subscriber rows subscriber) subscribers

module _ (digits : ℕ → Text) where
  abbrev pub rendered : Value → Option Text
  rendered (number n) = some (digits n)
  rendered null = none
  rendered (string text) = some text
  rendered other = none

  abbrev pub label_text : Text × Text → Text
  label_text (key, value) = key ++ b'=' ∷ b'"' ∷ escape_label value ++ b'"' ∷ []

  -- The labels, with a comma before all but the first.
  unfoldable pub labels_text : Bool → List (Text × Text) → Text
  labels_text later [] = []
  labels_text later (label ∷ labels) =
      (if later then b',' ∷ [] else []) ++ label_text label ++ labels_text true labels

  abbrev pub label_block : List (Text × Text) → Text
  label_block [] = []
  label_block (label ∷ labels) = b'{' ∷ labels_text false (label ∷ labels) ++ b'}' ∷ []

  unfoldable pub gauge : (out name : Text) → List (Text × Text) → Value → Text
  gauge out name labels value = elim (rendered value) [
    | none ↦ out
    | some text ↦ out ++ name ++ label_block labels ++ b' ' ∷ text ++ b'\n' ∷ []
  ]

  -- The loop over metrics with one list of labels.
  unfoldable pub gauges : (out : Text) → List (Text × Text) → List (Text × Value) → Text
  gauges out labels [] = out
  gauges out labels ((name, value) ∷ rest) = gauges (gauge out name labels value) labels rest

  abbrev up : Option Text → Value
  up none = number 0
  up (some state) = if state == codes "Ready" then number 1 else number 0

  abbrev extension_gauges : Text → ExtensionRow → Text
  extension_gauges out ext = elim ext.id [
    | none ↦ out
    | some id ↦ gauges out ((codes "ext", id) ∷ []) (
        (codes "whdr_ext_up", up ext.state)
        ∷ (codes "whdr_ext_restarts", ext.restarts)
        ∷ (codes "whdr_ext_in_flight", ext.in_flight)
        ∷ (codes "whdr_ext_protocol_errors", ext.protocol_errors)
        ∷ (codes "whdr_ext_namespace_violations", ext.namespace_violations)
        ∷ (codes "whdr_ext_consecutive_timeouts", ext.consecutive_timeouts)
        ∷ (codes "whdr_ext_events_emitted", ext.events_emitted)
        ∷ (codes "whdr_ext_last_event_at_ms", ext.last_event_at_ms)
        ∷ [])
  ]

  unfoldable pub render_extensions : Text → List ExtensionRow → Text
  render_extensions out [] = out
  render_extensions out (ext ∷ exts) = render_extensions (extension_gauges out ext) exts

  abbrev pub subscriber_gauges : Text → Sums → Text
  subscriber_gauges out row = gauges out ((codes "name", row.name) ∷ []) (
      (codes "whdr_subscriber_delivered", number row.delivered)
      ∷ (codes "whdr_subscriber_dropped", number row.dropped)
      ∷ (codes "whdr_subscriber_connections", number row.connections)
      ∷ [])

  unfoldable pub render_sums : Text → List Sums → Text
  render_sums out [] = out
  render_sums out (row ∷ rows) = render_sums (subscriber_gauges out row) rows

  abbrev delivery_enabled : Option Bool → Value
  delivery_enabled (some true) = number 1
  delivery_enabled (some false) = number 0
  delivery_enabled none = number 0

  abbrev delivery_gauges : Text → Option DeliveryRow → Text
  delivery_gauges out none = out
  delivery_gauges out (some delivery) = gauges out [] (
      (codes "whdr_delivery_enabled", delivery_enabled delivery.enabled)
      ∷ (codes "whdr_delivery_head_seq", delivery.head_seq)
      ∷ (codes "whdr_delivery_floor_seq", delivery.floor_seq)
      ∷ (codes "whdr_delivery_retained_events", delivery.retained_events)
      ∷ (codes "whdr_delivery_retained_bytes", delivery.retained_bytes)
      ∷ (codes "whdr_delivery_persist_errors", delivery.persist_errors)
      ∷ [])

  abbrev global_gauges : Text → Status → Text
  global_gauges out status = gauges out [] (
      (codes "whdr_routes", status.routes)
      ∷ (codes "whdr_unavailable_routes", status.unavailable_routes)
      ∷ (codes "whdr_channel_prefixes", status.channel_prefixes)
      ∷ (codes "whdr_subscriber_count", status.subscriber_count)
      ∷ [])

  -- The elements of an array that may be absent.
  abbrev elements : {A : Type 0} → Option (List A) → List A
  elements none = []
  elements (some xs) = xs

  unfoldable pub render_prometheus : Status → Text
  render_prometheus status =
      let out = gauge [] (codes "whdr_uptime_ms") [] status.uptime_ms in
      let out = render_extensions out (elements status.extensions) in
      let out = render_sums out (sum_by_name [] (elements status.subscribers)) in
      delivery_gauges (global_gauges out status) status.delivery
