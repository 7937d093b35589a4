-- ===== src/Server/DeliveryLog/Examples.antt =====
-- Concrete delivery logs over the list store.
use whdr.Common.{
  some, split, ℕ, ◌+◌, ◌≡◌, refl, [], ◌∷◌, codes, arith, true, false, ok, err, fetch_add,
}
use whdr.Proto.Messages.{Uuid, Event}
use whdr.Server.DeliveryLog.ListStore.{
  list_from_slice, take_text, list_store, insert_row, list_to_vec,
}
use whdr.Server.DeliveryLog.{
  StampedEvent, read_rows, Retention, Shared, append, append_blocking, stamp_rows, push_row,
  insert_rows, storage,
}
use whdr.Proto.Channel.{
  pattern_matches, channel_matches, validate_channel, validate_channel_tokens, validate_pattern,
  validate_pattern_tokens, match_tokens, valid_plain_token, plain_byte,
}
use whdr.Server.DeliveryLog.Consistent.{IsConsistent}
use whdr.Server.DeliveryLog.Stamping.{stamps}

abbrev pub hour : Retention
hour = record { retention_secs = 3600; max_bytes = 1000; max_events = 2 }

abbrev pub fresh : Shared list_store
fresh = record {
  db = [];
  head = 0;
  floor = 0;
  retained_count = 0;
  retained_bytes = 0;
  retention = hour;
}

abbrev pub ids : ℕ → Uuid
ids n = n + 100

abbrev pub one_event : Event
one_event = record { channel = codes "a"; payload_b64 = codes "MQ==" }

abbrev pub after_one : Shared list_store
after_one = record {
  db = (1, (100 ∷ 1500 ∷ 1 ∷ b'a' ∷ codes "MQ==")) ∷ [];
  head = 1;
  floor = 1;
  retained_count = 1;
  retained_bytes = 8;
  retention = hour;
}

pub fresh-IsConsistent : IsConsistent list_store fresh
fresh-IsConsistent = record {
  consecutive = tt;
  spans = refl;
  decodes = tt;
  count = refl;
  bytes = refl;
  head_in_range = omega arith;
  bytes_in_range = omega arith;
}

pub appended_one :
    append list_store false fresh (one_event ∷ []) 1500 ids
    ≡ ok (after_one, stamps 1 1500 ids 0 (one_event ∷ []))
unfolding append append_blocking stamp_rows push_row insert_rows insert_row list_to_vec fetch_add
appended_one = refl

pub failed_append : append list_store true fresh (one_event ∷ []) 1500 ids ≡ err storage
unfolding append append_blocking stamp_rows push_row list_to_vec
failed_append = refl

pub after_one-IsConsistent : IsConsistent list_store after_one
unfolding list_from_slice take_text
after_one-IsConsistent = record {
  consecutive = (refl, tt);
  spans = (omega arith, refl);
  decodes = ((_, refl), tt);
  count = refl;
  bytes = refl;
  head_in_range = omega arith;
  bytes_in_range = omega arith;
}

abbrev pub stamped_one : StampedEvent
stamped_one = record {
  seq = 1;
  id = 100;
  ts_ms = 1500;
  channel = codes "a";
  payload_b64 = codes "MQ==";
}

pub read_one : read_rows list_store (some (codes "a" ∷ [])) after_one.db ≡ ok (stamped_one ∷ [])
unfolding read_rows list_from_slice take_text pattern_matches channel_matches validate_channel
    validate_channel_tokens validate_pattern validate_pattern_tokens match_tokens valid_plain_token
    plain_byte split
read_one = refl
