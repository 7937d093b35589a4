-- ===== src/Server/DeliveryLog/Storage.antt =====
-- What the delivery log relies on: a redb table from sequence numbers to bytes, and serde_json's
-- encoding of a stored event. Both are parameters; a table that keeps its rows in a list fits.
use whdr.Common.{ℕ, ◌<◌, ◌≡◌, List, [], ◌∷◌, ◌++◌, Option, some, Text, All, keep, leb, nat_eq}
use whdr.Proto.Messages.{Uuid}

pub record StoredEvent : Type 0 where
  pub id : Uuid
  pub ts_ms : ℕ
  pub channel : Text
  pub payload_b64 : Text

-- A key and the value's bytes.
abbrev pub Row : Type 0
Row = ℕ × Text

abbrev pub KeysBelow : ℕ → List Row → Type 0
KeysBelow k rows = All (λ r. r.0 < k) rows

-- `iter` and `range` go by ascending key. The laws say what redb documents of an insertion behind
-- the last key and of the removal of the first one.
pub record Store : Type 1 where
  pub Table : Type 0
  pub iter : Table → List Row
  pub range : Table → ℕ → List Row
  pub insert : Table → ℕ → Text → Table
  pub remove : Table → ℕ → Table
  pub to_vec : StoredEvent → Option Text
  pub from_slice : Text → Option StoredEvent
  pub iter-range : (t : Table) (start : ℕ) → range t start ≡ keep (λ r. leb start r.0) (iter t)
  pub iter-insert :
      (t : Table) (k : ℕ) (v : Text)
      → KeysBelow k (iter t)
      → iter (insert t k v) ≡ iter t ++ (k, v) ∷ []
  pub iter-remove :
      (t : Table) (k : ℕ) (v : Text) (rest : List Row)
      → iter t ≡ (k, v) ∷ rest
      → iter (remove t k) ≡ rest
  pub from_slice-to_vec : (e : StoredEvent) (v : Text) → to_vec e ≡ some v → from_slice v ≡ some e
