-- ===== src/Server/Status/Connections.antt =====
-- The connections that crates/whdr-server/src/metrics.rs counts in the status document against those
-- that crates/whdr-server/src/subscribers.rs counts for the list of tokens.
use whdr.Common.{
  ℕ, ◌+◌, arith, ◌≡◌, refl, sym, ap, ◌∙◌, List, [], ◌∷◌, map, Option, none, some, Text, ◌==◌,
  nat_eq, text_eq, text_beq_iff, if◌then◌else◌, get, get-insert, Bool-cases, Option-cases, inl, inr,
}
use whdr.Server.DeliveryLog.Storage.{Store}
use whdr.Server.Subscribers.{
  Subscribers, SubscriberRegistry, count_names, active_connection_counts, snapshots,
}
use whdr.Server.Metrics.{SubscriberRow, sum_by_name}
use whdr.Server.Metrics.Series.{Fits, total, totals, one_of, rows_of, series, rows_of-sum_by_name}
use whdr.Server.Status.{subscriber_rows}

-- A count that is positive, where there is one.
abbrev positive : ℕ → Option ℕ
positive n = if n == 0 then none else some n

abbrev pub count_list : Option ℕ → List ℕ
count_list none = []
count_list (some n) = n ∷ []

abbrev rows : (store : Store) → Subscribers → List SubscriberRow
rows store subscribers = subscriber_rows store (record {
  subscribers = subscribers;
  next_id = 0;
  seq = 0;
  delivery = none;
  persist_errors = 0;
})

counted_first : (n : ℕ) → positive n ≡ none → some 1 ≡ positive (1 + n)
counted_first n h = ground arith

counted_again : (n k : ℕ) → positive n ≡ some k → some (k + 1) ≡ positive (1 + n)
counted_again n k h = ground arith

get-count_names :
    (store : Store) (name : Text) (subscribers : Subscribers)
    → get (count_names subscribers) name ≡ positive (total one_of name (rows store subscribers))
unfolding count_names total subscriber_rows snapshots
get-count_names store name [] = refl
get-count_names store name ((id, s) ∷ subscribers) =
    let counts = count_names subscribers in
    let n = total one_of name (rows store subscribers) in
    let known = get-count_names store name subscribers in
    elim (Bool-cases (s.name == name)) [
      | inl q ↦
          let same = ap (get counts) (sym ((text_beq_iff s.name name).0 q)) in
          elim (Option-cases (get counts s.name)) [
            | inl e ↦
                rw (count_names, e, get-insert counts s.name name 1, q)
                  (counted_first n (sym known ∙ same ∙ e))
            | inr (k, e) ↦
                rw (count_names, e, get-insert counts s.name name (k + 1), q)
                  (counted_again n k (sym known ∙ same ∙ e))
          ]
      | inr q ↦ elim (Option-cases (get counts s.name)) [
        | inl e ↦ rw (count_names, e, get-insert counts s.name name 1, q) known
        | inr (k, e) ↦ rw (count_names, e, get-insert counts s.name name (k + 1), q) known
      ]
    ]

connections_of_series :
    (name : Text) (subs : List SubscriberRow)
    → map (λ row. row.connections) (series name subs)
      ≡ count_list (positive (total one_of name subs))
unfolding series
connections_of_series name subs = elim (Bool-cases (total one_of name subs == 0)) [
  | inl e ↦ rw (series, e) refl
  | inr e ↦ rw (series, e) refl
]

-- In the metrics of a status document, the rows of a name carry the number of its connections that
-- the registry counts for the list of tokens: one row where it counts some, none where it counts
-- none. The sums of the name fit their words.
pub connections-active_connection_counts :
    (store : Store) (r : SubscriberRegistry store) (name : Text)
    → Fits (totals name (subscriber_rows store r))
    → map (λ row. row.connections) (rows_of name (sum_by_name [] (subscriber_rows store r)))
      ≡ count_list (get (active_connection_counts store r) name)
unfolding active_connection_counts subscriber_rows snapshots
connections-active_connection_counts store r name fits =
    ap (map (λ row. row.connections)) (rows_of-sum_by_name name (subscriber_rows store r) fits)
    ∙ connections_of_series name (subscriber_rows store r)
    ∙ ap count_list (sym (get-count_names store name r.subscribers))
