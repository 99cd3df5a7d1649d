-- ===== src/History/Snapshot.antt =====
-- The builder of queries, the snapshot and the end of the history store.
use chronus_gateway.Prelude.{
  ℕ, ◌%◌, ◌^◌, ◌<◌, ◌≡◌, ap, ◌∙◌, Bool, false, Option, none, List, ltb, if◌then◌else◌, length, min,
  length-newest,
}
use chronus_gateway.Integers.{ℤ}
use chronus_gateway.Words.{fetch_add}
use chronus_gateway.History.{Json, HistoryQuery, HistoryStore, Sending, in_memory}
use chronus_gateway.History.Ring.{accepted, record_all, record_all-in_memory}

abbrev pub new_query : HistoryQuery
new_query = record { start_ms = none; end_ms = none; apid = none; point = none; limit = 0 }

abbrev pub between : Option ℤ → Option ℤ → HistoryQuery → HistoryQuery
between start_ms end_ms q = record q { start_ms = start_ms; end_ms = end_ms }

abbrev pub with_apid : Option ℕ → HistoryQuery → HistoryQuery
with_apid apid q = record q { apid = apid }

abbrev pub with_point : Option ℕ → HistoryQuery → HistoryQuery
with_point point q = record q { point = point }

abbrev pub with_limit : ℕ → HistoryQuery → HistoryQuery
with_limit limit q = record q { limit = limit }

pub record HistorySnapshot : Type 0 where
  pub enabled : Bool
  pub persistent : Bool
  pub capacity : ℕ
  pub len : ℕ
  pub recorded : ℕ
  pub evicted : ℕ
  pub loaded : ℕ
  pub load_skipped : ℕ
  pub persisted : ℕ
  pub persist_dropped : ℕ
  pub persist_errors : ℕ

module _ {J F : Type 0} where
  abbrev pub is_enabled : HistoryStore J F → Bool
  is_enabled h = ltb 0 h.capacity

  abbrev pub len : HistoryStore J F → ℕ
  len h = length h.ring

  -- `persistent` says whether a history file is configured.
  unfoldable pub snapshot : Bool → HistoryStore J F → HistorySnapshot
  snapshot persistent h = record {
    enabled = is_enabled h;
    persistent = persistent;
    capacity = h.capacity;
    len = len h;
    recorded = h.stats.recorded;
    evicted = h.stats.evicted;
    loaded = h.stats.loaded;
    load_skipped = h.stats.load_skipped;
    persisted = h.stats.persisted;
    persist_dropped = h.stats.persist_dropped;
    persist_errors = h.stats.persist_errors;
  }

  -- `join_failed` says whether there was a thread to join and it had panicked.
  abbrev pub close : (join_failed : Bool) → HistoryStore J F → HistoryStore J F
  close join_failed h =
      let st = h.stats in
      record h {
        writer = false;
        stats =
            if join_failed
            then record st { persist_errors = fetch_add st.persist_errors 1 }
            else st;
      }

module _ {J V K S F : Type 0} (js : Json J V K S F) where
  -- The snapshot of a new store with room, after any messages, reports the number of the realtime
  -- messages modulo 2^64, and as its fill level that number up to the capacity.
  pub snapshot-record_all :
      (try_send : J → Sending) (persistent : Bool) (capacity : ℕ) (ms : List J)
      → 0 < capacity
      → let s = snapshot persistent (record_all js try_send ms (in_memory capacity)) in
        (s.recorded ≡ length (accepted js ms) % 2 ^ 64)
        × (s.len ≡ min capacity (length (accepted js ms)))
        × (s.capacity ≡ capacity)
  unfolding snapshot
  snapshot-record_all try_send persistent capacity ms pos =
      let r = record_all-in_memory js try_send capacity ms pos in
      (r.recorded_is, ap length r.ring_is ∙ length-newest capacity (accepted js ms), r.room)
