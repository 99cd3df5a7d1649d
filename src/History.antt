-- ===== src/History.antt =====
-- crates/gateway/src/history.rs: the bounded ring of emitted messages. `serde_json`, `chrono` and
-- the float type are the fields of `Json`; the writer thread's channel is the argument `try_send`.
pub mod Ring
pub mod Query
pub mod File
pub mod Snapshot
pub mod Tests
use chronus_gateway.Prelude.{
  ℕ, suc, ◌+◌, ◌-◌, ◌^◌, ◌≤◌, ◌<◌, min, Bool, true, false, ◌&&◌, not, Option, none, some, List, [],
  ◌∷◌, ◌++◌, map, ltb, leb, ◌==◌, if◌then◌else◌, length, drop, get_elem?, reverse,
}
use chronus_gateway.Integers.{ℤ, le_int}
use chronus_gateway.Words.{fetch_add}

abbrev pub default_query_limit : ℕ
default_query_limit = 1000

abbrev pub max_query_limit : ℕ
max_query_limit = 10000

-- What a JSON value is, as far as a point reads it; `F` is `f64`.
pub data Kind (F : Type 0) : Type 0 where
  number : (as_f64 : Option F) → Kind F
  boolean : Bool → Kind F
  other : Kind F

-- The JSON text `J`, its values `V`, the keys `K`, the strings `S`, and what is read from them.
pub record Json (J V K S F : Type 0) : Type 0 where
  pub from_str : J → Option V
  pub get : V → K → Option V
  pub as_str : V → Option S
  pub as_u64 : V → Option ℕ
  pub kind : V → Kind F
  pub timestamp_millis : S → Option ℤ
  pub is_finite : F → Bool
  pub from_u8 : ℕ → F
  pub received_at : K
  pub apid : K
  pub points : List K

pub record HistoryEntry (J F : Type 0) : Type 0 where
  pub received_at_ms : ℤ
  pub apid : ℕ
  pub json : J
  pub values : List (Option F)

pub record HistoryQuery : Type 0 where
  pub start_ms : Option ℤ
  pub end_ms : Option ℤ
  pub apid : Option ℕ
  pub point : Option ℕ
  pub limit : ℕ

abbrev pub bind {ℓ κ} : {A : Type ℓ} {B : Type κ} → Option A → (A → Option B) → Option B
bind none f = none
bind (some a) f = f a

abbrev pub is_none_or {ℓ} : {A : Type ℓ} → Option A → (A → Bool) → Bool
is_none_or none p = true
is_none_or (some a) p = p a

abbrev pub is_some {ℓ} : {A : Type ℓ} → Option A → Bool
is_some none = false
is_some (some _) = true

abbrev pub keep_if {ℓ} : {A : Type ℓ} → (A → Bool) → Option A → Option A
keep_if p none = none
keep_if p (some a) = if p a then some a else none

module _ {J V K S F : Type 0} (js : Json J V K S F) where
  abbrev pub value_of_kind : Kind F → Option F
  value_of_kind (number n) = keep_if js.is_finite n
  value_of_kind (boolean b) = some (js.from_u8 (if b then 1 else 0))
  value_of_kind other = none

  abbrev pub point_value : V → K → Option F
  point_value message field = bind (js.get message field) (λ v. value_of_kind (js.kind v))

  unfoldable pub from_json : J → Option (HistoryEntry J F)
  from_json json = bind (js.from_str json) (λ v.
      bind (bind (js.get v js.received_at) js.as_str) (λ received_at.
        bind (js.timestamp_millis received_at) (λ ms.
          bind (keep_if (λ a. ltb a (2 ^ 16)) (bind (js.get v js.apid) js.as_u64)) (λ apid.
            some (record {
              received_at_ms = ms;
              apid = apid;
              json = json;
              values = map (point_value v) js.points;
            })))))

abbrev pub effective_limit : HistoryQuery → ℕ
effective_limit q = if q.limit == 0 then default_query_limit else min q.limit max_query_limit

abbrev pub has_value : {F : Type 0} → List (Option F) → ℕ → Bool
has_value values i = is_some (bind (get_elem? values i) (λ v. v))

module _ {J F : Type 0} where
  unfoldable pub matches : HistoryQuery → HistoryEntry J F → Bool
  matches q e =
      is_none_or q.start_ms (λ s. le_int s e.received_at_ms)
      && is_none_or q.end_ms (λ t. le_int e.received_at_ms t)
      && is_none_or q.apid (λ a. e.apid == a)
      && is_none_or q.point (λ i. has_value e.values i)

pub record HistoryStats : Type 0 where
  pub recorded : ℕ
  pub evicted : ℕ
  pub loaded : ℕ
  pub load_skipped : ℕ
  pub persisted : ℕ
  pub persist_dropped : ℕ
  pub persist_errors : ℕ

abbrev pub no_history : HistoryStats
no_history = record {
  recorded = 0;
  evicted = 0;
  loaded = 0;
  load_skipped = 0;
  persisted = 0;
  persist_dropped = 0;
  persist_errors = 0;
}

-- `writer` says whether the channel to the writer thread is open.
pub record HistoryStore (J F : Type 0) : Type 0 where
  pub capacity : ℕ
  pub ring : List (HistoryEntry J F)
  pub stats : HistoryStats
  pub writer : Bool

pub record HistoryPage (J F : Type 0) : Type 0 where
  pub entries : List (HistoryEntry J F)
  pub truncated : Bool

-- What `try_send` of the bounded channel answers.
pub data Sending : Type 0 where
  sent : Sending
  full : Sending
  disconnected : Sending

abbrev pub count_sending : Sending → HistoryStats → HistoryStats
count_sending sent st = st
count_sending full st = record st { persist_dropped = fetch_add st.persist_dropped 1 }
count_sending disconnected st = record st { persist_errors = fetch_add st.persist_errors 1 }

module _ {J F : Type 0} where
  abbrev pub in_memory : ℕ → HistoryStore J F
  in_memory capacity = record { capacity = capacity; ring = []; stats = no_history; writer = false }

  -- The block that holds the lock of the ring, and the counters around it.
  unfoldable pub push_entry : HistoryEntry J F → HistoryStore J F → HistoryStore J F
  push_entry entry h =
      let st = h.stats in
      let counted = record st { recorded = fetch_add st.recorded 1 } in
      if leb h.capacity (length h.ring)
      then record h {
        ring = drop 1 h.ring ++ entry ∷ [];
        stats = record counted { evicted = fetch_add st.evicted 1 };
      }
      else record h { ring = h.ring ++ entry ∷ []; stats = counted }

  abbrev pub send_to_writer : (J → Sending) → J → HistoryStore J F → HistoryStore J F
  send_to_writer try_send json h =
      if h.writer then record h { stats = count_sending (try_send json) h.stats } else h

  abbrev pub record_entry :
      (J → Sending) → J → Option (HistoryEntry J F) → HistoryStore J F → HistoryStore J F × Bool
  record_entry try_send json none h = (h, false)
  record_entry try_send json (some entry) h =
      (send_to_writer try_send json (push_entry entry h), true)

module _ {J V K S F : Type 0} (js : Json J V K S F) where
  -- `HistoryStore::record`.
  unfoldable pub record_message : (J → Sending) → J → HistoryStore J F → HistoryStore J F × Bool
  record_message try_send json h =
      if h.capacity == 0 then (h, false) else record_entry try_send json (from_json js json) h

module _ {J F : Type 0} where
  -- The loop of `query`: the entries still to see, newest first, and those that were taken.
  unfoldable pub collect :
      ℕ
      → HistoryQuery
      → List (HistoryEntry J F)
      → List (HistoryEntry J F)
      → List (HistoryEntry J F) × Bool
  collect limit q [] newest_first = (newest_first, false)
  collect limit q (e ∷ es) newest_first =
      let rest =
        collect limit q es (if matches q e then newest_first ++ e ∷ [] else newest_first) in
      if matches q e && length newest_first == limit then (newest_first, true) else rest

  unfoldable pub query : HistoryQuery → HistoryStore J F → HistoryPage J F
  query q h =
      let found = collect (effective_limit q) q (reverse h.ring) [] in
      record { entries = reverse found.0; truncated = found.1 }
