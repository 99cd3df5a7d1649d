-- ===== src/History/Tests.antt =====
-- Runs of the history of crates/gateway/src/history.rs on small stores, and its properties there.
-- A message is a number here: its time and its APID, refused above 90.
use chronus_gateway.Prelude.{
  ℕ, ◌<◌, ◌*◌, ◌≡◌, refl, true, none, some, List, [], ◌∷◌, ltb, if◌then◌else◌, length, filter,
  newest, map, arith, concat,
}
use chronus_gateway.Integers.{pos}
use chronus_gateway.History.{
  Json, number, HistoryEntry, HistoryQuery, HistoryStore, Sending, sent, in_memory, from_json,
  matches, collect, query, push_entry, record_message,
}
use chronus_gateway.History.Ring.{Recorded, accepted, record_all, record_all-in_memory}
use chronus_gateway.History.Query.{query-newest}
use chronus_gateway.History.File.{
  text, new_writer, write_line, write_lines, compact, write_batch, write_batches, open_file,
}
use chronus_gateway.History.File.Reload.{open_file-write_batches}

abbrev numbers : Json ℕ ℕ ℕ ℕ ℕ
numbers = record {
  from_str = some;
  get = λ v k. some v;
  as_str = some;
  as_u64 = some;
  kind = λ v. number (some v);
  timestamp_millis = λ s. if ltb 90 s then none else some (pos s);
  is_finite = λ f. true;
  from_u8 = λ n. n;
  received_at = 0;
  apid = 1;
  points = 2 ∷ [];
}

abbrev entry : ℕ → HistoryEntry ℕ ℕ
entry n = record { received_at_ms = pos n; apid = n; json = n; values = some n ∷ [] }

abbrev messages : List ℕ
messages = 5 ∷ 95 ∷ 6 ∷ 7 ∷ []

abbrev delivered : ℕ → Sending
delivered json = sent

abbrev none_yet : HistoryStore ℕ ℕ
none_yet = in_memory 2

ring_runs : (record_all numbers delivered messages none_yet).ring ≡ entry 6 ∷ entry 7 ∷ []
unfolding record_all record_message from_json push_entry
ring_runs = refl

abbrev three : HistoryStore ℕ ℕ
three = record (in_memory 9) { ring = entry 5 ∷ entry 6 ∷ entry 7 ∷ [] }

abbrev from_six : HistoryQuery
from_six = record { start_ms = some (pos 6); end_ms = none; apid = none; point = some 0; limit = 1 }

query_runs : query from_six three ≡ record { entries = entry 7 ∷ []; truncated = true }
unfolding query collect matches
query_runs = refl

abbrev batches : List (List ℕ)
batches = (1 ∷ 2 ∷ []) ∷ (3 ∷ []) ∷ (4 ∷ 5 ∷ []) ∷ []

file_runs : (write_batches 2 batches new_writer).file ≡ 4 ∷ 5 ∷ []
unfolding write_batches write_batch write_lines write_line compact
file_runs = refl

record_all-in_memory_example :
    Recorded 2 (accepted numbers messages) (record_all numbers delivered messages none_yet)
record_all-in_memory_example = record_all-in_memory numbers delivered 2 messages (omega arith)

query-newest_example :
    ((query from_six three).entries ≡ newest 1 (filter (matches from_six) three.ring))
    × ((query from_six three).truncated ≡ ltb 1 (length (filter (matches from_six) three.ring)))
query-newest_example = query-newest from_six three

open_file-write_batches_example :
    let w = write_batches 2 batches new_writer in
    (length w.file < 2 * 2)
    × ((open_file numbers 2 (map text w.file)).0.ring
        ≡ accepted numbers (newest 2 (concat batches)))
open_file-write_batches_example =
    open_file-write_batches numbers 2 batches (omega arith) (omega arith)
