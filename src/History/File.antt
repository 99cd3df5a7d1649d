-- ===== src/History/File.antt =====
-- The history file of crates/gateway/src/history.rs: `writer_loop`, `read_tail`, `rewrite` and
-- `HistoryStore::open`. What a read finds and whether a write succeeds are arguments; `file` is
-- what was handed to the buffered writer since the last rewrite.
pub mod Reload
use chronus_gateway.Prelude.{
  ℕ, ◌+◌, ◌*◌, ◌-◌, ◌%◌, ◌^◌, min, max, Bool, true, false, Option, none, some, List, [], ◌∷◌, ◌++◌,
  map, leb, ◌==◌, if◌then◌else◌, length, drop,
}
use chronus_gateway.Words.{fetch_add}
use chronus_gateway.History.{Json, HistoryEntry, HistoryStats, HistoryStore, in_memory, from_json}

-- `if kept.len() == capacity { kept.pop_front(); }` and `kept.push_back(line)`.
abbrev pub push_bounded {ℓ} : {A : Type ℓ} → ℕ → List A → A → List A
push_bounded capacity kept line =
    if length kept == capacity then drop 1 kept ++ line ∷ [] else kept ++ line ∷ []

-- One read of `read_tail`: a line without an end, one that is no UTF-8, one that is blank when
-- trimmed, and a text.
pub data Line (J : Type 0) : Type 0 where
  oversized : Line J
  not_utf8 : Line J
  blank : Line J
  text : J → Line J

-- The newest `keep` texts, and the count of the lines that were skipped.
pub record Tail (J : Type 0) : Type 0 where
  pub tail : List J
  pub load_skipped : ℕ

module _ {J : Type 0} where
  abbrev pub read_line : ℕ → Line J → Tail J → Tail J
  read_line keep oversized t = record t { load_skipped = fetch_add t.load_skipped 1 }
  read_line keep not_utf8 t = record t { load_skipped = fetch_add t.load_skipped 1 }
  read_line keep blank t = t
  read_line keep (text line) t = record t { tail = push_bounded keep t.tail line }

  -- The `loop`, over the reads that the file gives.
  unfoldable pub read_lines : ℕ → List (Line J) → Tail J → Tail J
  read_lines keep [] t = t
  read_lines keep (l ∷ ls) t = read_lines keep ls (read_line keep l t)

  abbrev pub read_tail : ℕ → List (Line J) → Tail J
  read_tail keep lines = read_lines keep lines (record { tail = []; load_skipped = 0 })

-- `capacity.saturating_mul(2).max(1)`.
abbrev pub compact_at : ℕ → ℕ
compact_at capacity = max (min (capacity * 2) (2 ^ 64 - 1)) 1

-- The variables of `writer_loop`, the lines of the file and the counters that it keeps.
pub record Writer (J : Type 0) : Type 0 where
  pub kept : List J
  pub lines_in_file : ℕ
  pub file : List J
  pub persisted : ℕ
  pub persist_errors : ℕ

abbrev pub new_writer : {J : Type 0} → Writer J
new_writer = record { kept = []; lines_in_file = 0; file = []; persisted = 0; persist_errors = 0 }

module _ {J : Type 0} where
  abbrev pub fail : Writer J → Writer J
  fail w = record w { persist_errors = fetch_add w.persist_errors 1 }

  -- The body of `for line in batch`; the Boolean says whether the write succeeds.
  unfoldable pub write_line : ℕ → J × Bool → Writer J → Writer J
  write_line capacity (line, good) w =
      let written = record w {
        persisted = fetch_add w.persisted 1;
        lines_in_file = w.lines_in_file + 1;
        file = w.file ++ line ∷ [];
      } in
      record (if good then written else fail w) { kept = push_bounded capacity w.kept line }

  unfoldable pub write_lines : ℕ → List (J × Bool) → Writer J → Writer J
  write_lines capacity [] w = w
  write_lines capacity (l ∷ ls) w = write_lines capacity ls (write_line capacity l w)

  -- The compaction; the Boolean says whether the file could be rewritten and opened.
  unfoldable pub compact : ℕ → Bool → Writer J → Writer J
  compact capacity good w =
      let rewritten = record w { file = w.kept; lines_in_file = length w.kept } in
      if leb (compact_at capacity) w.lines_in_file then if good then rewritten else fail w else w

  -- One batch: the lines, the flush, the compaction.
  unfoldable pub write_batch :
      ℕ → List (J × Bool) → (flushed rewritten : Bool) → Writer J → Writer J
  write_batch capacity lines flushed rewritten w =
      let w1 = write_lines capacity lines w in
      compact capacity rewritten (if flushed then w1 else fail w1)

  -- The rounds of the loop in which no write fails.
  unfoldable pub write_batches : ℕ → List (List J) → Writer J → Writer J
  write_batches capacity [] w = w
  write_batches capacity (b ∷ bs) w =
      write_batches capacity bs (write_batch capacity (map (λ l. (l, true)) b) true true w)

module _ {J V K S F : Type 0} (js : Json J V K S F) where
  abbrev pub load_line : Option (HistoryEntry J F) → HistoryStore J F → HistoryStore J F
  load_line none h = record h {
    stats = record h.stats { load_skipped = fetch_add h.stats.load_skipped 1 };
  }
  load_line (some e) h = record h { ring = h.ring ++ e ∷ [] }

  unfoldable pub load_lines : List J → HistoryStore J F → HistoryStore J F
  load_lines [] h = h
  load_lines (l ∷ ls) h = load_lines ls (load_line (from_json js l) h)

  -- `HistoryStore::open` for a file that can be read and rewritten, and the writer that it starts.
  unfoldable pub open_file : ℕ → List (Line J) → HistoryStore J F × Writer J
  open_file capacity lines =
      let t = read_tail capacity lines in
      let h = in_memory capacity in
      let skipped = record h { stats = record h.stats { load_skipped = t.load_skipped } } in
      let loaded = load_lines t.tail skipped in
      let kept = map (λ (e : HistoryEntry J F). e.json) loaded.ring in
      (
        record loaded {
          stats = record loaded.stats { loaded = length loaded.ring % 2 ^ 64 };
          writer = true;
        },
        record {
          kept = kept;
          lines_in_file = length kept;
          file = kept;
          persisted = 0;
          persist_errors = 0;
        },
      )

  -- `HistoryStore::open`; the lines are those of the configured file, if one is configured.
  unfoldable pub open_store : ℕ → Option (List (Line J)) → HistoryStore J F × Option (Writer J)
  open_store capacity none = (in_memory capacity, none)
  open_store capacity (some lines) =
      let (h, w) = open_file capacity lines in
      if capacity == 0 then (in_memory capacity, none) else (h, some w)
