-- ===== src/Ingest.antt =====
-- The ingestion loop of crates/gateway/src/ingest.rs: what the socket answers goes to the counters
-- and to the channel. The log is left out.
pub mod Run
pub mod Tests
use chronus_gateway.Prelude.{
  ℕ, ◌+◌, Bool, true, false, Option, none, some, List, [], ◌∷◌, ◌++◌, if◌then◌else◌, length,
  is_some_and,
}
use chronus_gateway.Integers.{ℤ, pos, distance}
use chronus_gateway.Words.{Bytes, fetch_add}
use chronus_gateway.Ccsds.{RawFrame}
use chronus_gateway.Prelude.{◌==◌}

-- `WSAEMSGSIZE`.
abbrev pub wsaemsgsize : ℤ
wsaemsgsize = pos 10040

pub record IngestStats : Type 0 where
  pub frames_received : ℕ
  pub bytes_received : ℕ
  pub oversized_dropped : ℕ
  pub recv_errors : ℕ

abbrev pub no_ingest : IngestStats
no_ingest = record {
  frames_received = 0;
  bytes_received = 0;
  oversized_dropped = 0;
  recv_errors = 0;
}

pub record IngestSnapshot : Type 0 where
  pub frames_received : ℕ
  pub bytes_received : ℕ
  pub oversized_dropped : ℕ
  pub recv_errors : ℕ

abbrev pub snapshot : IngestStats → ℕ × ℕ × ℕ × ℕ
snapshot s = (s.frames_received, s.bytes_received, s.oversized_dropped, s.recv_errors)

abbrev pub snapshot_struct : IngestStats → IngestSnapshot
snapshot_struct s =
    let (frames_received, bytes_received, oversized_dropped, recv_errors) = snapshot s in
    record {
      frames_received = frames_received;
      bytes_received = bytes_received;
      oversized_dropped = oversized_dropped;
      recv_errors = recv_errors;
    }

-- The branch that `select!` takes: the shutdown, or what `recv_from` answers, with the octets in
-- the buffer and the time of the clock, or with the code of the system's error.
pub data Event (T S : Type 0) : Type 0 where
  shutdown : Event T S
  received : Bytes → T → S → Event T S
  failed : (raw_os_error : Option ℤ) → Event T S

pub record Ingest (T S : Type 0) : Type 0 where
  pub stats : IngestStats
  pub sent : List (RawFrame T S)

-- `e.raw_os_error() == Some(WSAEMSGSIZE)`.
abbrev pub is_oversized : Option ℤ → Bool
is_oversized code = is_some_and code (λ c. distance c wsaemsgsize == 0)

module _ {T S : Type 0} where
  abbrev pub on_received : Bytes → T → S → Ingest T S → Ingest T S
  on_received bytes at source s = record {
    stats = record s.stats {
      frames_received = fetch_add s.stats.frames_received 1;
      bytes_received = fetch_add s.stats.bytes_received (length bytes);
    };
    sent = s.sent ++ record { bytes = bytes; received_at = at; source = source } ∷ [];
  }

  abbrev pub on_failed : Option ℤ → Ingest T S → Ingest T S
  on_failed code s =
      if is_oversized code
      then record s {
        stats = record s.stats { oversized_dropped = fetch_add s.stats.oversized_dropped 1 };
      }
      else record s { stats = record s.stats { recv_errors = fetch_add s.stats.recv_errors 1 } }

  -- The loop.
  unfoldable pub run : List (Event T S) → Ingest T S → Ingest T S
  run [] s = s
  run (shutdown ∷ events) s = s
  run (received bytes at source ∷ events) s = run events (on_received bytes at source s)
  run (failed code ∷ events) s = run events (on_failed code s)
