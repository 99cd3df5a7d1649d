-- ===== src/Ingest/Tests.antt =====
-- A run of the ingestion loop of crates/gateway/src/ingest.rs.
use chronus_gateway.Prelude.{ℕ, ◌≡◌, refl, none, some, List, [], ◌∷◌}
use chronus_gateway.Integers.{pos}
use chronus_gateway.Ingest.{Event, shutdown, received, failed, no_ingest, snapshot, run}
use chronus_gateway.Ingest.Run.{Counted, run-new}

abbrev events : List (Event ℕ ℕ)
events =
    received (1 ∷ 2 ∷ 3 ∷ []) 10 7
    ∷ failed (some (pos 10040))
    ∷ failed none
    ∷ received (4 ∷ []) 11 7
    ∷ failed (some (pos 104))
    ∷ shutdown
    ∷ received (5 ∷ []) 12 7
    ∷ []

counters : snapshot (run events (record { stats = no_ingest; sent = [] })).stats ≡ (2, 4, 1, 2)
unfolding run
counters = refl

run-new_example :
    Counted events
      (record { stats = no_ingest; sent = [] })
      (run events (record { stats = no_ingest; sent = [] }))
run-new_example = run-new events
