-- ===== src/Ingest/Run.antt =====
-- What the ingestion loop of crates/gateway/src/ingest.rs has counted and sent when it stops.
use chronus_gateway.Prelude.{
  ℕ, ◌+◌, ◌^◌, ◌<◌, ◌≡◌, refl, ap, sym, ◌∙◌, Bool, true, false, List, [], ◌∷◌, ◌++◌, if◌then◌else◌,
  length, one_if, arith, append-nil, append_assoc, Bool-cases, inl, inr, subst,
}
use chronus_gateway.Words.{fetch_add, fetch_add-fetch_add}
use chronus_gateway.Ccsds.{RawFrame}
use chronus_gateway.Ingest.{
  Event, shutdown, received, failed, Ingest, no_ingest, is_oversized, on_received, on_failed, run,
}

abbrev counted : (kind oversized : Bool) → ℕ
counted true oversized = one_if oversized
counted false oversized = if oversized then 0 else 1

module _ {T S : Type 0} where
  -- What happens before the shutdown.
  abbrev pub datagrams : List (Event T S) → List (RawFrame T S)
  datagrams [] = []
  datagrams (shutdown ∷ events) = []
  datagrams (received bytes at source ∷ events) =
      record { bytes = bytes; received_at = at; source = source } ∷ datagrams events
  datagrams (failed code ∷ events) = datagrams events

  abbrev pub octets : List (RawFrame T S) → ℕ
  octets [] = 0
  octets (f ∷ fs) = length f.bytes + octets fs

  -- The failures for which `is_oversized` answers `kind`.
  abbrev pub failures : Bool → List (Event T S) → ℕ
  failures kind [] = 0
  failures kind (shutdown ∷ events) = 0
  failures kind (received _ _ _ ∷ events) = failures kind events
  failures kind (failed code ∷ events) = counted kind (is_oversized code) + failures kind events

  -- The counters, from those of `s`, modulo 2^64, and the frames sent.
  pub record Counted (events : List (Event T S)) (s s' : Ingest T S) : Type 0 where
    pub frames :
        s'.stats.frames_received ≡ fetch_add s.stats.frames_received (length (datagrams events))
    pub bytes :
        s'.stats.bytes_received ≡ fetch_add s.stats.bytes_received (octets (datagrams events))
    pub oversized :
        s'.stats.oversized_dropped ≡ fetch_add s.stats.oversized_dropped (failures true events)
    pub errors : s'.stats.recv_errors ≡ fetch_add s.stats.recv_errors (failures false events)
    pub in_order : s'.sent ≡ s.sent ++ datagrams events

  abbrev Below : Ingest T S → Type 0
  Below s =
      (s.stats.frames_received < 2 ^ 64)
      × (s.stats.bytes_received < 2 ^ 64)
      × (s.stats.oversized_dropped < 2 ^ 64)
      × (s.stats.recv_errors < 2 ^ 64)

  stopped :
      (events : List (Event T S)) (s : Ingest T S)
      → Below s
      → datagrams events ≡ []
      → failures true events ≡ 0
      → failures false events ≡ 0
      → Counted events s s
  stopped events s v none_sent none_large none_bad = record {
    frames = omega (arith, ap length none_sent, v);
    bytes = omega (arith, ap octets none_sent, v);
    oversized = omega (arith, none_large, v);
    errors = omega (arith, none_bad, v);
    in_order = sym (append-nil s.sent) ∙ ap (◌++◌ s.sent) (sym none_sent);
  }

  run-Counted :
      (events : List (Event T S)) (s : Ingest T S) → Below s → Counted events s (run events s)
  unfolding run
  run-Counted [] s v = stopped [] s v refl refl refl
  run-Counted (shutdown ∷ events) s v = stopped (shutdown ∷ events) s v refl refl refl
  run-Counted (received bytes at source ∷ events) s v =
      let c =
        run-Counted events (on_received bytes at source s) (omega arith, omega arith, v.2, v.3) in
      record {
        frames =
            c.frames
            ∙ fetch_add-fetch_add s.stats.frames_received 1 (length (datagrams events))
            ∙ ap (fetch_add s.stats.frames_received) (omega arith);
        bytes =
            c.bytes
            ∙ fetch_add-fetch_add s.stats.bytes_received (length bytes) (octets (datagrams events));
        oversized = c.oversized;
        errors = c.errors;
        in_order = c.in_order ∙ append_assoc s.sent _ (datagrams events);
      }
  run-Counted (failed code ∷ events) s v = elim (Bool-cases (is_oversized code)) [
    | inl large ↦
        let s' : Ingest T S = record s {
          stats = record s.stats { oversized_dropped = fetch_add s.stats.oversized_dropped 1 };
        } in
        let same : on_failed code s ≡ s' = rw large in
        let c = run-Counted events s' (v.0, v.1, omega arith, v.3) in
        subst (λ z. Counted (failed code ∷ events) s (run events z)) (sym same)
          (record {
            frames = c.frames;
            bytes = c.bytes;
            oversized =
                c.oversized
                ∙ fetch_add-fetch_add s.stats.oversized_dropped 1 (failures true events)
                ∙ ap
                    (λ b.
                      fetch_add s.stats.oversized_dropped (counted true b + failures true events))
                    (sym large);
            errors =
                c.errors
                ∙ ap (fetch_add s.stats.recv_errors) (omega arith)
                ∙ ap (λ b. fetch_add s.stats.recv_errors (counted false b + failures false events))
                    (sym large);
            in_order = c.in_order;
          })
    | inr other ↦
        let s' : Ingest T S = record s {
          stats = record s.stats { recv_errors = fetch_add s.stats.recv_errors 1 };
        } in
        let same : on_failed code s ≡ s' = rw other in
        let c = run-Counted events s' (v.0, v.1, v.2, omega arith) in
        subst (λ z. Counted (failed code ∷ events) s (run events z)) (sym same)
          (record {
            frames = c.frames;
            bytes = c.bytes;
            oversized =
                c.oversized
                ∙ ap (fetch_add s.stats.oversized_dropped) (omega arith)
                ∙ ap
                    (λ b.
                      fetch_add s.stats.oversized_dropped (counted true b + failures true events))
                    (sym other);
            errors =
                c.errors
                ∙ fetch_add-fetch_add s.stats.recv_errors 1 (failures false events)
                ∙ ap (λ b. fetch_add s.stats.recv_errors (counted false b + failures false events))
                    (sym other);
            in_order = c.in_order;
          })
  ]

  -- A new loop, whatever the socket answers and whenever the shutdown comes: the frames sent are
  -- the datagrams received before the shutdown, in their order, and each counter is the number of
  -- its events before the shutdown, or of the octets of these datagrams, modulo 2^64.
  pub run-new :
      (events : List (Event T S))
      → Counted events
          (record { stats = no_ingest; sent = [] })
          (run events (record { stats = no_ingest; sent = [] }))
  run-new events =
      run-Counted events (record { stats = no_ingest; sent = [] })
        (omega arith, omega arith, omega arith, omega arith)
