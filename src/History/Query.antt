-- ===== src/History/Query.antt =====
-- `HistoryStore::query`: the newest matching entries, oldest first.
use chronus_gateway.Prelude.{
  ℕ, suc, ◌+◌, ◌≤◌, ◌≡◌, ap, ap₂, sym, ◌∙◌, Bool, List, [], ◌∷◌, ◌++◌, ltb, ◌==◌, length, take,
  filter, reverse, newest, filter-reverse, reverse-take-reverse, length-reverse, length-append,
  take-length, take-length_append, Bool-cases, inl, inr, arith, append-nil, append_assoc,
  le→not_ltb, lt→ltb,
}
use chronus_gateway.History.{
  HistoryEntry, HistoryQuery, HistoryStore, matches, effective_limit, collect, query,
}

module _ {J F : Type 0} where
  -- The loop takes matching entries until the limit, and says whether there was one more.
  collect-take :
      (limit : ℕ) (q : HistoryQuery) (es taken : List (HistoryEntry J F))
      → length taken ≤ limit
      → collect limit q es taken ≡ (
        take limit (taken ++ filter (matches q) es),
        ltb limit (length taken + length (filter (matches q) es)),
      )
  unfolding collect
  collect-take limit q [] taken h =
      ap₂ (λ (x : List (HistoryEntry J F)) (y : Bool). (x, y))
        (sym (ap (take limit) (append-nil taken) ∙ take-length limit taken h))
        (sym (le→not_ltb limit (length taken + 0) (omega arith)))
  collect-take limit q (e ∷ es) taken h = elim (Bool-cases (matches q e)) [
    | inl m ↦ elim (Bool-cases (length taken == limit)) [
      | inl full ↦
          rw (m, full)
            (ap₂ (λ (x : List (HistoryEntry J F)) (y : Bool). (x, y))
              (sym (take-length_append limit taken (e ∷ filter (matches q) es) (ground arith)))
              (sym (
                lt→ltb limit (length taken + suc (length (filter (matches q) es))) (ground arith))))
      | inr room ↦
          rw (m, room)
            (collect-take limit q es (taken ++ e ∷ [])
                (ground (arith, length-append taken (e ∷ [])))
              ∙ ap₂ (λ (x : List (HistoryEntry J F)) (y : Bool). (x, y))
                  (ap (take limit) (append_assoc taken (e ∷ []) (filter (matches q) es)))
                  (ap (ltb limit) (omega (arith, length-append taken (e ∷ [])))))
    ]
    | inr m ↦ rw m (collect-take limit q es taken h)
  ]

  -- A query gives the newest entries that match, as many as the limit allows, in order of arrival,
  -- and `truncated` says exactly whether more entries matched than the limit.
  pub query-newest :
      (q : HistoryQuery) (h : HistoryStore J F)
      → let matching = filter (matches q) h.ring in
        ((query q h).entries ≡ newest (effective_limit q) matching)
        × ((query q h).truncated ≡ ltb (effective_limit q) (length matching))
  unfolding query
  query-newest q h =
      let limit = effective_limit q in
      let run = collect-take limit q (reverse h.ring) [] (omega arith) in
      let turned = filter-reverse (matches q) h.ring in
      (
        ap (λ r. reverse r.0) run
            ∙ ap (λ l. reverse (take limit l)) turned
            ∙ reverse-take-reverse limit (filter (matches q) h.ring),
        ap (λ r. r.1) run
            ∙ ap (ltb limit)
                (omega (arith, ap length turned, length-reverse (filter (matches q) h.ring))),
      )
