-- ===== src/Rf/Store.antt =====
-- The store holds the newest samples.
use chronus_gateway.Prelude.{
  ℕ, ◌-◌, ◌<◌, ◌≡◌, refl, ap, sym, ◌∙◌, max, Bool, true, false, List, [], ◌∷◌, ◌++◌, leb, length,
  newest, kept-newest, newest-newest_append, length-newest, drop-length, append-nil, append_assoc,
  arith, if◌then◌else◌,
}
use chronus_gateway.Rf.{RfConfig, Entry, RfStore, new, insert}

module _ {F : Type 0} where
  unfoldable pub insert_all : List (Entry F) → RfStore F → RfStore F
  insert_all [] r = r
  insert_all (e ∷ es) r = insert_all es (insert e.t e.meta r)

  entries_if :
      (b : Bool) (x y : RfStore F)
      → (if b then x else y).entries ≡ (if b then x.entries else y.entries)
  entries_if true x y = refl
  entries_if false x y = refl

  capacity_if :
      (b : Bool) (x y : RfStore F)
      → x.capacity ≡ y.capacity
      → (if b then x else y).capacity ≡ y.capacity
  capacity_if true x y e = e
  capacity_if false x y e = refl

  insert-newest :
      (c : ℕ) (seen : List (Entry F)) (e : Entry F) (r : RfStore F)
      → 0 < c
      → r.capacity ≡ c
      → r.entries ≡ newest c seen
      → ((insert e.t e.meta r).capacity ≡ c)
        × ((insert e.t e.meta r).entries ≡ newest c (seen ++ e ∷ []))
  unfolding insert
  insert-newest c seen e r pos room same =
      let size = ap length same ∙ length-newest c seen in
      (
        capacity_if (leb r.capacity (length r.entries)) _ _ refl ∙ room,
        entries_if (leb r.capacity (length r.entries)) _ _
            ∙ kept-newest c r.entries e pos (omega arith) (leb r.capacity (length r.entries))
                (ap (λ k. leb k (length r.entries)) (sym room))
            ∙ ap (λ l. newest c (l ++ e ∷ [])) same
            ∙ newest-newest_append c seen e,
      )

  insert_all-seen :
      (c : ℕ) (seen es : List (Entry F)) (r : RfStore F)
      → 0 < c
      → r.capacity ≡ c
      → r.entries ≡ newest c seen
      → (insert_all es r).entries ≡ newest c (seen ++ es)
  unfolding insert_all
  insert_all-seen c seen [] r pos room same = same ∙ ap (newest c) (sym (append-nil seen))
  insert_all-seen c seen (e ∷ es) r pos room same =
      let step = insert-newest c seen e r pos room same in
      insert_all-seen c (seen ++ e ∷ []) es (insert e.t e.meta r) pos step.0 step.1
      ∙ ap (newest c) (append_assoc seen (e ∷ []) es)

  -- After any samples a new store holds the newest of them, in order of arrival, as many as its
  -- capacity, and one where the configured capacity is zero.
  pub entries-insert_all :
      (cfg : RfConfig) (es : List (Entry F))
      → (insert_all es (new cfg)).entries ≡ newest (max cfg.capacity 1) es
  entries-insert_all cfg es =
      insert_all-seen (max cfg.capacity 1) [] es (new cfg) (omega arith) refl
        (sym (drop-length (0 - max cfg.capacity 1) [] (omega arith)))
