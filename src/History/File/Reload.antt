-- ===== src/History/File/Reload.antt =====
-- The history file stays bounded, and reopening it gives back the newest messages.
use chronus_gateway.Prelude.{
  concat, ℕ, ◌-◌, ◌*◌, ◌^◌, ◌≤◌, ◌<◌, ◌≡◌, refl, ap, sym, ◌∙◌, subst, true, List, [], ◌∷◌, ◌++◌,
  map, leb, ◌==◌, length, drop, newest, length-newest, newest-newest_append, length-append,
  drop-append, drop-length, Bool-cases, inl, inr, arith, append-nil, append_assoc, Option, none,
  some,
}
use chronus_gateway.History.{Json, HistoryEntry, HistoryStore, from_json}
use chronus_gateway.History.Ring.{accepted, if_accepted}
use chronus_gateway.History.File.{
  push_bounded, text, Tail, read_line, read_lines, read_tail, Writer, write_line, write_lines,
  compact_at, compact, new_writer, write_batch, write_batches, load_line, load_lines, open_file,
}

newest_short : {A : Type 0} (n : ℕ) (xs : List A) → length xs ≤ n → newest n xs ≡ xs
newest_short n xs h =
    let none_over : length xs - n ≡ 0 = omega arith in ap (λ (k : ℕ). drop k xs) none_over

push_bounded-newest :
    {A : Type 0} (c : ℕ) (kept : List A) (x : A)
    → 0 < c
    → length kept ≤ c
    → push_bounded c kept x ≡ newest c (kept ++ x ∷ [])
push_bounded-newest c kept x pos le =
    let size = length-append kept (x ∷ []) in
    elim (Bool-cases (length kept == c)) [
      | inl e ↦ rw e (
          let one : 1 ≡ length (kept ++ x ∷ []) - c = ground arith in
          sym (drop-append 1 kept (x ∷ []) (ground arith))
          ∙ ap (λ (k : ℕ). drop k (kept ++ x ∷ [])) one)
      | inr e ↦ rw e (sym (newest_short c (kept ++ x ∷ []) (ground arith)))
    ]

-- One more element behind what is kept of a list.
push_bounded_next :
    {A : Type 0} (c : ℕ) (kept xs : List A) (x : A)
    → 0 < c
    → kept ≡ newest c xs
    → push_bounded c kept x ≡ newest c (xs ++ x ∷ [])
push_bounded_next c kept xs x pos same =
    push_bounded-newest c kept x pos (omega (arith, ap length same, length-newest c xs))
    ∙ ap (λ l. newest c (l ++ x ∷ [])) same
    ∙ newest-newest_append c xs x

module _ {J : Type 0} where
  read_lines-newest :
      (c : ℕ) (t : Tail J) (xs ls : List J)
      → 0 < c
      → t.tail ≡ newest c xs
      → (read_lines c (map text ls) t).tail ≡ newest c (xs ++ ls)
  unfolding read_lines
  read_lines-newest c t xs [] pos same = same ∙ ap (newest c) (sym (append-nil xs))
  read_lines-newest c t xs (l ∷ ls) pos same =
      read_lines-newest c (read_line c (text l) t) (xs ++ l ∷ []) ls pos
        (push_bounded_next c t.tail xs l pos same)
      ∙ ap (newest c) (append_assoc xs (l ∷ []) ls)

  -- Reading a file back keeps its newest lines.
  read_tail-newest : (c : ℕ) (ls : List J) → 0 < c → (read_tail c (map text ls)).tail ≡ newest c ls
  read_tail-newest c ls pos =
      read_lines-newest c (record { tail = []; load_skipped = 0 }) [] ls pos
        (sym (drop-length (0 - c) [] (omega arith)))

  -- The writer after the lines `seen`, none of which failed.
  pub record Written (c : ℕ) (seen : List J) (w : Writer J) : Type 0 where
    pub newest_seen : w.kept ≡ newest c seen
    pub newest_in_file : w.kept ≡ newest c w.file
    pub counted : w.lines_in_file ≡ length w.file

  write_line-Written :
      (c : ℕ) (seen : List J) (l : J) (w : Writer J)
      → 0 < c
      → Written c seen w
      → Written c (seen ++ l ∷ []) (write_line c (l, true) w)
  unfolding write_line
  write_line-Written c seen l w pos r = record {
    newest_seen = push_bounded_next c w.kept seen l pos r.newest_seen;
    newest_in_file = push_bounded_next c w.kept w.file l pos r.newest_in_file;
    counted = omega (arith, r.counted, length-append w.file (l ∷ []));
  }

  write_lines-Written :
      (c : ℕ) (seen ls : List J) (w : Writer J)
      → 0 < c
      → Written c seen w
      → Written c (seen ++ ls) (write_lines c (map (λ l. (l, true)) ls) w)
  unfolding write_lines
  write_lines-Written c seen [] w pos r = rw (append-nil seen) r
  write_lines-Written c seen (l ∷ ls) w pos r =
      subst (λ s. Written c s (write_lines c (map (λ l. (l, true)) ls) (write_line c (l, true) w)))
        (append_assoc seen (l ∷ []) ls)
        (write_lines-Written c (seen ++ l ∷ []) ls _ pos (write_line-Written c seen l w pos r))

  kept-length : (c : ℕ) (seen : List J) (w : Writer J) → Written c seen w → length w.kept ≤ c
  kept-length c seen w r = omega (arith, ap length r.newest_seen, length-newest c seen)

  compact-Written :
      (c : ℕ) (seen : List J) (w : Writer J)
      → 0 < c
      → c < 2 ^ 63
      → Written c seen w
      → Written c seen (compact c true w) × (length (compact c true w).file < 2 * c)
  unfolding compact
  compact-Written c seen w pos hi r =
      let size = kept-length c seen w r in
      elim (Bool-cases (leb (compact_at c) w.lines_in_file)) [
        | inl e ↦ rw e (
          record {
            newest_seen = r.newest_seen;
            newest_in_file = sym (newest_short c w.kept size);
            counted = refl;
          },
          omega arith,
        )
        | inr e ↦ rw e (r, ground (arith, r.counted))
      ]

  write_batches-Written :
      (c : ℕ) (seen : List J) (batches : List (List J)) (w : Writer J)
      → 0 < c
      → c < 2 ^ 63
      → Written c seen w
      → length w.file < 2 * c
      → Written c (seen ++ concat batches) (write_batches c batches w)
        × (length (write_batches c batches w).file < 2 * c)
  unfolding write_batch write_batches
  write_batches-Written c seen [] w pos hi r bound = (rw (append-nil seen) r, bound)
  write_batches-Written c seen (b ∷ bs) w pos hi r bound =
      let next = compact-Written c (seen ++ b) _ pos hi (write_lines-Written c seen b w pos r) in
      let rest = write_batches-Written c (seen ++ b) bs _ pos hi next.0 next.1 in
      (
        subst
            (λ s.
              Written c s (write_batches c bs (write_batch c (map (λ l. (l, true)) b) true true w)))
            (append_assoc seen b (concat bs)) rest.0,
        rest.1,
      )

module _ {J V K S F : Type 0} (js : Json J V K S F) where
  ring-load_line :
      (o : Option (HistoryEntry J F)) (ls : List J) (h : HistoryStore J F)
      → ((g : HistoryStore J F) → (load_lines js ls g).ring ≡ g.ring ++ accepted js ls)
      → (load_lines js ls (load_line js o h)).ring ≡ h.ring ++ if_accepted o (accepted js ls)
  ring-load_line none ls h rest = rest (load_line js none h)
  ring-load_line (some x) ls h rest =
      rest (load_line js (some x) h) ∙ append_assoc h.ring (x ∷ []) (accepted js ls)

  ring-load_lines :
      (ls : List J) (h : HistoryStore J F) → (load_lines js ls h).ring ≡ h.ring ++ accepted js ls
  unfolding load_lines accepted
  ring-load_lines [] h = sym (append-nil h.ring)
  ring-load_lines (l ∷ ls) h = ring-load_line (from_json js l) ls h (λ g. ring-load_lines ls g)

  -- A writer that starts on an empty file, and whose writes succeed, leaves after any batches a file
  -- of less than twice the capacity of lines. A store that is opened on it holds exactly those of
  -- the newest `c` lines ever written that are realtime messages.
  pub open_file-write_batches :
      (c : ℕ) (batches : List (List J))
      → 0 < c
      → c < 2 ^ 63
      → let w = write_batches c batches new_writer in
        (length w.file < 2 * c)
        × ((open_file js c (map text w.file)).0.ring ≡ accepted js (newest c (concat batches)))
  unfolding open_file
  open_file-write_batches c batches pos hi =
      let nothing = sym (drop-length {A = J} (0 - c) [] (omega arith)) in
      let (r, bound) =
        write_batches-Written c [] batches new_writer pos hi
          (record { newest_seen = nothing; newest_in_file = nothing; counted = refl })
          (omega arith) in
      let w = write_batches c batches new_writer in
      (
        bound,
        ring-load_lines (read_tail c (map text w.file)).tail _
            ∙ ap (accepted js)
                (read_tail-newest c w.file pos ∙ sym r.newest_in_file ∙ r.newest_seen),
      )
