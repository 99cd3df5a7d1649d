-- ===== src/Sessions/Commands.antt =====
-- The command rate limit of `run_session`.
use chronus_gateway.Prelude.{
  ℕ, ◌+◌, ◌-◌, ◌*◌, ◌/◌, ◌%◌, ◌^◌, ◌≤◌, ◌<◌, ◌≡◌, List, [], ◌∷◌, leb, length, min, Bool-cases, inl,
  inr, arith,
}
use chronus_gateway.Sessions.{Limiter, on_text, commands_read}

-- The times do not decrease from `lo` on, and end at `end` at the latest.
abbrev pub IsOrdered : ℕ → List ℕ → ℕ → Type 0
IsOrdered lo [] end = lo ≤ end
IsOrdered lo (t ∷ ts) end = (lo ≤ t) × IsOrdered t ts end

IsOrdered-le : (lo : ℕ) (ts : List ℕ) (end : ℕ) → IsOrdered lo ts end → lo ≤ end
IsOrdered-le lo [] end o = o
IsOrdered-le lo (t ∷ ts) end o = omega (arith, IsOrdered-le t ts end o.1)

-- The commands that are still read, with those already read in the window.
read_bound :
    (lo : ℕ) (ts : List ℕ) (end : ℕ) (l : Limiter)
    → IsOrdered lo ts end
    → l.cmd_window ≤ lo
    → l.cmd_count + length ts < 2 ^ 32
    → commands_read ts l + min l.cmd_count 10 ≤ 10 * ((end - l.cmd_window) / 1000 + 1)
unfolding commands_read on_text
read_bound lo [] end l o w small = omega arith
read_bound lo (t ∷ ts) end l o w small =
    let later = IsOrdered-le t ts end o.1 in
    elim (Bool-cases (leb 1000 (t - l.cmd_window))) [
      | inl over ↦ rw over (
          let rest =
            read_bound t ts end (record { cmd_window = t; cmd_count = 1 }) o.1 (omega arith)
              (omega arith) in
          ground arith)
      | inr inside ↦ rw inside (
          let count : (l.cmd_count + 1) % 2 ^ 32 ≡ l.cmd_count + 1 = omega arith in
          let rest =
            read_bound t ts end (record l { cmd_count = l.cmd_count + 1 }) o.1 (omega arith)
              (omega arith) in
          rw count (ground arith))
    ]

-- However many messages a visitor sends, at most ten commands are read for each second that has
-- begun since the session opened, as long as fewer than 2^32 messages arrive in all.
pub commands_read-le :
    (opened : ℕ) (ts : List ℕ) (end : ℕ)
    → IsOrdered opened ts end
    → length ts < 2 ^ 32
    → commands_read ts (record { cmd_window = opened; cmd_count = 0 })
      ≤ 10 * ((end - opened) / 1000 + 1)
commands_read-le opened ts end o small =
    let all =
      read_bound opened ts end (record { cmd_window = opened; cmd_count = 0 }) o (omega arith)
        (omega arith) in
    omega arith
