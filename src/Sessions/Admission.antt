-- ===== src/Sessions/Admission.antt =====
-- What holds in every state that the sandbox server reaches.
use chronus_gateway.Prelude.{
  ℕ, ◌+◌, ◌≤◌, ◌<◌, ◌≡◌, refl, ap, subst, ◌∙◌, Bool, true, false, List, [], ◌∷◌, leb, ◌==◌,
  if◌then◌else◌, length, get_or, Result, ok, err, Bool-cases, inl, inr, arith,
}
use chronus_gateway.Sessions.{
  ServerConfig, Reject, capacity, per_ip, Counts, lookup, insert, unwrap_or, or_insert_zero,
  AppState, new, admit, release, drop_guard,
}
use chronus_gateway.Sessions.Counts.{
  count_of, count_of-insert_self, count_of-insert_ne, count_of-or_insert, count_of-release,
}
use chronus_gateway.Sessions.Server.{
  Server, held, without, after_admit, Step, visits, leaves, Reachable, starts, next, IsAdmitting,
  length-without, held-without,
}

-- The count that `admit` reads is the number of the address's guards.
read_count :
    (cfg : ServerConfig) (s : Server) (ip : ℕ)
    → IsAdmitting cfg s
    → unwrap_or (lookup (or_insert_zero (lookup s.app.counts ip) s.app.counts ip) ip) 0
      ≡ held s.guards ip
read_count cfg s ip a = count_of-or_insert s.app.counts ip ip ∙ a.counted ip

count_after :
    (m : Counts) (gs : List ℕ) (ip : ℕ)
    → ((j : ℕ) → count_of m j ≡ held gs j)
    → (j : ℕ) → count_of (insert m ip (held gs ip + 1)) j ≡ held (ip ∷ gs) j
unfolding held
count_after m gs ip same j = elim (Bool-cases (ip == j)) [
  | inl e ↦
      let there : ip ≡ j = ground arith in
      rw e (
        subst (λ k. count_of (insert m ip (held gs ip + 1)) k ≡ 1 + held gs k) there
          (count_of-insert_self m ip (held gs ip + 1) ∙ omega arith))
  | inr e ↦ rw e (count_of-insert_ne m ip (held gs ip + 1) j (ground arith) ∙ same j ∙ omega arith)
]

held-cons :
    (gs : List ℕ) (ip cap : ℕ)
    → held gs ip < cap
    → ((j : ℕ) → held gs j ≤ cap)
    → (j : ℕ) → held (ip ∷ gs) j ≤ cap
unfolding held
held-cons gs ip cap room within j = elim (Bool-cases (ip == j)) [
  | inl e ↦
      let there : ip ≡ j = ground arith in
      rw e (subst (λ k. 1 + held gs k ≤ cap) there (omega arith))
  | inr e ↦ rw e (omega (arith, within j))
]

-- What `admit` answers, in terms of the guards that are alive.
pub record Answer (cfg : ServerConfig) (s : Server) (ip : ℕ) : Type 0 where
  pub server_full : length s.guards ≡ cfg.max_sessions → (admit ip s.app).1 ≡ err capacity
  pub share_used :
      length s.guards < cfg.max_sessions
      → cfg.max_per_ip ≤ held s.guards ip
      → (admit ip s.app).1 ≡ err per_ip
  pub admitted :
      length s.guards < cfg.max_sessions
      → held s.guards ip < cfg.max_per_ip
      → (admit ip s.app).1 ≡ ok ip

admit-Answer : (cfg : ServerConfig) (s : Server) (ip : ℕ) → IsAdmitting cfg s → Answer cfg s ip
unfolding admit
admit-Answer cfg s ip a =
    let n = read_count cfg s ip a in
    let cap = ap (λ (c : ServerConfig). c.max_per_ip) a.configured in
    record {
      server_full = λ h.
          let none_left : (s.app.permits == 0) ≡ true = ground (arith, a.permits_left) in
          rw none_left refl;
      share_used = λ h used.
          let some_left : (s.app.permits == 0) ≡ false = ground (arith, a.permits_left) in
          let over : leb cfg.max_per_ip (held s.guards ip) ≡ true = ground arith in
          rw (some_left, n, cap, over) refl;
      admitted = λ h room.
          let some_left : (s.app.permits == 0) ≡ false = ground (arith, a.permits_left) in
          let under : leb cfg.max_per_ip (held s.guards ip) ≡ false = ground arith in
          rw (some_left, n, cap, under) refl;
    }

-- A refused visitor changes at most an entry of count zero.
refused-IsAdmitting :
    (cfg : ServerConfig) (s : Server) (ip : ℕ)
    → IsAdmitting cfg s
    → IsAdmitting cfg (record s {
      app = record s.app { counts = or_insert_zero (lookup s.app.counts ip) s.app.counts ip };
    })
refused-IsAdmitting cfg s ip a = record {
  configured = a.configured;
  permits_left = a.permits_left;
  active_is = a.active_is;
  counted = λ j. count_of-or_insert s.app.counts ip j ∙ a.counted j;
  within = a.within;
}

if-IsAdmitting :
    (cfg : ServerConfig) (gs : List ℕ) (b : Bool) (x y : AppState × Result Reject ℕ)
    → (b ≡ true → IsAdmitting cfg (after_admit gs x))
    → (b ≡ false → IsAdmitting cfg (after_admit gs y))
    → IsAdmitting cfg (after_admit gs (if b then x else y))
if-IsAdmitting cfg gs true x y p q = p refl
if-IsAdmitting cfg gs false x y p q = q refl

admit-IsAdmitting :
    (cfg : ServerConfig) (s : Server) (ip : ℕ)
    → IsAdmitting cfg s
    → IsAdmitting cfg (after_admit s.guards (admit ip s.app))
unfolding admit
admit-IsAdmitting cfg s ip a =
    let m = or_insert_zero (lookup s.app.counts ip) s.app.counts ip in
    let n = unwrap_or (lookup m ip) 0 in
    let same = read_count cfg s ip a in
    let cap = ap (λ (c : ServerConfig). c.max_per_ip) a.configured in
    if-IsAdmitting cfg s.guards (s.app.permits == 0) _ _ (λ full. a)
      (λ free.
        if-IsAdmitting cfg s.guards (leb s.app.cfg.max_per_ip n) _ _
          (λ used. refused-IsAdmitting cfg s ip a)
          (λ room.
            let below : held s.guards ip < cfg.max_per_ip = ground (arith, same, cap) in
            record {
              configured = a.configured;
              permits_left = ground (arith, a.permits_left);
              active_is = omega (arith, a.active_is);
              counted = λ j. rw same (
                  count_after m s.guards ip
                    (λ k. count_of-or_insert s.app.counts ip k ∙ a.counted k) j);
              within = held-cons s.guards ip cfg.max_per_ip below a.within;
            }))

leave-IsAdmitting :
    (cfg : ServerConfig) (s : Server) (i : ℕ)
    → i < length s.guards
    → IsAdmitting cfg s
    → IsAdmitting cfg
        (record { app = drop_guard (get_or s.guards i 0) s.app; guards = without s.guards i })
unfolding drop_guard
leave-IsAdmitting cfg s i h a =
    let ip = get_or s.guards i 0 in
    let size = length-without s.guards i h in
    let rel = count_of-release s.app.counts ip in
    record {
      configured = a.configured;
      permits_left = omega (arith, a.permits_left, size);
      active_is = omega (arith, a.active_is, size);
      counted = λ j. elim (Bool-cases (ip == j)) [
        | inl e ↦
            let there : ip ≡ j = ground arith in
            subst
              (λ k.
                count_of (release (lookup s.app.counts ip) s.app.counts ip) k
                ≡ held (without s.guards i) k)
              there (rel.0 ∙ ground (arith, a.counted ip, held-without s.guards i ip h))
        | inr e ↦
            rel.1 j (ground arith)
            ∙ a.counted j
            ∙ held-without s.guards i j h
            ∙ (rw e (omega arith))
      ];
      within = λ j. omega (arith, held-without s.guards i j h, a.within j);
    }

Step-IsAdmitting :
    (cfg : ServerConfig) {s t : Server} → Step s t → IsAdmitting cfg s → IsAdmitting cfg t
Step-IsAdmitting cfg (visits s ip) a = admit-IsAdmitting cfg s ip a
Step-IsAdmitting cfg (leaves s i h) a = leave-IsAdmitting cfg s i h a

new-IsAdmitting : (cfg : ServerConfig) → IsAdmitting cfg (record { app = new cfg; guards = [] })
unfolding lookup held
new-IsAdmitting cfg = record {
  configured = refl;
  permits_left = omega arith;
  active_is = refl;
  counted = λ ip. refl;
  within = λ ip. omega arith;
}

-- In whatever order visitors arrive and sessions end, the free permits and the live guards add up
-- to the session cap, the counter of active sessions is the number of guards modulo 2^64, each
-- address's count is the number of its guards, and no address holds more than its cap.
pub Reachable-IsAdmitting : (cfg : ServerConfig) {s : Server} → Reachable cfg s → IsAdmitting cfg s
Reachable-IsAdmitting cfg starts = new-IsAdmitting cfg
Reachable-IsAdmitting cfg (next r st) = Step-IsAdmitting cfg st (Reachable-IsAdmitting cfg r)

-- In every state that the server reaches, a visitor is told `Capacity` when as many sessions as the
-- cap are alive, `PerIp` when there is room but its address holds its share, and is admitted when
-- neither is the case.
pub Reachable-Answer :
    (cfg : ServerConfig) {s : Server} (ip : ℕ) → Reachable cfg s → Answer cfg s ip
Reachable-Answer cfg {s} ip r = admit-Answer cfg s ip (Reachable-IsAdmitting cfg r)
