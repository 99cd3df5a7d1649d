-- ===== src/Sessions/Server.antt =====
-- The sandbox server as a state machine: visitors arrive and sessions end in any order.
use chronus_gateway.Prelude.{
  one_if, ℕ, zero, suc, ◌+◌, ◌%◌, ◌^◌, ◌≤◌, ◌<◌, ◌≡◌, refl, List, [], ◌∷◌, ◌==◌, length, get_or,
  Result, ok, err, arith,
}
use chronus_gateway.Sessions.{ServerConfig, Reject, AppState, new, admit, drop_guard}
use chronus_gateway.Sessions.Counts.{count_of}

-- The state with the addresses of the guards that are alive.
pub record Server : Type 0 where
  pub app : AppState
  pub guards : List ℕ

-- How many guards an address holds.
unfoldable pub held : List ℕ → ℕ → ℕ
held [] ip = 0
held (g ∷ gs) ip = one_if (g == ip) + held gs ip

unfoldable pub without : List ℕ → ℕ → List ℕ
without [] i = []
without (g ∷ gs) zero = gs
without (g ∷ gs) (suc i) = g ∷ without gs i

abbrev pub after_admit : List ℕ → AppState × Result Reject ℕ → Server
after_admit gs (app, ok ip) = record { app = app; guards = ip ∷ gs }
after_admit gs (app, err r) = record { app = app; guards = gs }

-- A visitor arrives from any address; any session ends, by its deadline or by its visitor.
pub data Step : Server → Server → Type 0 where
  visits : (s : Server) (ip : ℕ) → Step s (after_admit s.guards (admit ip s.app))
  leaves :
      (s : Server) (i : ℕ)
      → i < length s.guards
      → Step s
          (record { app = drop_guard (get_or s.guards i 0) s.app; guards = without s.guards i })

pub data Reachable (cfg : ServerConfig) : Server → Type 0 where
  starts : Reachable cfg (record { app = new cfg; guards = [] })
  next : {s t : Server} → Reachable cfg s → Step s t → Reachable cfg t

-- The counters agree with the guards that are alive, and the caps hold.
pub record IsAdmitting (cfg : ServerConfig) (s : Server) : Type 0 where
  pub configured : s.app.cfg ≡ cfg
  pub permits_left : s.app.permits + length s.guards ≡ cfg.max_sessions
  pub active_is : s.app.active ≡ length s.guards % 2 ^ 64
  pub counted : (ip : ℕ) → count_of s.app.counts ip ≡ held s.guards ip
  pub within : (ip : ℕ) → held s.guards ip ≤ cfg.max_per_ip

pub length-without : (gs : List ℕ) (i : ℕ) → i < length gs → length (without gs i) + 1 ≡ length gs
unfolding without
length-without [] i h = absurd (omega arith)
length-without (g ∷ gs) zero h = omega arith
length-without (g ∷ gs) (suc i) h = omega (arith, length-without gs i (omega arith))

pub held-without :
    (gs : List ℕ) (i ip : ℕ)
    → i < length gs
    → held gs ip ≡ one_if (get_or gs i 0 == ip) + held (without gs i) ip
unfolding held without
held-without [] i ip h = absurd (omega arith)
held-without (g ∷ gs) zero ip h = refl
held-without (g ∷ gs) (suc i) ip h = omega (arith, held-without gs i ip (omega arith))
