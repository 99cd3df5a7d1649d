-- ===== src/Sessions.antt =====
-- Admission to the sandbox of crates/chronus-demo-server/src/server.rs: the caps on sessions, the
-- origin check and the command rate limit. Addresses and origins are numbers; locks are not
-- poisoned, since no holder panics.
pub mod Counts
pub mod Server
pub mod Admission
pub mod Commands
pub mod Tests
use chronus_gateway.Prelude.{
  ℕ, zero, suc, ◌+◌, ◌-◌, ◌%◌, ◌^◌, ◌≤◌, ◌<◌, Bool, true, false, ◌||◌, ◌&&◌, Option, none, some,
  List, [], ◌∷◌, ◌++◌, ltb, leb, ◌==◌, if◌then◌else◌, length, get_or, Result, ok, err,
}
use chronus_gateway.Words.{fetch_add}

-- The part of the configuration that admission reads.
pub record ServerConfig : Type 0 where
  pub allowed_origins : List ℕ
  pub max_sessions : ℕ
  pub max_per_ip : ℕ
  pub trust_fly_header : Bool

pub data Reject : Type 0 where
  capacity : Reject
  per_ip : Reject

-- `HashMap<IpAddr, usize>`, one pair for an address.
abbrev pub Counts : Type 0
Counts = List (ℕ × ℕ)

unfoldable pub lookup : Counts → ℕ → Option ℕ
lookup [] ip = none
lookup ((k, n) ∷ m) ip = if k == ip then some n else lookup m ip

unfoldable pub insert : Counts → ℕ → ℕ → Counts
insert [] ip n = (ip, n) ∷ []
insert ((k, o) ∷ m) ip n = if k == ip then (k, n) ∷ m else (k, o) ∷ insert m ip n

unfoldable pub remove : Counts → ℕ → Counts
remove [] ip = []
remove ((k, n) ∷ m) ip = if k == ip then remove m ip else (k, n) ∷ remove m ip

abbrev pub unwrap_or : Option ℕ → ℕ → ℕ
unwrap_or none d = d
unwrap_or (some n) d = n

-- `m.entry(ip).or_insert(0)`.
abbrev pub or_insert_zero : Option ℕ → Counts → ℕ → Counts
or_insert_zero none m ip = insert m ip 0
or_insert_zero (some n) m ip = m

-- `permits` counts the free permits of the semaphore.
pub record AppState : Type 0 where
  pub cfg : ServerConfig
  pub permits : ℕ
  pub counts : Counts
  pub active : ℕ
  pub total : ℕ

abbrev pub new : ServerConfig → AppState
new cfg = record { cfg = cfg; permits = cfg.max_sessions; counts = []; active = 0; total = 0 }

-- A guard holds its address and its permit; a permit that is not kept goes back at the return.
unfoldable pub admit : ℕ → AppState → AppState × Result Reject ℕ
admit ip app =
    let m = or_insert_zero (lookup app.counts ip) app.counts ip in
    let n = unwrap_or (lookup m ip) 0 in
    if app.permits == 0
    then (app, err capacity)
    else if leb app.cfg.max_per_ip n
    then (record app { counts = m }, err per_ip)
    else (
      record app {
        permits = app.permits - 1;
        counts = insert m ip (n + 1);
        active = fetch_add app.active 1;
        total = fetch_add app.total 1;
      },
      ok ip,
    )

-- The count of the guard's address, given what `get_mut` finds.
abbrev pub release : Option ℕ → Counts → ℕ → Counts
release none m ip = m
release (some n) m ip = if n - 1 == 0 then remove m ip else insert m ip (n - 1)

-- `SessionGuard::drop`, and the permit that the guard gives back.
unfoldable pub drop_guard : ℕ → AppState → AppState
drop_guard ip app = record app {
  permits = app.permits + 1;
  counts = release (lookup app.counts ip) app.counts ip;
  active = fetch_add app.active (2 ^ 64 - 1);
}

abbrev pub contains_origin : List ℕ → ℕ → Bool
contains_origin [] o = false
contains_origin (a ∷ rest) o = a == o || contains_origin rest o

-- `normalize` is the trim and the lower case of the source.
unfoldable pub origin_allowed : (ℕ → ℕ) → List ℕ → Option ℕ → Bool
origin_allowed normalize [] origin = true
origin_allowed normalize (a ∷ rest) none = false
origin_allowed normalize (a ∷ rest) (some o) = contains_origin (a ∷ rest) (normalize o)

-- The address in the header, where it is there and can be parsed, and the peer's.
unfoldable pub client_ip : ServerConfig → Option ℕ → ℕ → ℕ
client_ip cfg header peer = if cfg.trust_fly_header then unwrap_or header peer else peer

pub data Response : Type 0 where
  forbidden : Response
  service_unavailable : Response
  too_many_requests : Response
  upgrade : (ip : ℕ) → Response

abbrev pub respond : Result Reject ℕ → Response
respond (ok ip) = upgrade ip
respond (err capacity) = service_unavailable
respond (err per_ip) = too_many_requests

unfoldable pub sandbox_ws :
    (ℕ → ℕ) → (origin header : Option ℕ) → (peer : ℕ) → AppState → AppState × Response
sandbox_ws normalize origin header peer app =
    let (app', r) = admit (client_ip app.cfg header peer) app in
    if origin_allowed normalize app.cfg.allowed_origins origin
    then (app', respond r)
    else (app, forbidden)

-- `cmd_window`, in milliseconds, and `cmd_count`.
pub record Limiter : Type 0 where
  pub cmd_window : ℕ
  pub cmd_count : ℕ

abbrev pub max_commands_per_sec : ℕ
max_commands_per_sec = 10

abbrev pub open_window : ℕ → Limiter → Limiter
open_window now l =
    if leb 1000 (now - l.cmd_window) then record { cmd_window = now; cmd_count = 0 } else l

-- A text message at `now`: the new limiter, and whether the command is read.
unfoldable pub on_text : ℕ → Limiter → Limiter × Bool
on_text now l =
    let w = open_window now l in
    let count = (w.cmd_count + 1) % 2 ^ 32 in
    (record w { cmd_count = count }, leb count max_commands_per_sec)

-- How many of the commands that arrive at these times are read.
unfoldable pub commands_read : List ℕ → Limiter → ℕ
commands_read [] l = 0
commands_read (t ∷ ts) l =
    let (l', good) = on_text t l in
    let rest = commands_read ts l' in if good then suc rest else rest
