-- ===== src/Rf/Tests.antt =====
-- Runs of the RF side channel and its properties on small stores; numbers stand for f64.
use chronus_gateway.Prelude.{
  ℕ, zero, suc, ◌*◌, ltb, Option, err, ◌≡◌, refl, true, none, some, List, [], ◌∷◌, max, newest,
  Result, ok,
}
use chronus_gateway.Integers.{ℤ, pos, negsuc}
use chronus_gateway.Words.{Bytes}
use chronus_gateway.Rf.{
  RfSampleV1, RfWire, Serde, RfMetadata, RfConfig, Entry, RfStore, new, insert, lookup, nearest,
  parse, to_datagram, finite_part,
}
use chronus_gateway.Rf.Finite.{Stored, IfSome, ingest_all, ingest_all-IsSound}
use chronus_gateway.Rf.Store.{insert_all, entries-insert_all}
use chronus_gateway.Rf.Nearest.{Answers, lookup-Answers}

abbrev empty_sample : RfSampleV1 ℕ
empty_sample = record { t = none; carrier = none; rx_power = none; az = none; el = none }

-- A stand-in for the JSON text: a flag and a number for each field.
abbrev flag : Option ℕ → ℕ
flag none = 0
flag (some x) = 1

abbrev number : Option ℕ → ℕ
number none = 0
number (some x) = x

abbrev optional : ℕ → ℕ → Option ℕ
optional zero x = none
optional (suc n) x = some x

abbrev time_flag : Option ℤ → ℕ
time_flag none = 0
time_flag (some (pos n)) = 1
time_flag (some (negsuc n)) = 2

abbrev time_number : Option ℤ → ℕ
time_number none = 0
time_number (some (pos n)) = n
time_number (some (negsuc n)) = n

abbrev optional_time : ℕ → ℕ → Option ℤ
optional_time zero x = none
optional_time (suc zero) x = some (pos x)
optional_time (suc (suc n)) x = some (negsuc x)

abbrev write : RfWire (Unit {0}) ℕ → Bytes
write w =
    let s = w.sample in
    time_flag s.t
    ∷ time_number s.t
    ∷ flag s.carrier
    ∷ number s.carrier
    ∷ flag s.rx_power
    ∷ number s.rx_power
    ∷ flag s.az
    ∷ number s.az
    ∷ flag s.el
    ∷ number s.el
    ∷ []

abbrev read : Bytes → Result (Unit {0}) (RfWire (Unit {0}) ℕ)
read (a ∷ b ∷ c ∷ d ∷ e ∷ f ∷ g ∷ h ∷ i ∷ j ∷ _) = ok (record {
  chronus_schema = tt;
  sample = record {
    t = optional_time a b;
    carrier = optional c d;
    rx_power = optional e f;
    az = optional g h;
    el = optional i j;
  };
})
read _ = err tt

abbrev plain : Serde (Unit {0}) (Unit {0}) ℕ
plain = record {
  from_slice = read;
  to_vec = write;
  rf_schema_v1 = tt;
  same_schema = λ a b. true;
  is_finite = λ x. ltb x 1000;
}

abbrev sample : RfSampleV1 ℕ
sample = record empty_sample { carrier = some 437; az = some 2000 }

abbrev config : RfConfig
config = record { bound = true; window_ms = 250; capacity = 2 }

-- A sample, one with a number that is not finite, and one with half a direction.
abbrev arrived : List (Bytes × ℤ)
arrived =
    (write (record { chronus_schema = tt; sample = sample }), pos 10)
    ∷ (write (record { chronus_schema = tt; sample = record sample { el = some 45 } }), pos 20)
    ∷ (
      write (record { chronus_schema = tt; sample = record empty_sample { az = some 90 } }),
      pos 30,
    )
    ∷ []

sent_back : parse plain (to_datagram plain sample) ≡ ok (finite_part plain sample)
unfolding parse to_datagram
sent_back = refl

ingest_all-IsSound_example :
    Stored plain (ingest_all plain arrived (new config))
    × IfSome plain (lookup (pos 25) (ingest_all plain arrived (new config))).1
ingest_all-IsSound_example = ingest_all-IsSound plain config arrived (pos 25)

abbrev meta : ℕ → RfMetadata ℕ
meta n = record {
  measured_carrier_hz = some n;
  measured_rx_power_dbm = none;
  measured_azimuth_deg = none;
  measured_elevation_deg = none;
}

abbrev at : ℕ → Entry ℕ
at n = record { t = pos (n * 1000000); meta = meta n }

abbrev samples : List (Entry ℕ)
samples = at 100 ∷ at 300 ∷ at 500 ∷ []

abbrev filled : RfStore ℕ
unfolding insert_all insert
filled = insert_all samples (new config)

lookup_runs : (lookup (pos 390000000) filled).1 ≡ some (meta 300)
unfolding lookup nearest filled insert_all insert
lookup_runs = refl

entries-insert_all_example : (insert_all samples (new config)).entries ≡ newest (max 2 1) samples
entries-insert_all_example = entries-insert_all config samples

filled-enabled : filled.enabled ≡ true
unfolding filled insert_all insert
filled-enabled = refl

lookup-Answers_example :
    Answers (pos 390000000) filled (lookup (pos 390000000) filled).1
    × ((lookup (pos 390000000) filled).0.entries ≡ filled.entries)
lookup-Answers_example = lookup-Answers (pos 390000000) filled filled-enabled
