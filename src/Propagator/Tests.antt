-- ===== src/Propagator/Tests.antt =====
-- Runs of the throttled front-end over the instants of Time/Tests.antt: a state is made of the
-- seconds of its instant, and there is none before the tenth second.
use chronus_gateway.Prelude.{
  ℕ, ◌≡◌, refl, List, [], ◌∷◌, All, Result, ok, err, ltb, if◌then◌else◌, arith,
}
use chronus_gateway.Integers.{◌-ℤ◌}
use chronus_gateway.Validate.{TrackingState, new_tracking_state}
use chronus_gateway.Validate.Tests.{naturals}
use chronus_gateway.Time.Tests.{Instant, chrono}
use chronus_gateway.Propagator.{new_provider, tracking_state}
use chronus_gateway.Propagator.Throttle.{serve, IsAnswer, serve-new_provider}

abbrev state_at : ℕ → TrackingState ℕ
state_at s = new_tracking_state naturals 100 s 900 1

abbrev propagate : Instant → Result ℕ (TrackingState ℕ)
propagate t = if ltb t.secs 10 then err t.secs else ok (state_at t.secs)

abbrev second : ℕ → Instant
second s = record { secs = s; nanos = 0 }

-- The second request is answered from the cache, the third is not, the last fails.
abbrev requests : List Instant
requests = second 20 ∷ second 21 ∷ second 30 ∷ second 5 ∷ []

throttled :
    serve chrono propagate requests (new_provider 2000)
    ≡ (second 20, ok (state_at 20))
      ∷ (second 21, ok (state_at 20))
      ∷ (second 30, ok (state_at 30))
      ∷ (second 5, err 5)
      ∷ []
unfolding serve tracking_state ◌-ℤ◌
throttled = refl

serve-new_provider_example :
    All (IsAnswer chrono propagate 2000) (serve chrono propagate requests (new_provider 2000))
serve-new_provider_example = serve-new_provider chrono propagate 2000 requests (omega arith)
