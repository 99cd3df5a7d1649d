-- ===== src/Propagator/Throttle.antt =====
-- What the cache of the throttled front-end may answer.
use chronus_gateway.Prelude.{
  ℕ, ◌^◌, ◌<◌, ◌≡◌, refl, ap, ap₂, sym, ◌∙◌, true, false, ◌⊎◌, inl, inr, Option, none, some, List,
  [], ◌∷◌, map, All, Result, ok, err, Bool-cases, arith,
}
use chronus_gateway.Integers.{pos, distance}
use chronus_gateway.Time.{Chrono}
use chronus_gateway.Validate.{TrackingState}
use chronus_gateway.Propagator.{
  TrackingProvider, new_provider, is_fresh, store, request, tracking_state,
}

module _ {T F X : Type 0} (ch : Chrono T) (propagate : T → Result X (TrackingState F)) where
  -- The answers of a provider to the requests, in order.
  unfoldable pub serve : List T → TrackingProvider T F → List (T × Result X (TrackingState F))
  serve [] p = []
  serve (t ∷ ts) p = let (p', answer) = tracking_state ch propagate t p in (t, answer) ∷ serve ts p'

  -- The state was propagated to `at`, and `at` is the instant asked for or less than
  -- `interval` milliseconds from it; an error is the propagator's at the instant asked for.
  abbrev pub IsAnswer : ℕ → T × Result X (TrackingState F) → Type 0
  IsAnswer interval (time, ok state) =
      (at : T) × (propagate at ≡ ok state)
      × ((at ≡ time) ⊎ (distance (ch.milliseconds_between time at) (pos 0) < interval))
  IsAnswer interval (time, err e) = propagate time ≡ err e

  -- What is cached was propagated.
  abbrev pub IsCache : Option (T × TrackingState F) → Type 0
  IsCache none = Unit
  IsCache (some (at, state)) = propagate at ≡ ok state

  -- A provider with this interval and a cache of propagated states.
  pub record IsProvider (interval : ℕ) (p : TrackingProvider T F) : Type 0 where
    pub interval_is : p.min_interval_ms ≡ pos interval
    pub cached : IsCache p.last

  store_sound :
      (interval : ℕ) (time : T) (p : TrackingProvider T F) (r : Result X (TrackingState F))
      → propagate time ≡ r
      → IsProvider interval p
      → let (p', answer) = store time p r in
        IsProvider interval p' × IsAnswer interval (time, answer)
  store_sound interval time p (ok state) e h =
      (record { interval_is = h.interval_is; cached = e }, (time, e, inl refl))
  store_sound interval time p (err _) e h = (h, e)

  is_fresh-lt :
      (interval : ℕ) (time at : T)
      → is_fresh ch (pos interval) time at ≡ true
      → distance (ch.milliseconds_between time at) (pos 0) < interval
  is_fresh-lt interval time at h = ground arith

  request_sound :
      (interval : ℕ) (time : T) (p : TrackingProvider T F) (last : Option (T × TrackingState F))
      → IsProvider interval p
      → IsCache last
      → let r = request ch propagate time p last in
        IsProvider interval r.0 × IsAnswer interval (time, r.1)
  request_sound interval time p none h _ = store_sound interval time p (propagate time) refl h
  request_sound interval time p (some (at, state)) h cached =
      elim (Bool-cases (is_fresh ch p.min_interval_ms time at)) [
        | inl fresh ↦ rw fresh (
            let near = sym (ap (λ m. is_fresh ch m time at) h.interval_is) ∙ fresh in
            (h, (at, cached, inr (is_fresh-lt interval time at near))))
        | inr stale ↦ rw stale (store_sound interval time p (propagate time) refl h)
      ]

  tracking_state_sound :
      (interval : ℕ) (time : T) (p : TrackingProvider T F)
      → IsProvider interval p
      → let r = tracking_state ch propagate time p in
        IsProvider interval r.0 × IsAnswer interval (time, r.1)
  unfolding tracking_state
  tracking_state_sound interval time p h = request_sound interval time p p.last h h.cached

  serve_sound :
      (interval : ℕ) (times : List T) (p : TrackingProvider T F)
      → IsProvider interval p
      → All (IsAnswer interval) (serve times p)
  unfolding serve
  serve_sound interval [] p h = tt
  serve_sound interval (t ∷ ts) p h =
      let (next, answer) = tracking_state_sound interval t p h in
      (answer, serve_sound interval ts (tracking_state ch propagate t p).0 next)

  -- From a new provider with an interval below 2^63 milliseconds, whatever instants are asked for
  -- and in whatever order, every state answered was propagated to an instant that is the one asked
  -- for or less than the interval from it, and every error is the propagator's own there.
  pub serve-new_provider :
      (interval : ℕ) (times : List T)
      → interval < 2 ^ 63
      → All (IsAnswer interval) (serve times (new_provider interval))
  serve-new_provider interval times h =
      serve_sound interval times (new_provider interval)
        (record { interval_is = ground arith; cached = tt })

  store_answer :
      (time : T) (p : TrackingProvider T F) (r : Result X (TrackingState F))
      → ((store time p r).1 ≡ r) × ((store time p r).0.min_interval_ms ≡ p.min_interval_ms)
  store_answer time p (ok state) = (refl, refl)
  store_answer time p (err e) = (refl, refl)

  is_fresh-zero : (time at : T) → is_fresh ch (pos 0) time at ≡ false
  is_fresh-zero time at = ground arith

  request-zero :
      (time : T) (p : TrackingProvider T F) (last : Option (T × TrackingState F))
      → p.min_interval_ms ≡ pos 0
      → request ch propagate time p last ≡ store time p (propagate time)
  request-zero time p none h = refl
  request-zero time p (some (at, state)) h =
      let stale = ap (λ m. is_fresh ch m time at) h ∙ is_fresh-zero time at in rw stale refl

  -- With the interval zero the provider, whatever it has cached, answers as the propagator does.
  pub serve-zero :
      (times : List T) (p : TrackingProvider T F)
      → p.min_interval_ms ≡ pos 0
      → serve times p ≡ map (λ t. (t, propagate t)) times
  unfolding serve tracking_state
  serve-zero [] p h = refl
  serve-zero (t ∷ ts) p h =
      let direct = request-zero t p p.last h in
      let (answer, interval) = store_answer t p (propagate t) in
      ap₂ (λ r rest. (t, r) ∷ rest) (ap (λ r. r.1) direct ∙ answer)
        (serve-zero ts (request ch propagate t p p.last).0
          (ap (λ r. r.0.min_interval_ms) direct ∙ interval ∙ h))
