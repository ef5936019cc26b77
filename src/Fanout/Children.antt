-- ===== src/Fanout/Children.antt =====
-- core/fanout_sink.py: the life cycle of the child sinks, with the proofs about it. What a child's
-- call does is a parameter: nothing, or the error that it raises.
use nats_sinks.Common.{
  ◌≡◌, refl, ap, ◌⊎◌, ◌↔◌, All, inl, inr, List, [], ◌∷◌, ◌++◌, map, Option, none, some, String,
  sorted_texts,
}
use nats_sinks.Errors.{Error, temporary_sink_error, Result, ok, err}

pub record ChildCalls : Type 0 where
  pub start : String → Option Error
  pub stop : String → Option Error
  -- `none` for a child without the optional protocol.
  pub healthcheck : String → Option (Option Error)
  pub ensure_schema : String → Option (Option Error)
  pub flush : String → Option (Option Error)

-- What happened to the children, the oldest first.
pub data ChildEvent : Type 0 where
  start_returned start_raised stop_called : String → ChildEvent

-- `reversed(names)`, in front of `rest`.
abbrev pub reversed_onto : List String → List String → List String
reversed_onto [] rest = rest
reversed_onto (name ∷ names) rest = reversed_onto names (name ∷ rest)

abbrev pub stops : List String → List ChildEvent
stops names = map stop_called names

module _ (calls : ChildCalls) where
  -- The loop of `start`; `started` are the names that were started so far, the newest first.
  abbrev pub after_start :
      Option Error
      → String
      → List String
      → Result (Unit {0}) × List ChildEvent
      → Result (Unit {0}) × List ChildEvent
  after_start none name started (result, events) = (result, start_returned name ∷ events)
  after_start (some e) name started later = (err e, start_raised name ∷ stops started)

  unfoldable pub start_from : List String → List String → Result (Unit {0}) × List ChildEvent
  start_from started [] = (ok tt, [])
  start_from started (name ∷ names) =
      after_start (calls.start name) name started (start_from (name ∷ started) names)

  unfoldable pub start : List String → Result (Unit {0}) × List ChildEvent
  start children = start_from [] (sorted_texts children)

  -- `stop` calls every child and keeps the first error.
  abbrev pub first_error : Option Error → Result (Unit {0}) → Result (Unit {0})
  first_error none later = later
  first_error (some e) later = err temporary_sink_error

  unfoldable pub stop_each : List String → Result (Unit {0}) × List ChildEvent
  stop_each [] = (ok tt, [])
  stop_each (name ∷ names) =
      let later = stop_each names in
      (first_error (calls.stop name) later.0, stop_called name ∷ later.1)

  unfoldable pub stop : List String → Result (Unit {0}) × List ChildEvent
  stop children = stop_each (reversed_onto (sorted_texts children) [])

  -- The loops over the optional protocols end at the first error.
  abbrev pub after_optional : Option (Option Error) → Result (Unit {0}) → Result (Unit {0})
  after_optional none later = later
  after_optional (some none) later = later
  after_optional (some (some e)) later = err e

  abbrev pub after_healthcheck : Option (Option Error) → Result (Unit {0}) → Result (Unit {0})
  after_healthcheck (some (some e)) later = err temporary_sink_error
  after_healthcheck _ later = later

  abbrev pub healthcheck_each : List String → Result (Unit {0})
  healthcheck_each [] = ok tt
  healthcheck_each (name ∷ names) =
      after_healthcheck (calls.healthcheck name) (healthcheck_each names)

  pub healthcheck : List String → Result (Unit {0})
  healthcheck children = healthcheck_each (sorted_texts children)

  pub ensure_schema : List String → Result (Unit {0})
  ensure_schema [] = ok tt
  ensure_schema (name ∷ names) = after_optional (calls.ensure_schema name) (ensure_schema names)

  pub flush : List String → Result (Unit {0})
  flush [] = ok tt
  flush (name ∷ names) = after_optional (calls.flush name) (flush names)

  -- Either every child started, or one raised; then no child after it was started, and those before
  -- it were stopped, the newest first.
  pub data Starts (names started : List String) : Result (Unit {0}) × List ChildEvent → Type 0 where
    all_started : Starts names started (ok tt, map start_returned names)
    rolled_back :
        (before : List String) (name : String) (after : List String) (e : Error)
        → names ≡ before ++ name ∷ after
        → calls.start name ≡ some e
        → Starts names started (
          err e,
          map start_returned before ++ start_raised name ∷ stops (reversed_onto before started),
        )

  start_from-Starts :
      (started names : List String) → Starts names started (start_from started names)
  unfolding start_from
  start_from-Starts started [] = all_started
  start_from-Starts started (name ∷ names) =
      step (calls.start name) refl (start_from (name ∷ started) names)
        (start_from-Starts (name ∷ started) names)
    where
      step :
          (found : Option Error)
          → calls.start name ≡ found
          → (later : Result (Unit {0}) × List ChildEvent) → Starts names (name ∷ started) later
          → Starts (name ∷ names) started (after_start found name started later)
      step (some e) f later l = rolled_back [] name names e refl f
      step none f _ all_started = all_started
      step none f _ (rolled_back before failing after e same g) =
          rolled_back (name ∷ before) failing after e (ap (◌∷◌ name) same) g

  -- Starting calls the children in the order of their names. It returns when all have started, or
  -- else raises the error of the first child that fails, after which no other child is started and
  -- all that had started are stopped, the newest first.
  pub start-Starts : (children : List String) → Starts (sorted_texts children) [] (start children)
  unfolding start
  start-Starts children = start_from-Starts [] (sorted_texts children)

  stop_each-all :
      (names : List String)
      → ((stop_each names).1 ≡ stops names)
        × (((stop_each names).0 ≡ ok tt) ⊎ ((stop_each names).0 ≡ err temporary_sink_error))
        × ((stop_each names).0 ≡ ok tt ↔ All (λ name. calls.stop name ≡ none) names)
  unfolding stop_each
  stop_each-all [] = (refl, inl refl, (λ _. tt, λ _. refl))
  stop_each-all (name ∷ names) =
      let (called, result, iff) = stop_each-all names in
      let (result', iff') = step (calls.stop name) refl result iff in
      (ap (◌∷◌ (stop_called name)) called, result', iff')
    where
      step :
          (found : Option Error)
          → calls.stop name ≡ found
          → {later : Result (Unit {0})} → (later ≡ ok tt) ⊎ (later ≡ err temporary_sink_error)
          → (later ≡ ok tt ↔ All (λ name. calls.stop name ≡ none) names)
          → ((first_error found later ≡ ok tt)
              ⊎ (first_error found later ≡ err temporary_sink_error))
            × (first_error found later ≡ ok tt
                ↔ All (λ name. calls.stop name ≡ none) (name ∷ names))
      step none f result (to, from) = (result, ((λ h. (f, to h)), λ (a, as'). from as'))
      step (some e) f result iff = (inr refl, ((λ h. cc), λ (a, as'). cc))

  -- Stopping calls every child, in the reverse order of their names, whichever of them raise; it
  -- returns if none raised, and else raises a temporary error.
  pub stop-all :
      (children : List String)
      → ((stop children).1 ≡ stops (reversed_onto (sorted_texts children) []))
        × (((stop children).0 ≡ ok tt) ⊎ ((stop children).0 ≡ err temporary_sink_error))
        × ((stop children).0 ≡ ok tt
            ↔ All (λ name. calls.stop name ≡ none) (reversed_onto (sorted_texts children) []))
  unfolding stop
  stop-all children = stop_each-all (reversed_onto (sorted_texts children) [])
