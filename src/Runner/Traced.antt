-- ===== src/Runner/Traced.antt =====
-- Proofs about core/runner.py: where the envelope of an acknowledged message is.
use nats_sinks.Common.{◌≡◌, refl, ap, subst, ◌⊎◌, inl, inr, List, [], ◌∷◌, ◌++◌, none, Any}
use nats_sinks.Envelope.{NatsEnvelope}
use nats_sinks.Priority.Lossless.{Weighted}
use nats_sinks.Runner.Exec.{
  RawMessage, Event, sink_called, committed, write_raised, dlq_published, ack_called,
  ack_sync_called, term_called, nak_called, in_progress_called, metric, History, Outside,
}
use nats_sinks.Runner.Exec.Ledger.{
  Terms, Stores, Justified, Stored, Safe, Safe-behind, Justified-at,
}
use nats_sinks.Runner.Batch.{Setup}
use nats_sinks.Runner.Batch.Cleared.{delivery_terms, LetsThrough-every}
use nats_sinks.Runner.Batch.Derived.{Derived}
use nats_sinks.Runner.Intake.{Fetch, run_pull}
use nats_sinks.Runner.Intake.Safety.{run_pull-Safe}

-- The event acknowledges the message, plainly or with confirmation.
abbrev pub Acknowledges : RawMessage → Event → Type 0
Acknowledges m event = (event ≡ ack_called m) ⊎ (event ≡ ack_sync_called m)

-- The sink was given the envelope in a batch that it committed.
pub record CommittedIn (outside : Outside) (e : NatsEnvelope) (h : History) : Type 0 where
  pub sent : List NatsEnvelope
  pub newer : History
  pub before : History
  pub same : h ≡ newer ++ committed sent ∷ before
  pub has_envelope : Any (λ x. x ≡ e) sent
  pub returned : outside.write_batch before sent ≡ none

module _ (outside : Outside) (setup : Setup) where
  -- An envelope of the message is a dead letter of the history, or committed in it.
  abbrev pub Traced : RawMessage → History → Type 0
  Traced m h =
      (e : NatsEnvelope) × Derived setup m e
      × (Any (λ event. event ≡ dlq_published e) h ⊎ CommittedIn outside e h)

  -- With every envelope trusted, since what is stored does not hang on that.
  abbrev any_terms : Terms
  any_terms = delivery_terms (λ e. Unit) setup outside

  which :
      {A : Type 0} (P : A → Type 0) (xs : List A) → Any P xs → (x : A) × P x × Any (λ y. y ≡ x) xs
  which P [] h = elim h [ ]
  which P (x ∷ xs) (inl h) = (x, h, inl refl)
  which P (x ∷ xs) (inr h) = let (y, p, found) = which P xs h in (y, p, inr found)

  Traced-now :
      (m : RawMessage) (event : Event) (h : History)
      → Justified any_terms event h
      → Stores any_terms m event
      → Traced m (event ∷ h)
  Traced-now m (committed sent) h returned stores =
      let (e, derived, found) = which (Derived setup m) sent stores in
      (
        e,
        derived,
        inr (record {
          sent = sent;
          newer = [];
          before = h;
          same = refl;
          has_envelope = found;
          returned = returned;
        }),
      )
  Traced-now m (dlq_published e) h said stores = (e, stores, inl (inl refl))
  Traced-now m (sink_called envelopes) h said stores = elim stores [ ]
  Traced-now m (write_raised envelopes) h said stores = elim stores [ ]
  Traced-now m (ack_called n) h said stores = elim stores [ ]
  Traced-now m (ack_sync_called n) h said stores = elim stores [ ]
  Traced-now m (term_called n) h said stores = elim stores [ ]
  Traced-now m (nak_called n) h said stores = elim stores [ ]
  Traced-now m (in_progress_called n) h said stores = elim stores [ ]
  Traced-now m (metric u) h said stores = elim stores [ ]

  Traced-later : (m : RawMessage) (event : Event) (h : History) → Traced m h → Traced m (event ∷ h)
  Traced-later m event h (e, derived, inl buried) = (e, derived, inl (inr buried))
  Traced-later m event h (e, derived, inr c) = (
    e,
    derived,
    inr (record {
      sent = c.sent;
      newer = event ∷ c.newer;
      before = c.before;
      same = ap (λ l. event ∷ l) c.same;
      has_envelope = c.has_envelope;
      returned = c.returned;
    }),
  )

  Stored-Traced :
      (m : RawMessage) (h : History) → Safe any_terms h → Stored any_terms m h → Traced m h
  Stored-Traced m [] safe stored = elim stored [ ]
  Stored-Traced m (event ∷ h) safe (inl now) =
      Traced-now m event h (Justified-at any_terms event [] h safe) now
  Stored-Traced m (event ∷ h) safe (inr before) =
      Traced-later m event h (Stored-Traced m h (Safe-behind any_terms (event ∷ []) h safe) before)

  Acknowledges-Stored :
      (m : RawMessage) (event : Event) (h : History)
      → Acknowledges m event
      → Justified any_terms event h
      → Stored any_terms m h
  Acknowledges-Stored m event h (inl e) j = subst (λ v. Justified any_terms v h) e j
  Acknowledges-Stored m event h (inr e) j = subst (λ v. Justified any_terms v h) e j

  -- Whatever is acknowledged in a pull run is traced behind the acknowledgement.
  pub run_pull-Traced :
      (fetches : List Fetch) (m : RawMessage) (event : Event) (later earlier : History)
      → Weighted setup.priority_lanes.lanes
      → Acknowledges m event
      → (run_pull outside setup fetches []).1 ≡ later ++ event ∷ earlier
      → Traced m earlier
  run_pull-Traced fetches m event later earlier weighted acked split =
      let safe = subst (Safe any_terms) split (
        run_pull-Safe outside setup (λ e. Unit)
          (λ evaluate batch evaluation here returned.
            LetsThrough-every (λ e. Unit) evaluation batch (λ e. tt))
          weighted fetches) in
      Stored-Traced m earlier
        (Safe-behind any_terms (event ∷ []) earlier
          (Safe-behind any_terms later (event ∷ earlier) safe))
        (Acknowledges-Stored m event earlier acked
          (Justified-at any_terms event later earlier safe))
