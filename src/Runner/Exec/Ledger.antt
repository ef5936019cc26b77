-- ===== src/Runner/Exec/Ledger.antt =====
-- What makes a history safe: no message is acknowledged that is not stored somewhere, and the sink is
-- called with cleared envelopes only.
use nats_sinks.Common.{
  ◌≡◌, none, sym, subst, inl, inr, Bool, true, false, List, [], ◌∷◌, ◌++◌, All, Any,
}
use nats_sinks.Envelope.{NatsEnvelope}
use nats_sinks.Metrics.{Update}
use nats_sinks.Runner.Exec.{
  RawMessage, Event, sink_called, committed, write_raised, dlq_published, ack_called,
  ack_sync_called, term_called, nak_called, in_progress_called, metric, History, Exec, Reply,
  Outside, replied, timed_out, type_error, raised, answered, update, update_if, update_all,
}
use nats_sinks.Runner.Exec.Safely.{
  Extends, Safely, Safely-pure, Safely-raise, Safely-emit, Safely-then, AnyResult,
}

pub Any-append : {A : Type 0} (P : A → Type 0) (xs ys : List A) → Any P ys → Any P (xs ++ ys)
Any-append P [] ys h = h
Any-append P (x ∷ xs) ys h = inr (Any-append P xs ys h)

-- The world outside, which envelopes are a message's own, and which may be given to the sink.
pub record Terms : Type 1 where
  pub outside : Outside
  pub derived : RawMessage → NatsEnvelope → Type 0
  pub cleared : NatsEnvelope → Type 0

module _ (terms : Terms) where
  -- The event stores an envelope of the message: in the sink, or as a dead letter.
  abbrev pub Stores : RawMessage → Event → Type 0
  Stores m (committed envelopes) = Any (terms.derived m) envelopes
  Stores m (dlq_published e) = terms.derived m e
  Stores m _ = ⊥

  -- The event stores an envelope of the message as a dead letter.
  abbrev pub Buries : RawMessage → Event → Type 0
  Buries m (dlq_published e) = terms.derived m e
  Buries m _ = ⊥

  abbrev pub Stored : RawMessage → History → Type 0
  Stored m = Any (Stores m)

  abbrev pub Buried : RawMessage → History → Type 0
  Buried m = Any (Buries m)

  -- What the history must hold before the event: an acknowledged message is stored before, a
  -- terminated one is a dead letter before, what the sink is called with is cleared, and a commit
  -- or a dead letter is one that the world outside has answered so.
  abbrev pub Justified : Event → History → Type 0
  Justified (ack_called m) h = Stored m h
  Justified (ack_sync_called m) h = Stored m h
  Justified (term_called m) h = Buried m h
  Justified (sink_called envelopes) h = All terms.cleared envelopes
  Justified (committed envelopes) h = terms.outside.write_batch h envelopes ≡ none
  Justified (dlq_published e) h = terms.outside.publish h e ≡ replied
  Justified _ h = Unit

  -- Every event of the history is justified by what came before it.
  pub Safe : History → Type 0
  Safe [] = Unit
  Safe (e ∷ h) = Justified e h × Safe h

  pub Safe-cons : (e : Event) (h : History) → Justified e h → Safe h → Safe (e ∷ h)
  unfolding Safe
  Safe-cons e h j s = (j, s)

  pub Stored-later : (m : RawMessage) {a b : History} → Extends a b → Stored m a → Stored m b
  Stored-later m {a} x s = subst (Stored m) (sym x.same) (Any-append (Stores m) x.news a s)

  pub Buried-later : (m : RawMessage) {a b : History} → Extends a b → Buried m a → Buried m b
  Buried-later m {a} x s = subst (Buried m) (sym x.same) (Any-append (Buries m) x.news a s)

  pub Buried→Stored : (m : RawMessage) (h : History) → Buried m h → Stored m h
  Buried→Stored m [] b = elim b [ ]
  Buried→Stored m (sink_called _ ∷ h) (inl b) = elim b [ ]
  Buried→Stored m (committed _ ∷ h) (inl b) = elim b [ ]
  Buried→Stored m (write_raised _ ∷ h) (inl b) = elim b [ ]
  Buried→Stored m (ack_called _ ∷ h) (inl b) = elim b [ ]
  Buried→Stored m (ack_sync_called _ ∷ h) (inl b) = elim b [ ]
  Buried→Stored m (term_called _ ∷ h) (inl b) = elim b [ ]
  Buried→Stored m (nak_called _ ∷ h) (inl b) = elim b [ ]
  Buried→Stored m (in_progress_called _ ∷ h) (inl b) = elim b [ ]
  Buried→Stored m (metric _ ∷ h) (inl b) = elim b [ ]
  Buried→Stored m (dlq_published e ∷ h) (inl b) = inl b
  Buried→Stored m (e ∷ h) (inr b) = inr (Buried→Stored m h b)

  -- The action keeps histories safe.
  abbrev pub Keeps : {A : Type 0} → History → Exec A → Type 0
  Keeps start m = Safely Safe start m AnyResult

  module _ {start : History} where
    pub Safely-update : (u : Update) → Safely Safe start (update u) AnyResult
    Safely-update u = Safely-emit (metric u) (λ h x i. Safe-cons (metric u) h tt i)

    pub Safely-update_if : (b : Bool) (u : Update) → Safely Safe start (update_if b u) AnyResult
    Safely-update_if true u = Safely-update u
    Safely-update_if false u = Safely-pure tt

    pub Safely-update_all :
        (updates : List Update) → Safely Safe start (update_all updates) AnyResult
    unfolding update_all
    Safely-update_all [] = Safely-pure tt
    Safely-update_all (u ∷ updates) =
        Safely-then (update u) (λ _. update_all updates) (Safely-update u)
          (λ _. Safely-update_all updates)

    pub Safely-answered : (reply : Reply) → Safely Safe start (answered reply) AnyResult
    Safely-answered replied = Safely-pure tt
    Safely-answered timed_out = Safely-raise _
    Safely-answered type_error = Safely-raise _
    Safely-answered (raised e) = Safely-raise e

  pub Safe-behind : (later earlier : History) → Safe (later ++ earlier) → Safe earlier
  unfolding Safe
  Safe-behind [] earlier s = s
  Safe-behind (l ∷ later) earlier (j, s) = Safe-behind later earlier s

  pub Safe-nil : Safe []
  unfolding Safe
  Safe-nil = tt

  -- In a safe history every event is justified by those before it.
  pub Justified-at :
      (e : Event) (later earlier : History) → Safe (later ++ e ∷ earlier) → Justified e earlier
  unfolding Safe
  Justified-at e [] earlier (j, s) = j
  Justified-at e (l ∷ later) earlier (j, s) = Justified-at e later earlier s
