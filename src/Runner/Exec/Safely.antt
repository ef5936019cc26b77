-- ===== src/Runner/Exec/Safely.antt =====
-- Rules for what an action keeps and ensures, whether it returns or raises.
use nats_sinks.Common.{
  ◌≡◌, refl, sym, subst, ◌∙◌, Bool, true, false, List, [], ◌∷◌, ◌++◌, if◌then◌else◌,
}
use mathlib.Core.List.{append_assoc}
use nats_sinks.Errors.{Error, Result, ok, err}
use nats_sinks.Runner.Exec.{
  Event, History, Exec, pure, raise, lift, emit, ask, attempt, continue, ◌>>=◌, Reply, replied,
  timed_out, type_error, raised, answered,
}

-- `later` has all that happened in `earlier`.
pub record Extends (earlier later : History) : Type 0 where
  pub news : List Event
  pub same : later ≡ news ++ earlier

pub Extends-refl : (h : History) → Extends h h
Extends-refl h = record { news = []; same = refl }

pub Extends-trans : {a b c : History} → Extends a b → Extends b c → Extends a c
Extends-trans {a} {b} {c} f g = record {
  news = g.news ++ f.news;
  same = g.same ∙ (rw f.same (sym (append_assoc g.news f.news a)));
}

pub Extends-step : (e : Event) (h : History) → Extends h (e ∷ h)
Extends-step e h = record { news = e ∷ []; same = refl }

-- What a run from `before` ensures: the invariant `I`, no loss of history, and `Q` if it returns.
pub record Ends (I : History → Type 0) {A : Type 0} (Q : A → History → Type 0) (before : History)
    (result : Result A) (after : History) : Type 0 where
  pub kept : I after
  pub extends : Extends before after
  pub ensured : (a : A) → result ≡ ok a → Q a after

-- In every history with `I` that has what happened in `start`, the action ends so.
pub record Safely (I : History → Type 0) (start : History) {A : Type 0} (m : Exec A)
    (Q : A → History → Type 0) : Type 0 where
  pub from : (h : History) → Extends start h → I h → Ends I Q h (m h).0 (m h).1

-- Nothing more is ensured.
abbrev pub AnyResult : {A : Type 0} → A → History → Type 0
AnyResult a h = Unit

module _ {I : History → Type 0} {start : History} where
  pub Safely-pure : {A : Type 0} (a : A) → Safely I start (pure a) AnyResult
  unfolding pure
  Safely-pure a = record {
    from = λ h x i. record { kept = i; extends = Extends-refl h; ensured = λ b e. tt };
  }

  -- What holds in every later history holds after doing nothing.
  pub Safely-ensure :
      {A : Type 0} {Q : A → History → Type 0} (a : A)
      → ((h : History) → Extends start h → Q a h)
      → Safely I start (pure a) Q
  unfolding pure
  Safely-ensure {A} {Q} a q = record {
    from = λ h x i. record {
      kept = i;
      extends = Extends-refl h;
      ensured = λ b e. subst (λ c. Q c h) (unwrap a b e) (q h x);
    };
  }
    where
      unwrap : (b c : A) → ok b ≡ ok c → b ≡ c
      unwrap b c e = cc

  pub Safely-raise :
      {A : Type 0} {Q : A → History → Type 0} (e : Error) → Safely I start (raise e) Q
  unfolding raise
  Safely-raise e = record {
    from = λ h x i. record { kept = i; extends = Extends-refl h; ensured = λ b q. cc };
  }

  -- An event that the invariant allows in every later history.
  pub Safely-emit :
      (e : Event)
      → ((h : History) → Extends start h → I h → I (e ∷ h))
      → Safely I start (emit e) AnyResult
  unfolding emit
  Safely-emit e keep = record {
    from = λ h x i. record { kept = keep h x i; extends = Extends-step e h; ensured = λ b q. tt };
  }

  pub Safely-ask : {A : Type 0} (f : History → A) → Safely I start (ask f) AnyResult
  unfolding ask
  Safely-ask f = record {
    from = λ h x i. record { kept = i; extends = Extends-refl h; ensured = λ b q. tt };
  }

  pub Safely-forget :
      {A : Type 0} {m : Exec A} {Q : A → History → Type 0}
      → Safely I start m Q
      → Safely I start m AnyResult
  Safely-forget s = record {
    from = λ h x i.
        let e = s.from h x i in record { kept = e.kept; extends = e.extends; ensured = λ b q. tt };
  }

  -- What follows from the result in every history after `start`.
  pub Safely-weaken :
      {A : Type 0} {m : Exec A} {Q R : A → History → Type 0}
      → Safely I start m Q
      → ((a : A) (h : History) → Extends start h → Q a h → R a h)
      → Safely I start m R
  Safely-weaken s k = record {
    from = λ h x i.
        let e = s.from h x i in
        record {
          kept = e.kept;
          extends = e.extends;
          ensured = λ a q. k a _ (Extends-trans x e.extends) (e.ensured a q);
        };
  }

  pub Safely-if :
      {A : Type 0} {Q : A → History → Type 0} (b : Bool) (m n : Exec A)
      → (b ≡ true → Safely I start m Q)
      → (b ≡ false → Safely I start n Q)
      → Safely I start (if b then m else n) Q
  Safely-if true m n f g = f refl
  Safely-if false m n f g = g refl

-- What is safe from `start` is safe from every later history.
pub Safely-later :
    {I : History → Type 0} {start later : History} {A : Type 0} {m : Exec A}
    {Q : A → History → Type 0}
    → Extends start later
    → Safely I start m Q
    → Safely I later m Q
Safely-later x s = record { from = λ h y i. s.from h (Extends-trans x y) i }

module _ {I : History → Type 0} {A B : Type 0} {R : B → History → Type 0} where
  continue-Ends :
      (r : Result A) (f : A → Exec B) (before h : History)
      → Extends before h
      → I h
      → ((a : A) → r ≡ ok a → Ends I R h (f a h).0 (f a h).1)
      → Ends I R before (continue r f h).0 (continue r f h).1
  continue-Ends (ok a) f before h x i k =
      let e = k a refl in
      record { kept = e.kept; extends = Extends-trans x e.extends; ensured = e.ensured }
  continue-Ends (err c) f before h x i k = record { kept = i; extends = x; ensured = λ b q. cc }

module _ {I : History → Type 0} {start : History} {A B : Type 0} {Q : A → History → Type 0}
    {R : B → History → Type 0} where
  -- In sequence: the second action starts where the first one ended, with what it ensured.
  pub Safely-bind :
      (m : Exec A) (f : A → Exec B)
      → Safely I start m Q
      → ((a : A) (now : History) → Extends start now → Q a now → Safely I now (f a) R)
      → Safely I start (m >>= f) R
  unfolding ◌>>=◌
  Safely-bind m f s k = record {
    from = λ h x i.
        let e = s.from h x i in
        continue-Ends (m h).0 f h (m h).1 e.extends e.kept (λ a q.
          (k a (m h).1 (Extends-trans x e.extends) (e.ensured a q)).from (m h).1
            (Extends-refl (m h).1) e.kept);
  }

  pub Safely-then :
      (m : Exec A) (f : A → Exec B)
      → Safely I start m Q
      → ((a : A) → Safely I start (f a) R)
      → Safely I start (m >>= f) R
  Safely-then m f s k = Safely-bind m f s (λ a now x q. Safely-later x (k a))

module _ {I : History → Type 0} {start : History} {A B : Type 0} {R : B → History → Type 0} where
  pub Safely-lift :
      (r : Result A) (f : A → Exec B)
      → ((a : A) → r ≡ ok a → Safely I start (f a) R)
      → Safely I start (lift r >>= f) R
  unfolding ◌>>=◌
  Safely-lift (ok a) f k = record { from = λ h x i. (k a refl).from h x i }
  Safely-lift (err c) f k = record {
    from = λ h x i. record { kept = i; extends = Extends-refl h; ensured = λ b q. cc };
  }

  -- A world that is asked for a value of which the rest knows where it comes from.
  pub Safely-asked :
      (g : History → A) (f : A → Exec B)
      → ((h : History) → Safely I start (f (g h)) R)
      → Safely I start (ask g >>= f) R
  unfolding ◌>>=◌
  Safely-asked g f k = record { from = λ h x i. (k h).from h x i }

-- A `try` ensures what its action ensures, if that returned.
pub Safely-attempt :
    {I : History → Type 0} {start : History} {A : Type 0} {Q : A → History → Type 0} (m : Exec A)
    → Safely I start m Q
    → Safely I start (attempt m) (λ r h. (a : A) → r ≡ ok a → Q a h)
unfolding attempt
Safely-attempt {I} {start} {A} {Q} m s = record {
  from = λ h x i.
      let e = s.from h x i in
      record {
        kept = e.kept;
        extends = e.extends;
        ensured = λ r q a k. e.ensured a (unwrap (m h).0 r q ∙ k);
      };
}
  where
    unwrap : (r r' : Result A) → ok r ≡ ok r' → r ≡ r'
    unwrap r r' q = cc

module _ {I : History → Type 0} {start : History} {A B : Type 0} {R : B → History → Type 0} where
  -- A world that is asked, where the rest depends on the history in which it answered.
  pub Safely-answer :
      (g : History → A) (f : A → Exec B)
      → ((h : History) → I h → (a : A) → g h ≡ a → Ends I R h (f a h).0 (f a h).1)
      → Safely I start (ask g >>= f) R
  unfolding ◌>>=◌
  Safely-answer g f k = record { from = λ h x i. k h i (g h) refl }

-- An event that the invariant allows now, and what is safe after it.
pub Ends-emit :
    {I : History → Type 0} {B : Type 0} {R : B → History → Type 0} (e : Event)
    (f : Unit {0} → Exec B) (h : History)
    → I (e ∷ h)
    → Safely I (e ∷ h) (f tt) R
    → Ends I R h ((emit e >>= f) h).0 ((emit e >>= f) h).1
unfolding ◌>>=◌
Ends-emit e f h i s =
    let ends = s.from (e ∷ h) (Extends-refl (e ∷ h)) i in
    record {
      kept = ends.kept;
      extends = Extends-trans (Extends-step e h) ends.extends;
      ensured = ends.ensured;
    }

-- What follows a reply runs only if the call returned.
pub Ends-answered :
    {I : History → Type 0} {B : Type 0} {R : B → History → Type 0} (reply : Reply)
    (f : Unit {0} → Exec B) (h : History)
    → I h
    → (reply ≡ replied → Ends I R h (f tt h).0 (f tt h).1)
    → Ends I R h ((answered reply >>= f) h).0 ((answered reply >>= f) h).1
unfolding ◌>>=◌ pure raise
Ends-answered replied f h i k = k refl
Ends-answered timed_out f h i k = record { kept = i; extends = Extends-refl h; ensured = λ b q. cc }
Ends-answered type_error f h i k = record {
  kept = i;
  extends = Extends-refl h;
  ensured = λ b q. cc;
}
Ends-answered (raised e) f h i k = record {
  kept = i;
  extends = Extends-refl h;
  ensured = λ b q. cc;
}
