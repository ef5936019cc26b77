-- ===== src/Gate.antt =====
-- The common shape of the gates before a sink (core/policy.py, core/size_policy.py,
-- core/authenticity.py): each envelope of a batch is checked, and its index is accepted or rejected.
pub mod Laws
use nats_sinks.Common.{
  ℕ, zero, suc, ◌+◌, Bool, not, List, [], ◌∷◌, ◌++◌, Option, none, some, get_elem?, is_empty,
  length, if◌then◌else◌,
}
use nats_sinks.Errors.{Result, ok, err, unexpected, ◌>>=◌}

-- `PolicyEvaluation`, `SizePolicyEvaluation` and `MessageAuthenticityEvaluation`.
pub record Evaluation (V : Type 0) : Type 0 where
  pub accepted_indexes : List ℕ
  pub rejected_indexes : List ℕ
  pub violations : List V

abbrev pub has_rejections : {V : Type 0} → Evaluation V → Bool
has_rejections e = not (is_empty e.rejected_indexes)

-- `range(start, start + n)`
pub range_from : ℕ → ℕ → List ℕ
range_from start zero = []
range_from start (suc n) = start ∷ range_from (suc start) n

-- What a gate that is switched off returns.
abbrev pub accept_all : {V A : Type 0} → List A → Evaluation V
accept_all batch = record {
  accepted_indexes = range_from 0 (length batch);
  rejected_indexes = [];
  violations = [];
}

module _ {V A : Type 0} (check : ℕ → A → Result (List V)) where
  abbrev pub record_outcome : ℕ → List V → Evaluation V → Evaluation V
  record_outcome index found later =
      if is_empty found
      then record later { accepted_indexes = index ∷ later.accepted_indexes }
      else record later {
        rejected_indexes = index ∷ later.rejected_indexes;
        violations = found ++ later.violations;
      }

  -- `for index, envelope in enumerate(envelopes)`: a check that raises ends it.
  unfoldable pub evaluate_from : ℕ → List A → Result (Evaluation V)
  evaluate_from index [] =
      ok (record { accepted_indexes = []; rejected_indexes = []; violations = [] })
  evaluate_from index (a ∷ batch) = do
    found ← check index a
    later ← evaluate_from (suc index) batch
    ok (record_outcome index found later)

-- `[batch[index] for index in indexes]`, which raises `IndexError` behind the end.
unfoldable pub pick : {A : Type 0} → List ℕ → List A → Result (List A)
pick [] batch = ok []
pick (i ∷ indexes) batch = elim (get_elem? batch i) [
  | none ↦ err unexpected
  | some a ↦ (do rest ← pick indexes batch; ok (a ∷ rest))
]
