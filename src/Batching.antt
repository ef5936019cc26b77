-- ===== src/Batching.antt =====
-- core/batching.py: a collection cut into batches, at once and as a stream.
pub mod Laws
use nats_sinks.Common.{
  ℕ, zero, suc, ◌+◌, ◌<◌, Bool, true, false, List, [], ◌∷◌, ◌++◌, map, length, is_empty, ltb, leb,
  take, drop, if◌then◌else◌,
}
use nats_sinks.Errors.{Result, err, ok, configuration_error, raise_if, ◌>>◌}

-- `range(start, stop, step)` for a step of one at least: `fuel` bounds its length.
pub range_by : (fuel start stop step : ℕ) → List ℕ
range_by zero start stop step = []
range_by (suc fuel) start stop step =
    let rest = range_by fuel (start + step) stop step in if ltb start stop then start ∷ rest else []

module _ {ℓ} {A : Type ℓ} where
  -- `items[index : index + batch_size]`
  abbrev pub slice : List A → ℕ → ℕ → List A
  slice items size index = take size (drop index items)

  -- A negative size is refused as the size 0 is.
  pub chunked : List A → ℕ → Result (List (List A))
  chunked items size =
      raise_if (ltb size 1) configuration_error
      >> ok (map (slice items size) (range_by (length items) 0 (length items) size))

  -- The loop of the generator: `batch` is what has gathered since the last batch was yielded.
  pub yield_batches : ℕ → List A → List A → List (List A)
  yield_batches size batch [] = if is_empty batch then [] else batch ∷ []
  yield_batches size batch (item ∷ items) = elim (leb size (length (batch ++ item ∷ []))) [
    | true ↦ (batch ++ item ∷ []) ∷ yield_batches size [] items
    | false ↦ yield_batches size (batch ++ item ∷ []) items
  ]

  -- All that the generator yields, or the error that its first step raises.
  pub iter_chunked : List A → ℕ → Result (List (List A))
  iter_chunked items size =
      raise_if (ltb size 1) configuration_error >> ok (yield_batches size [] items)
