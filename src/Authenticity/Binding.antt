-- ===== src/Authenticity/Binding.antt =====
-- Proofs about core/authenticity.py: what the canonical document that is signed determines.
use nats_sinks.Common.{
  ◌≡◌, refl, ap, sym, subst, inl, inr, false, String, str_eq, str_eq_refl, str_eq→eq, Bool-cases,
  if◌then◌else◌,
}
use nats_sinks.Envelope.{Json, Fields, end, field}
use nats_sinks.Spool.Record.{get}
use nats_sinks.Authenticity.{put_field}

pub get-put_field :
    (name : String) (value : Json) (fields : Fields)
    → get (put_field name value fields) name ≡ value
unfolding put_field
get-put_field name value end = rw (str_eq_refl name) refl
get-put_field name value (field n w fields) = elim (Bool-cases (str_eq n name)) [
  | inl same ↦ rw same (rw same refl)
  | inr other ↦ rw other (rw other (get-put_field name value fields))
]

pub get-put_field-other :
    (name k : String) (value : Json) (fields : Fields)
    → str_eq name k ≡ false
    → get (put_field name value fields) k ≡ get fields k
unfolding put_field
get-put_field-other name k value end h = rw h refl
get-put_field-other name k value (field n w fields) h = elim (Bool-cases (str_eq n name)) [
  | inl same ↦ rw same (rw (subst (λ m. str_eq m k ≡ false) (sym (str_eq→eq n name same)) h) refl)
  | inr other ↦
      rw other (ap (λ j. if str_eq n k then w else j) (get-put_field-other name k value fields h))
]
