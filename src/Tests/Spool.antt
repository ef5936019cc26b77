-- ===== src/Tests/Spool.antt =====
-- The theorems about the spool sink, applied to sample values.
use mathlib.Core.List.Permᴰ.{Permᴰ}
use Prim.Native.Char.{code}
use nats_sinks.Common.{
  ℕ, zero, suc, ◌*◌, ◌/◌, ◌==◌, if◌then◌else◌, ◌≡◌, refl, inl, inr, Bool, true, false, List, [],
  ◌∷◌, take, Option, none, some, String, ℤ, pos, negsuc, All, arith,
}
use nats_sinks.Errors.{Result, ok, err, serialization_error}
use nats_sinks.Envelope.{Json, Fields, NatsEnvelope}
use nats_sinks.Spool.{
  SpoolFile, lands, exists, plan_records, write_wrapper, write_all, write_batch_sync,
  committed_entries, truncated, replay_each, replay_spool_to_sink,
}
use nats_sinks.Spool.Writes.{Keeps, write_batch_sync-Keeps, write_batch_sync-exists}
use nats_sinks.Spool.Took.{Kept}
use nats_sinks.Spool.Replay.{Counts, replay_spool_to_sink-Kept, replay_spool_to_sink-Counts}
use nats_sinks.Spool.Order.{IsOrdered, committed_entries-IsOrdered}
use nats_sinks.Spool.Record.{Codecs}
use nats_sinks.Fixtures.{envelope, small_spool, wrapper_of, two_files, spool_file}

abbrev pub name_of : NatsEnvelope → Result String
name_of e = ok e.subject

abbrev two_messages : List NatsEnvelope
two_messages = envelope "orders.new" none (1 ∷ []) ∷ envelope "x" none (2 ∷ []) ∷ []

write_batch_sync-Keeps_example :
    Keeps small_spool name_of wrapper_of
      (λ files file. lands)
      two_files
      (write_batch_sync small_spool name_of wrapper_of
        (λ files file. lands)
        two_files
        two_messages).0
write_batch_sync-Keeps_example =
    write_batch_sync-Keeps small_spool name_of wrapper_of (λ files file. lands) two_files
      two_messages (omega arith, omega arith)

write_batch_sync-exists_example :
    All
      (λ m.
        (name : String) × (name_of m ≡ ok name)
        × (exists
              (write_batch_sync small_spool name_of wrapper_of
                (λ files file. lands)
                two_files
                two_messages).0
              name
            ≡ true))
      two_messages
unfolding write_batch_sync plan_records write_all write_wrapper
write_batch_sync-exists_example =
    write_batch_sync-exists small_spool name_of wrapper_of (λ files file. lands) two_files
      two_messages (omega arith, omega arith) refl

replay_spool_to_sink-Kept_example :
    Kept small_spool
      (λ written e. none)
      (λ file. false)
      (replay_spool_to_sink small_spool (λ written e. none) (λ file. false) two_files (some 1)).0
      (spool_file "y" (envelope "orders.old" none (3 ∷ [])))
replay_spool_to_sink-Kept_example =
    replay_spool_to_sink-Kept small_spool (λ written e. none) (λ file. false) two_files (some 1)
      (spool_file "y" (envelope "orders.old" none (3 ∷ []))) (inr (inl refl))

replay_spool_to_sink-Counts_example :
    (entries : List SpoolFile) × (committed_entries small_spool two_files ≡ ok entries)
    × ((replay_spool_to_sink small_spool
          (λ written e. none)
          (λ file. false)
          two_files
          (some 1)).0.written
        ≡ truncated (some 1) entries)
    × Counts small_spool
        (λ written e. none)
        (λ file. false)
        (truncated (some 1) entries)
        (record {
          scanned_records = 1;
          replayed_records = 1;
          deleted_records = 1;
          failed_records = 0;
        })
unfolding replay_spool_to_sink committed_entries replay_each take
replay_spool_to_sink-Counts_example =
    replay_spool_to_sink-Counts small_spool (λ written e. none) (λ file. false) two_files (some 1)
      (record {
        scanned_records = 1;
        replayed_records = 1;
        deleted_records = 1;
        failed_records = 0;
      })
      refl

committed_entries-IsOrdered_example :
    (entries : List SpoolFile) × (committed_entries small_spool two_files ≡ ok entries)
    × Permᴰ entries two_files
    × IsOrdered small_spool.drain_ordering entries
committed_entries-IsOrdered_example = committed_entries-IsOrdered small_spool two_files refl

-- Numbers as tallies, each ended by `0`: codecs that lose nothing.
abbrev tally : ℕ → String → String
tally zero rest = String.◌∷◌ "0" rest
tally (suc n) rest = String.◌∷◌ "1" (tally n rest)

abbrev tallies : List ℕ → String
tallies [] = String.[]
tallies (n ∷ ns) = tally n (tallies ns)

abbrev read_tallies : ℕ → String → List ℕ
read_tallies n String.[] = []
read_tallies n (String.◌∷◌ c s) =
    if code c == 49 then read_tallies (suc n) s else n ∷ read_tallies 0 s

abbrev signed : ℤ → List ℕ
signed (pos n) = 0 ∷ n ∷ []
signed (negsuc n) = 1 ∷ n ∷ []

abbrev unsigned : List ℕ → Option ℤ
unsigned (zero ∷ n ∷ ns) = some (pos n)
unsigned (suc s ∷ n ∷ ns) = some (negsuc n)
unsigned _ = none

abbrev same_int : Option ℤ → ℤ → Bool
same_int (some (pos m)) (pos n) = m == n
same_int (some (negsuc m)) (negsuc n) = m == n
same_int _ _ = false

abbrev time_of : ℤ → ℕ
time_of (pos n) = n
time_of (negsuc n) = 0

abbrev pub codecs : Codecs
codecs = record {
  render = λ n. tallies (signed n);
  as_int = λ s. unsigned (read_tallies 0 s);
  equals = λ s n. same_int (unsigned (read_tallies 0 s)) n;
  shown = λ value. "";
  b64_encode = tallies;
  b64_decode = λ s. some (read_tallies 0 s);
  timestamp = λ t. t;
  times_billion = λ x. x * 1_000_000_000;
  truncate = pos;
  over_billion = λ n. time_of n / 1_000_000_000;
  fromtimestamp = λ x. x;
  sha256 = λ bytes. "digest";
  sha256_text = λ s. "digest";
}

abbrev sealed : Fields → Fields
sealed r = Fields.field "ciphertext" (Json.object r) Fields.end

abbrev opened : Json → Result Fields
opened (Json.object r) = ok r
opened _ = err serialization_error

abbrev unsealed : Fields → Result Fields
unsealed (Fields.field name value fields) = opened value
unsealed Fields.end = err serialization_error
