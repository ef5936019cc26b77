-- ===== src/Spool/Order.antt =====
-- Proofs about spool/sink.py: the order in which the records are replayed.
use mathlib.Core.List.Permᴰ
use mathlib.Core.List.Permᴰ.{Permᴰ}
use nats_sinks.Common.{
  ◌≡◌, refl, inl, inr, true, false, List, [], ◌∷◌, String, All, All-weaken, all, at_most,
  Bool-cases, arith,
}
use nats_sinks.Errors.{ok}
use nats_sinks.Spool.{
  SpoolSinkConfig, SpoolDrainOrdering, by_priority, fifo, SpoolFile, precedes, insert_entry,
  sort_entries, committed_entries,
}

at_most_total : (s t : String) → at_most s t ≡ false → at_most t s ≡ true
at_most_total String.[] t h = cc
at_most_total (String.◌∷◌ c s) String.[] h = refl
at_most_total (String.◌∷◌ c s) (String.◌∷◌ d t) h = ground (arith, at_most_total s t)

at_most_trans : (s t u : String) → at_most s t ≡ true → at_most t u ≡ true → at_most s u ≡ true
at_most_trans String.[] t u h k = refl
at_most_trans (String.◌∷◌ c s) String.[] u h k = cc
at_most_trans (String.◌∷◌ c s) (String.◌∷◌ d t) String.[] h k = cc
at_most_trans (String.◌∷◌ c s) (String.◌∷◌ d t) (String.◌∷◌ e u) h k =
    ground (arith, at_most_trans s t u)

precedes_total :
    (o : SpoolDrainOrdering) (a b : SpoolFile) → precedes o a b ≡ false → precedes o b a ≡ true
precedes_total by_priority a b h = ground arith
precedes_total fifo a b h = ground (arith, at_most_total a.name b.name)

precedes_trans :
    (o : SpoolDrainOrdering) (a b c : SpoolFile)
    → precedes o a b ≡ true
    → precedes o b c ≡ true
    → precedes o a c ≡ true
precedes_trans by_priority a b c h k = ground arith
precedes_trans fifo a b c h k = ground (arith, at_most_trans a.name b.name c.name)

-- Every entry precedes all that come after it.
pub IsOrdered : SpoolDrainOrdering → List SpoolFile → Type 0
IsOrdered o [] = Unit
IsOrdered o (file ∷ files) = All (λ f. precedes o file f ≡ true) files × IsOrdered o files

insert_entry-All :
    (o : SpoolDrainOrdering) (P : SpoolFile → Type 0) (file : SpoolFile) (files : List SpoolFile)
    → P file
    → All P files
    → All P (insert_entry o file files)
insert_entry-All o P file [] p h = (p, tt)
insert_entry-All o P file (other ∷ files) p (q, h) = elim (Bool-cases (precedes o file other)) [
  | inl e ↦ rw e (p, (q, h))
  | inr n ↦ rw n (q, insert_entry-All o P file files p h)
]

insert_entry-IsOrdered :
    (o : SpoolDrainOrdering) (file : SpoolFile) (files : List SpoolFile)
    → IsOrdered o files
    → IsOrdered o (insert_entry o file files)
unfolding IsOrdered
insert_entry-IsOrdered o file [] h = (tt, tt)
insert_entry-IsOrdered o file (other ∷ files) (h, hs) = elim (Bool-cases (precedes o file other)) [
  | inl e ↦ rw e ((e, All-weaken _ _ files (λ f. precedes_trans o file other f e) h), (h, hs))
  | inr n ↦ rw n (
    insert_entry-All o (λ f. precedes o other f ≡ true) file files (precedes_total o file other n)
        h,
    insert_entry-IsOrdered o file files hs,
  )
]

insert_entry-perm :
    (o : SpoolDrainOrdering) (file : SpoolFile) (files : List SpoolFile)
    → Permᴰ (insert_entry o file files) (file ∷ files)
insert_entry-perm o file [] = Permᴰ.refl _
insert_entry-perm o file (other ∷ files) = elim (Bool-cases (precedes o file other)) [
  | inl e ↦ rw e (Permᴰ.refl (file ∷ other ∷ files))
  | inr n ↦
      rw n (Permᴰ.trans (Permᴰ.cons refl (insert_entry-perm o file files)) (Permᴰ.swap refl refl))
]

sort_entries-IsOrdered :
    (o : SpoolDrainOrdering) (files : List SpoolFile) → IsOrdered o (sort_entries o files)
unfolding IsOrdered
sort_entries-IsOrdered o [] = tt
sort_entries-IsOrdered o (file ∷ files) =
    insert_entry-IsOrdered o file (sort_entries o files) (sort_entries-IsOrdered o files)

sort_entries-perm :
    (o : SpoolDrainOrdering) (files : List SpoolFile) → Permᴰ (sort_entries o files) files
sort_entries-perm o [] = Permᴰ.refl []
sort_entries-perm o (file ∷ files) =
    Permᴰ.trans (insert_entry-perm o file (sort_entries o files))
      (Permᴰ.cons refl (sort_entries-perm o files))

-- If every wrapper can be read, the committed entries are the files of the directory, each as often
-- as it is there, and every entry precedes all later ones: by rank and then time, or by time and
-- then name, as the configuration orders them.
pub committed_entries-IsOrdered :
    (config : SpoolSinkConfig) (files : List SpoolFile)
    → all (λ f. f.wrapper.is_readable) files ≡ true
    → (entries : List SpoolFile) × (committed_entries config files ≡ ok entries)
      × Permᴰ entries files
      × IsOrdered config.drain_ordering entries
unfolding committed_entries
committed_entries-IsOrdered config files h = (
  sort_entries config.drain_ordering files,
  rw h refl,
  sort_entries-perm config.drain_ordering files,
  sort_entries-IsOrdered config.drain_ordering files,
)
