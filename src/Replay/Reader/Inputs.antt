-- ===== src/Replay/Reader/Inputs.antt =====
-- The allocations that the replayer finds in a dump are those of the tool's snapshot.
use krepe.Prelude.{
  ap, ℕ, suc, ◌+◌, ◌≡◌, ◌≢◌, ◌↔◌, refl, sym, ◌∙◌, inl, inr, none, some, List, [], ◌∷◌, ◌++◌, Text,
  codes, arith, get_elem?, ok,
}
use krepe.Hdf5.{Hdf5}
use krepe.Capture.Names.{group_name}
use krepe.Capture.Tracker.{ActiveAllocation, AllocationSnapshot}
use krepe.Capture.Copy.{copy_allocation_bytes}
use krepe.Capture.Dump.{Source, group_commands}
use krepe.Capture.Dump.Snapshot.{view_path}
use mathlib.Core.Path.{fun_ext, subst}
use krepe.Prelude.{All}
use krepe.Prelude.Dict.{Listed}
use krepe.Capture.Dump.{views_of}
use krepe.Capture.Dump.Views.{IsNamed}
use krepe.Replay.Reader.Names.{
  ListsLinks, NamedOf, NamedOf-Listed, All2, All2-left, All2-right, read_names,
}
use krepe.Hdf5.Write.{attribute_of, link_of}
use krepe.Replay.Dump.{Entry}
use krepe.Replay.Reader.{Stoull, dataset_of, read_entry, read_entries}
use krepe.Replay.Reader.Group.{entry_of, ReadsPointers, FitsPointers, group_entry, group_dataset}

-- A file holds a snapshot: each allocation's group what was written for it, and the group of the
-- views a link for each.
pub record HoldsSnapshot (h : Hdf5) (s : Source) (name : Text) (snapshot : AllocationSnapshot)
    (f : h.File) : Type 0 where
  pub attributes_of :
      (k : ℕ) (a : ActiveAllocation) (m : Text)
      → get_elem? snapshot.allocations k ≡ some a
      → h.get_attribute f (view_path name k a) m ≡ attribute_of m (group_commands s a) none
  pub links_of :
      (k : ℕ) (a : ActiveAllocation) (m : Text)
      → get_elem? snapshot.allocations k ≡ some a
      → h.get_link f (view_path name k a) m ≡ link_of m (group_commands s a) none
  pub views_of_allocations :
      (m : Text) → (h.get_link f (views_of name) m ≢ none) ↔ IsNamed 0 snapshot.allocations m

module _ (h : Hdf5) (s : Source) (name : Text) (snapshot : AllocationSnapshot) (f : h.File)
    (written : HoldsSnapshot h s name snapshot f) (stoull : Stoull)
    (back : ReadsPointers s stoull) where
  entry_read :
      (k : ℕ) (a : ActiveAllocation)
      → get_elem? snapshot.allocations k ≡ some a
      → FitsPointers a
      → read_entry h f stoull (view_path name k a) ≡ ok (entry_of s a)
  unfolding read_entry
  entry_read k a e fits =
      let q = view_path name k a in
      let attributes : h.get_attribute f q ≡ (λ m. attribute_of m (group_commands s a) none) =
        fun_ext (λ m. written.attributes_of k a m e) in
      let info = group_entry s stoull a (copy_allocation_bytes s.memory a []) refl back fits in
      let bytes =
        ap dataset_of (written.links_of k a (codes "bytes") e)
        ∙ group_dataset s a (copy_allocation_bytes s.memory a []) refl in
      rw (attributes, info, bytes) refl

  -- Each group's name gives the entry of an allocation.
  named_read :
      (xs : List ActiveAllocation) (i : ℕ) (m : Text)
      → ((k j : ℕ) (a : ActiveAllocation)
          → get_elem? xs k ≡ some a
          → j ≡ k + i
          → get_elem? snapshot.allocations j ≡ some a)
      → All FitsPointers xs
      → IsNamed i xs m
      → (a : ActiveAllocation) × NamedOf i xs m a
        × (read_entry h f stoull (views_of name ++ m ∷ []) ≡ ok (entry_of s a))
  named_read [] i m suffix fits named = elim named [ ]
  named_read (a ∷ xs) i m suffix fits (inl here) =
      (a, inl (here, refl), rw here (entry_read i a (suffix 0 i a refl (omega arith)) fits.0))
  named_read (a ∷ xs) i m suffix fits (inr later) =
      let (b, listed, read) =
        named_read xs (suc i) m (λ k j c e n. suffix (suc k) j c e (omega arith)) fits.1 later in
      (b, inr listed, read)

  -- Each allocation has a group's name.
  Listed-read_entry :
      (xs : List ActiveAllocation) (i : ℕ) (a : ActiveAllocation)
      → ((k j : ℕ) (c : ActiveAllocation)
          → get_elem? xs k ≡ some c
          → j ≡ k + i
          → get_elem? snapshot.allocations j ≡ some c)
      → All FitsPointers xs
      → Listed a xs
      → (m : Text) × IsNamed i xs m
        × (read_entry h f stoull (views_of name ++ m ∷ []) ≡ ok (entry_of s a))
  Listed-read_entry [] i a suffix fits listed = elim listed [ ]
  Listed-read_entry (b ∷ xs) i a suffix fits (inl here) = (
    group_name i b.recorded.label,
    inl refl,
    rw here (entry_read i b (suffix 0 i b refl (omega arith)) fits.0),
  )
  Listed-read_entry (b ∷ xs) i a suffix fits (inr later) =
      let (m, named, read) =
        Listed-read_entry xs (suc i) a (λ k j c e n. suffix (suc k) j c e (omega arith)) fits.1
          later in
      (m, inr named, read)

  whole :
      (k j : ℕ) (c : ActiveAllocation)
      → get_elem? snapshot.allocations k ≡ some c
      → j ≡ k + 0
      → get_elem? snapshot.allocations j ≡ some c
  whole k j c e n = subst (λ (i : ℕ). get_elem? snapshot.allocations i ≡ some c) (omega arith) e

  -- A visited group: its allocation, and what is read.
  abbrev pub Visit : Text → Entry → Type 0
  Visit m e =
      (a : ActiveAllocation) × NamedOf 0 snapshot.allocations m a
      × (e ≡ entry_of s a)
      × (read_entry h f stoull (views_of name ++ m ∷ []) ≡ ok e)

  -- An iteration over the links reads the entries of the snapshot's allocations.
  pub visits :
      (names : List Text)
      → All FitsPointers snapshot.allocations
      → ListsLinks h f (views_of name) names
      → (es : List Entry) × (read_entries h f stoull (views_of name) names ≡ ok es)
        × All2 Visit names es
  visits names fits lists = read_names h f stoull (views_of name) Visit names (λ m listed.
      let named = (written.views_of_allocations m).0 ((lists m).0 listed) in
      let (a, here, read) = named_read snapshot.allocations 0 m whole fits named in
      (entry_of s a, (a, here, refl, read), read))

  pub visits_each :
      (names : List Text) (es : List Entry) (a : ActiveAllocation)
      → All FitsPointers snapshot.allocations
      → ListsLinks h f (views_of name) names
      → All2 Visit names es
      → Listed a snapshot.allocations
      → Listed (entry_of s a) es
  visits_each names es a fits lists all here =
      let (m, named, read) = Listed-read_entry snapshot.allocations 0 a whole fits here in
      let listed = (lists m).1 ((written.views_of_allocations m).1 named) in
      let (e, there, (b, of_b, same, read_e)) = All2-right Visit names es m all listed in
      subst (λ (x : Entry). Listed x es) (ground (arith, read, read_e)) there

abbrev pub IsEntryOf : Source → AllocationSnapshot → Entry → Type 0
IsEntryOf s snapshot e = (a : ActiveAllocation) × Listed a snapshot.allocations × (e ≡ entry_of s a)

-- The replayer reads exactly the entries of the snapshot's allocations.
pub read_snapshot :
    (h : Hdf5) (s : Source) (name : Text) (snapshot : AllocationSnapshot) (f : h.File)
    (stoull : Stoull) (names : List Text)
    → HoldsSnapshot h s name snapshot f
    → ReadsPointers s stoull
    → All FitsPointers snapshot.allocations
    → ListsLinks h f (views_of name) names
    → (es : List Entry) × (read_entries h f stoull (views_of name) names ≡ ok es)
      × ((e : Entry) → Listed e es ↔ IsEntryOf s snapshot e)
read_snapshot h s name snapshot f stoull names w back fits lists =
    let (es, done, all) = visits h s name snapshot f w stoull back names fits lists in
    (
      es,
      done,
      λ e. (
        λ listed.
            let (m, there, (a, named, same, read)) =
              All2-left (Visit h s name snapshot f w stoull back) names es e all listed in
            (a, NamedOf-Listed 0 snapshot.allocations m a named, same),
        λ (a, here, same).
            subst (λ (x : Entry). Listed x es) (sym same)
              (visits_each h s name snapshot f w stoull back names es a fits lists all here),
      ),
    )
