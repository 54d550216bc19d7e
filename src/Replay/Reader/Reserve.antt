-- ===== src/Replay/Reader/Reserve.antt =====
-- What the replayer reserves for a dump.
use mathlib.Core.Path.{subst}
use krepe.Prelude.{
  ℕ, ◌+◌, ◌<◌, ◌≡◌, ◌≢◌, refl, sym, inl, inr, true, none, List, [], ◌∷◌, Text, ok, All,
}
use krepe.Prelude.Dict.{Listed}
use krepe.Hdf5.{Hdf5}
use krepe.Capture.Tracker.{ActiveAllocation, AllocationSnapshot}
use krepe.Capture.Copy.{copy_allocation_bytes}
use krepe.Capture.Copy.Laws.{IsExact, copy_allocation_bytes_lem}
use krepe.Capture.Dump.{Source, views_of}
use krepe.Replay.Space.{MemorySpaceType, Platform, same_space, memory_space_type_from_string}
use krepe.Replay.Ranges.{Range, granularity, Contained, Separated, Aligned, word}
use krepe.Replay.Dump.{Entry, locations, space_of}
use krepe.Replay.Dump.Plan.{IsDumped, HasRoom, Each, Holds, locations_hold}
use krepe.Replay.Reader.{Stoull, read_entries}
use krepe.Replay.Reader.Names.{ListsLinks, NamedOf-Listed, All2-left}
use krepe.Replay.Reader.Inputs.{HoldsSnapshot, Visit, visits, visits_each}
use krepe.Replay.Reader.Group.{entry_of, ReadsPointers, FitsPointers}
use krepe.Replay.Reader.Restore.{dumped_entry}

Each-Listed :
    (target : MemorySpaceType) (P : Entry → Type 0) (es : List Entry)
    → ((e : Entry) → Listed e es → same_space (space_of e) target ≡ true → P e)
    → Each target P es
Each-Listed target P [] h = tt
Each-Listed target P (e ∷ es) h = (h e (inl refl), Each-Listed target P es (λ x l. h x (inr l)))

Listed-Each :
    (target : MemorySpaceType) (P : Entry → Type 0) (es : List Entry) (e : Entry)
    → Each target P es
    → Listed e es
    → same_space (space_of e) target ≡ true
    → P e
Listed-Each target P [] e each l = elim l [ ]
Listed-Each target P (x ∷ es) e each (inl here) =
    subst (λ (y : Entry). same_space (space_of y) target ≡ true → P y) (sym here) each.0
Listed-Each target P (x ∷ es) e each (inr there) = Listed-Each target P es e each.1 there

abbrev pub space_of_view : ActiveAllocation → MemorySpaceType
space_of_view a = memory_space_type_from_string a.recorded.space

-- Where every allocation of one space was copied and ends at least a page before the end of the
-- address space, the replayer reserves ranges that hold them all.
pub reserve_snapshot :
    (h : Hdf5) (s : Source) (name : Text) (snapshot : AllocationSnapshot) (f : h.File)
    (stoull : Stoull) (names : List Text) (p : Platform) (target : MemorySpaceType) (g : ℕ)
    → HoldsSnapshot h s name snapshot f
    → ReadsPointers s stoull
    → All FitsPointers snapshot.allocations
    → ListsLinks h f (views_of name) names
    → IsExact s.memory
    → granularity p target ≡ ok g
    → 0 < g
    → ((a : ActiveAllocation)
        → Listed a snapshot.allocations
        → same_space (space_of_view a) target ≡ true
        → ((copy_allocation_bytes s.memory a []).0 ≡ none)
          × (a.recorded.p_data + a.recorded.size + g < word))
    → (es : List Entry) × (read_entries h f stoull (views_of name) names ≡ ok es)
      × ((rs : List Range) × (locations p target es ≡ ok rs)
          × Separated 0 rs
          × Aligned g rs
          × ((a : ActiveAllocation)
              → Listed a snapshot.allocations
              → same_space (space_of_view a) target ≡ true
              → a.recorded.size ≢ 0
              → Contained a.recorded.p_data (a.recorded.p_data + a.recorded.size) rs))
unfolding entry_of
reserve_snapshot h s name snapshot f stoull names p target g w back fits lists exact page positive
      here =
    let xs = snapshot.allocations in
    let P = Visit h s name snapshot f w stoull back in
    let (es, read, all) = visits h s name snapshot f w stoull back names fits lists in
    let known = λ (e : Entry) (listed : Listed e es).
      let (m, there, (a, named, same, read)) = All2-left P names es e all listed in
      subst (λ (x : Entry). same_space (space_of x) target ≡ true → IsDumped x × HasRoom g x)
        (sym same)
        (λ inside.
          let (copied, room) = here a (NamedOf-Listed 0 xs m a named) inside in
          let long = ((copy_allocation_bytes_lem s.memory a [] exact).0 copied).1 in
          let (dumped, checked) =
            dumped_entry s a (copy_allocation_bytes s.memory a []) refl copied long in
          ((dumped, ((copy_allocation_bytes s.memory a []).1, checked)), room)) in
    let (rs, done, separated, aligned, holds) =
      locations_hold p target g es page positive
        (Each-Listed target IsDumped es (λ e listed inside. (known e listed inside).0))
        (Each-Listed target (HasRoom g) es (λ e listed inside. (known e listed inside).1)) in
    (
      es,
      read,
      (
        rs,
        done,
        separated,
        aligned,
        λ a listed inside.
            Listed-Each target (Holds rs) es (entry_of s a) holds
              (visits_each h s name snapshot f w stoull back names es a fits lists all listed)
              inside,
      ),
    )
