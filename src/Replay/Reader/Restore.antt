-- ===== src/Replay/Reader/Restore.antt =====
-- From the captured memory to the replayer's: what a dump restores.
use mathlib.Core.Path.{subst}
use krepe.Prelude.{
  ℕ, suc, ◌+◌, ◌<◌, ◌≡◌, refl, sym, ◌∙◌, inl, inr, Bool, true, false, ◌&&◌, ◌||◌, none, some, List,
  [], ◌∷◌, Bytes, Text, text_eq, text_eq_iff, arith, length, get_elem?, Bool-cases, ok, ◌==◌, All,
}
use krepe.Prelude.Dict.{Listed}
use krepe.Hdf5.{Hdf5}
use krepe.Capture.Tracker.{ActiveAllocation, AllocationSnapshot}
use krepe.Capture.Copy.{Copied, copy_allocation_bytes}
use krepe.Capture.Copy.Laws.{IsExact, copy_allocation_bytes_lem}
use krepe.Capture.Dump.{Source, views_of}
use krepe.Replay.Space.{Platform, is_host, memory_space_type_from_string}
use krepe.Replay.Dump.{Entry, check_byte_dataset}
use krepe.Replay.Dump.Plan.{IsDumped}
use krepe.Replay.Load.{Memory, Restored, is_indexed, restore_inputs}
use krepe.Replay.Load.Inputs.{Agrees, same_key, Apart, CanCopy, restore_inputs_lem}
use krepe.Replay.Reader.{Stoull, read_entries}
use krepe.Replay.Reader.Names.{ListsLinks, NamedOf, NamedOf-Listed, All2, All2-left}
use krepe.Replay.Reader.Inputs.{HoldsSnapshot, Visit, visits, visits_each}
use krepe.Replay.Reader.Group.{entry_of, ReadsPointers, FitsPointers}

-- The two allocations have the same address and space.
abbrev pub same_allocation : ActiveAllocation → ActiveAllocation → Bool
same_allocation a b = a.ptr == b.ptr && text_eq a.recorded.space b.recorded.space

abbrev pub Distinct : List ActiveAllocation → Type 0
Distinct [] = Unit
Distinct (a ∷ xs) =
    ((b : ActiveAllocation) → Listed b xs → same_allocation a b ≡ false) × Distinct xs

abbrev pub Once : List Text → Type 0
Once [] = Unit
Once (m ∷ names) = (Listed m names → ⊥) × Once names

-- The copy was not skipped, and its bytes are those of the memory.
abbrev pub CopiedFrom : Source → Memory → ActiveAllocation → Type 0
CopiedFrom s mem a =
    ((copy_allocation_bytes s.memory a []).0 ≡ none)
    × ((i b : ℕ)
        → get_elem? (copy_allocation_bytes s.memory a []).1 i ≡ some b
        → b ≡ mem (memory_space_type_from_string a.recorded.space) (a.recorded.p_data + i))

same_allocation_sym :
    (a b : ActiveAllocation) → same_allocation a b ≡ false → same_allocation b a ≡ false
same_allocation_sym a b e = ground (
  arith,
  text_eq_iff a.recorded.space b.recorded.space,
  text_eq_iff b.recorded.space a.recorded.space,
)

-- The same allocation has one name.
one_name :
    (xs : List ActiveAllocation) (i : ℕ) (m n : Text) (a b : ActiveAllocation)
    → Distinct xs
    → NamedOf i xs m a
    → NamedOf i xs n b
    → same_allocation a b ≡ true
    → m ≡ n
one_name [] i m n a b apart u v e = elim u [ ]
one_name (x ∷ xs) i m n a b apart (inl u) (inl v) e = u.0 ∙ sym v.0
one_name (x ∷ xs) i m n a b apart (inl u) (inr v) e =
    let f = apart.0 b (NamedOf-Listed (suc i) xs n b v) in absurd (cc (f, e, u.1))
one_name (x ∷ xs) i m n a b apart (inr u) (inl v) e =
    let f = same_allocation_sym x a (apart.0 a (NamedOf-Listed (suc i) xs m a u)) in
    absurd (cc (f, e, v.1))
one_name (x ∷ xs) i m n a b apart (inr u) (inr v) e = one_name xs (suc i) m n a b apart.1 u v e

pub dumped_entry :
    (s : Source) (a : ActiveAllocation) (c : Copied)
    → copy_allocation_bytes s.memory a [] ≡ c
    → c.0 ≡ none
    → length c.1 ≡ a.recorded.size
    → ((entry_of s a).info.bytes_dumped ≡ true) × (check_byte_dataset (entry_of s a) ≡ ok c.1)
unfolding entry_of check_byte_dataset
dumped_entry s a (none, bytes) e copied long = (rw e refl, ground arith)
dumped_entry s a (some reason, bytes) e copied long = absurd (ground arith)

pub copied_entry :
    (s : Source) (mem : Memory) (a : ActiveAllocation)
    → IsExact s.memory
    → CopiedFrom s mem a
    → IsDumped (entry_of s a) × Agrees mem (entry_of s a)
unfolding entry_of
copied_entry s mem a exact (copied, bytes_of) =
    let c = copy_allocation_bytes s.memory a [] in
    let long = ((copy_allocation_bytes_lem s.memory a [] exact).0 copied).1 in
    let (dumped, checked) = dumped_entry s a c refl copied long in
    (
      (dumped, (c.1, checked)),
      λ bytes h i b found.
          let same : bytes ≡ c.1 = ground (arith, h, checked) in
          bytes_of i b (subst (λ (l : Bytes). get_elem? l i ≡ some b) same found),
    )

same_key-entry_of :
    (s : Source) (a b : ActiveAllocation)
    → same_key (entry_of s a) (entry_of s b) ≡ same_allocation a b
unfolding entry_of
same_key-entry_of s a b = refl

-- Entries of different names are of different allocations.
entries-Apart :
    (s : Source) (xs : List ActiveAllocation) (P : Text → Entry → Type 0) (names : List Text)
    (es : List Entry)
    → ((m : Text) (e : Entry)
        → P m e
        → (a : ActiveAllocation) × NamedOf 0 xs m a × (e ≡ entry_of s a))
    → Distinct xs
    → Once names
    → All2 P names es
    → Apart es
entries-Apart s xs P [] [] of distinct once all = tt
entries-Apart s xs P [] (e ∷ es) of distinct once all = elim all [ ]
entries-Apart s xs P (m ∷ names) [] of distinct once all = elim all [ ]
entries-Apart s xs P (m ∷ names) (e ∷ es) of distinct once all = (
  λ x listed. other x (All2-left P names es x all.1 listed),
  entries-Apart s xs P names es of distinct once.1 all.1,
)
  where
    other : (x : Entry) → (n : Text) × Listed n names × P n x → same_key e x ≡ false
    other x (n, listed, holds) =
        let (a, u, same_e) = of m e all.0 in
        let (b, v, same_x) = of n x holds in
        let key : same_key e x ≡ same_allocation a b =
          (λ j. same_key (same_e j) (same_x j)) ∙ same_key-entry_of s a b in
        elim (Bool-cases (same_allocation a b)) [
          | inl e ↦
              let one = one_name xs 0 m n a b distinct u v e in
              absurd (once.0 (subst (λ (k : Text). Listed k names) (sym one) listed))
          | inr e ↦ key ∙ e
        ]

-- Where every allocation of a snapshot was copied from the memory `mem`, the replayer restores them
-- from a file that holds the snapshot, whatever its own memory holds.
pub restore_snapshot :
    (h : Hdf5) (s : Source) (name : Text) (snapshot : AllocationSnapshot) (f : h.File)
    (stoull : Stoull) (names : List Text) (p : Platform) (reset : Bool) (mem now : Memory)
    → HoldsSnapshot h s name snapshot f
    → ReadsPointers s stoull
    → All FitsPointers snapshot.allocations
    → ListsLinks h f (views_of name) names
    → Once names
    → Distinct snapshot.allocations
    → IsExact s.memory
    → ((a : ActiveAllocation)
        → Listed a snapshot.allocations
        → CopiedFrom s mem a
          × ((is_host (memory_space_type_from_string a.recorded.space) || p.has_device) ≡ true))
    → (es : List Entry) × (read_entries h f stoull (views_of name) names ≡ ok es)
      × ((r : Restored) × (restore_inputs p reset es
              (record { input_snapshots = []; replay_allocations = []; memory = now })
            ≡ ok r)
          × ((a : ActiveAllocation) (i : ℕ)
              → Listed a snapshot.allocations
              → i < a.recorded.size
              → let space = memory_space_type_from_string a.recorded.space in
                r.memory space (a.recorded.p_data + i) ≡ mem space (a.recorded.p_data + i)))
unfolding entry_of is_indexed
restore_snapshot h s name snapshot f stoull names p reset mem now w back fits lists once distinct
      exact copied =
    let xs = snapshot.allocations in
    let P = Visit h s name snapshot f w stoull back in
    let (es, read, all) = visits h s name snapshot f w stoull back names fits lists in
    let apart = entries-Apart s xs P names es (λ m e v. (v.0, v.1, v.2)) distinct once all in
    let good = λ (e : Entry) (listed : Listed e es).
      let (m, there, (a, named, same, read)) = All2-left P names es e all listed in
      let (c, way) = copied a (NamedOf-Listed 0 xs m a named) in
      let (dumped, agrees) = copied_entry s mem a exact c in
      subst (λ (x : Entry). IsDumped x × CanCopy p x × Agrees mem x) (sym same)
        (dumped, way, agrees) in
    let start : Restored = record { input_snapshots = []; replay_allocations = []; memory = now } in
    let (r, restored, keeps, holds) =
      restore_inputs_lem p reset mem es start good apart (λ x listed. refl) in
    (
      es,
      read,
      (
        r,
        restored,
        λ a i here inside.
            holds (entry_of s a) i
              (visits_each h s name snapshot f w stoull back names es a fits lists all here) inside,
      ),
    )
