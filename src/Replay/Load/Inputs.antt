-- ===== src/Replay/Load/Inputs.antt =====
-- What the restoring of the inputs does to the memory.
use mathlib.Core.Path.{subst}
use krepe.Prelude.{
  ℕ, ◌+◌, ◌-◌, ◌<◌, ◌≡◌, refl, sym, ◌∙◌, inl, inr, Bool, true, false, not, ◌&&◌, ◌||◌, Option, none,
  some, List, [], ◌∷◌, ◌++◌, Bytes, Text, text_eq, arith, length, get_elem?, get_elem?-some, ok,
  ◌==◌, leb, Bool-cases, Option-cases, if◌then◌else◌,
}
use krepe.Prelude.Dict.{Listed}
use krepe.Replay.Space.{MemorySpaceType, host, device, same_space, is_host, Platform}
use krepe.Replay.Dump.{Entry, space_of, check_byte_dataset, allocate_hdf5_dataset}
use krepe.Replay.Dump.Plan.{IsDumped}
use krepe.Replay.Store.{StoredAllocation, ReplayAllocations}
use krepe.Replay.Load.{
  Memory, InputSnapshot, byte_at, or_else, copy_data, Restored, is_at, is_indexed, restore_input,
  visit_input, restore_inputs, stored,
}

-- The allocation's bytes in the dump are those of the memory.
abbrev pub Agrees : Memory → Entry → Type 0
Agrees mem e =
    (bytes : Bytes)
    → check_byte_dataset e ≡ ok bytes
    → (i b : ℕ) → get_elem? bytes i ≡ some b
    → b ≡ mem (space_of e) (e.info.address + i)

abbrev pub same_key : Entry → Entry → Bool
same_key e x = e.info.allocation_id == x.info.allocation_id && text_eq e.info.space x.info.space

-- No two entries have the address of the allocation and the space in common.
abbrev pub Apart : List Entry → Type 0
Apart [] = Unit
Apart (e ∷ es) = ((x : Entry) → Listed x es → same_key e x ≡ false) × Apart es

-- There is a way to copy to the space.
abbrev pub CanCopy : Platform → Entry → Type 0
CanCopy p e = (is_host (space_of e) || p.has_device) ≡ true

is_indexed-snoc :
    (id : ℕ) (space : Text) (xs : ReplayAllocations) (y : StoredAllocation)
    → is_indexed id space (xs ++ y ∷ []) ≡ (is_indexed id space xs || is_at id space y)
unfolding is_indexed
is_indexed-snoc id space [] y = ground arith
is_indexed-snoc id space (x ∷ xs) y = ground (arith, is_indexed-snoc id space xs y)

checked_length :
    (e : Entry) (bytes : Bytes) → check_byte_dataset e ≡ ok bytes → length bytes ≡ e.info.size
unfolding check_byte_dataset
checked_length e bytes h = ground arith

abbrev input_of : Entry → Bytes → InputSnapshot
input_of e bytes = record { memory_space = space_of e; address = e.info.address; bytes = bytes }

-- What the callback is given of an entry that was dumped.
allocated :
    (p : Platform) (e : Entry) (bytes : Bytes)
    → e.info.bytes_dumped ≡ true
    → check_byte_dataset e ≡ ok bytes
    → CanCopy p e
    → allocate_hdf5_dataset p e ≡ ok (if e.info.size == 0 then none else some bytes)
unfolding allocate_hdf5_dataset
allocated p e bytes dumped checked way = ground arith

abbrev after : Bool → Entry → Option Bytes → Restored → Restored
after reset e none r = record r { replay_allocations = r.replay_allocations ++ stored e.info ∷ [] }
after reset e (some bytes) r = record {
  input_snapshots = if reset then r.input_snapshots ++ input_of e bytes ∷ [] else r.input_snapshots;
  replay_allocations = r.replay_allocations ++ stored e.info ∷ [];
  memory = λ s a. or_else (byte_at (input_of e bytes) s a) (r.memory s a);
}

input_restored :
    (p : Platform) (reset : Bool) (e : Entry) (given : Option Bytes) (r : Restored)
    → e.info.bytes_dumped ≡ true
    → CanCopy p e
    → is_indexed e.info.allocation_id e.info.space r.replay_allocations ≡ false
    → restore_input p reset e.info given r ≡ ok (after reset e given r)
unfolding restore_input copy_data
input_restored p reset e none r dumped way fresh = rw fresh (rw dumped refl)
input_restored p reset e (some bytes) r dumped way fresh = rw fresh (rw way (rw dumped refl))

-- A visit of a new entry that was dumped.
visited :
    (p : Platform) (reset : Bool) (e : Entry) (bytes : Bytes) (r : Restored)
    → e.info.bytes_dumped ≡ true
    → check_byte_dataset e ≡ ok bytes
    → CanCopy p e
    → is_indexed e.info.allocation_id e.info.space r.replay_allocations ≡ false
    → visit_input p reset e r ≡ ok (after reset e (if e.info.size == 0 then none else some bytes) r)
unfolding visit_input
visited p reset e bytes r dumped checked way fresh =
    rw (allocated p e bytes dumped checked way, visit_input)
      (input_restored p reset e _ r dumped way fresh)

-- The memory at an address after the visit.
after_memory :
    (reset : Bool) (e : Entry) (bytes : Bytes) (r : Restored) (s : MemorySpaceType) (a : ℕ)
    → length bytes ≡ e.info.size
    → (after reset e (if e.info.size == 0 then none else some bytes) r).memory s a
      ≡ or_else (byte_at (input_of e bytes) s a) (r.memory s a)
after_memory reset e [] r s a n =
    elim (Bool-cases (same_space s (space_of e) && leb e.info.address a)) [
      | inl t ↦ ground arith
      | inr t ↦ ground arith
    ]
after_memory reset e (b ∷ bytes) r s a n =
    let full : (e.info.size == 0) ≡ false = ground arith in rw full refl

same_space_refl : (s : MemorySpaceType) → same_space s s ≡ true
same_space_refl host = refl
same_space_refl device = refl

same_space-eq : (s t : MemorySpaceType) → same_space s t ≡ true → s ≡ t
same_space-eq host host e = refl
same_space-eq device device e = refl
same_space-eq host device e = absurd (ground arith)
same_space-eq device host e = absurd (ground arith)

abbrev is_new : ReplayAllocations → Entry → Bool
is_new all e = not (is_indexed e.info.allocation_id e.info.space all)

-- The bytes are those of the memory `mem` at the address: before the copy or by the copy.
copied_kept :
    (mem : Memory) (e : Entry) (bytes : Bytes) (s : MemorySpaceType) (a old : ℕ)
    → check_byte_dataset e ≡ ok bytes
    → Agrees mem e
    → old ≡ mem s a
    → or_else (byte_at (input_of e bytes) s a) old ≡ mem s a
copied_kept mem e bytes s a old checked agrees kept =
    elim (Option-cases (byte_at (input_of e bytes) s a)) [
      | inl missed ↦ rw missed kept
      | inr (b, hit) ↦ rw hit (
          let same : space_of e ≡ s = sym (same_space-eq s (space_of e) (ground arith)) in
          let in_bytes : get_elem? bytes (a - e.info.address) ≡ some b = ground arith in
          let at : e.info.address + (a - e.info.address) ≡ a = ground arith in
          agrees bytes checked (a - e.info.address) b in_bytes ∙ (λ j. mem (same j) (at j)))
    ]

copied_there :
    (mem : Memory) (e : Entry) (bytes : Bytes) (i old : ℕ)
    → check_byte_dataset e ≡ ok bytes
    → Agrees mem e
    → i < e.info.size
    → or_else (byte_at (input_of e bytes) (space_of e) (e.info.address + i)) old
      ≡ mem (space_of e) (e.info.address + i)
copied_there mem e bytes i old checked agrees inside =
    let (b, found) = get_elem?-some bytes i (omega (arith, checked_length e bytes checked)) in
    let shift : e.info.address + i - e.info.address ≡ i = omega arith in
    let hit : byte_at (input_of e bytes) (space_of e) (e.info.address + i) ≡ some b =
      ground (arith, same_space_refl (space_of e)) in
    rw hit (agrees bytes checked i b found)

-- Every entry of the list that is not new would be refused.
abbrev AllNew : ReplayAllocations → List Entry → Type 0
AllNew all es = (x : Entry) → Listed x es → is_indexed x.info.allocation_id x.info.space all ≡ false

still_new :
    (reset : Bool) (e x : Entry) (given : Option Bytes) (r : Restored)
    → is_indexed x.info.allocation_id x.info.space r.replay_allocations ≡ false
    → same_key e x ≡ false
    → is_indexed x.info.allocation_id x.info.space (after reset e given r).replay_allocations
      ≡ false
still_new reset e x none r new apart =
    is_indexed-snoc x.info.allocation_id x.info.space r.replay_allocations (stored e.info)
    ∙ rw new apart
still_new reset e x (some bytes) r new apart =
    is_indexed-snoc x.info.allocation_id x.info.space r.replay_allocations (stored e.info)
    ∙ rw new apart

-- Entries that were dumped, apart from each other and from what is there already, are all restored:
-- the memory then holds the bytes of the dump, and what it shared with them before.
pub restore_inputs_lem :
    (p : Platform) (reset : Bool) (mem : Memory) (es : List Entry) (r : Restored)
    → ((e : Entry) → Listed e es → IsDumped e × CanCopy p e × Agrees mem e)
    → Apart es
    → AllNew r.replay_allocations es
    → (r' : Restored) × (restore_inputs p reset es r ≡ ok r')
      × ((s : MemorySpaceType) (a : ℕ) → r.memory s a ≡ mem s a → r'.memory s a ≡ mem s a)
      × ((e : Entry) (i : ℕ)
          → Listed e es
          → i < e.info.size
          → r'.memory (space_of e) (e.info.address + i) ≡ mem (space_of e) (e.info.address + i))
unfolding restore_inputs
restore_inputs_lem p reset mem [] r good apart new = (r, refl, λ s a k. k, λ e i l. elim l [ ])
restore_inputs_lem p reset mem (e ∷ es) r good apart new =
    let ((dumped, (bytes, checked)), way, agrees) = good e (inl refl) in
    let next = after reset e (if e.info.size == 0 then none else some bytes) r in
    let step = visited p reset e bytes r dumped checked way (new e (inl refl)) in
    let long = checked_length e bytes checked in
    let (r', done, keeps, holds) =
      restore_inputs_lem p reset mem es next (λ x l. good x (inr l)) apart.1
        (λ x l.
          still_new reset e x (if e.info.size == 0 then none else some bytes) r (new x (inr l))
            (apart.0 x l)) in
    (
      r',
      rw (step, restore_inputs) done,
      λ s a k. keeps s a (
          after_memory reset e bytes r s a long
          ∙ copied_kept mem e bytes s a (r.memory s a) checked agrees k),
      λ x i l inside. elim l [
        | inl here ↦
            subst
              (λ (y : Entry).
                i < y.info.size
                → r'.memory (space_of y) (y.info.address + i)
                  ≡ mem (space_of y) (y.info.address + i))
              (sym here)
              (λ inside_. keeps (space_of e) (e.info.address + i) (
                after_memory reset e bytes r (space_of e) (e.info.address + i) long
                ∙ copied_there mem e bytes i (r.memory (space_of e) (e.info.address + i)) checked
                    agrees inside_))
              inside
        | inr there ↦ holds x i there inside
      ],
    )
