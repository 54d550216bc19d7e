-- ===== src/Replay/Load/Output.antt =====
-- Outputs meet their inputs, once each.
use krepe.Prelude.{
  ℕ, ◌≡◌, refl, ◌⊎◌, inl, inr, true, false, Option, none, some, [], ◌∷◌, ◌++◌, Bytes, Text,
  text_eq_iff, arith, Result, ok, err, Bool-cases,
}
use krepe.Replay.Error.{Error}
use krepe.Replay.Space.{Platform}
use krepe.Replay.Dump.{SnapshotAllocation}
use krepe.Replay.Store.{StoredAllocation, ReplayAllocations}
use krepe.Replay.Load.{is_at, allocate_output, visit_output}

-- What an output adds to its input: it is marked, and its reference is described; what is known of
-- the input stays.
pub record IsOutputOf (info : SnapshotAllocation) (a b : StoredAllocation) : Type 0 where
  pub first : a.output_seen ≡ false
  pub labelled : a.descriptor.label ≡ info.label
  pub marked : b.output_seen ≡ true
  pub captured : b.captured_allocation ≡ a.captured_allocation
  pub label : b.descriptor.label ≡ a.descriptor.label
  pub memory_space : b.descriptor.memory_space ≡ a.descriptor.memory_space
  pub input_data : b.descriptor.p_data ≡ a.descriptor.p_data
  pub input_size : b.descriptor.size_bytes ≡ a.descriptor.size_bytes
  pub reference_size : b.descriptor.reference_size_bytes ≡ info.size
  pub referenced : b.descriptor.has_reference ≡ info.bytes_dumped

allocate_output-IsOutputOf :
    (p : Platform) (a b : StoredAllocation) (info : SnapshotAllocation) (bytes : Option Bytes)
    (address : ℕ)
    → allocate_output p a info bytes address ≡ ok b
    → IsOutputOf info a b
unfolding allocate_output
allocate_output-IsOutputOf p a b info none address e = record {
  first = ground arith;
  labelled = ground (arith, text_eq_iff a.descriptor.label info.label);
  marked = ground arith;
  captured = ground arith;
  label = ground arith;
  memory_space = ground arith;
  input_data = ground arith;
  input_size = ground arith;
  reference_size = ground arith;
  referenced = ground arith;
}
allocate_output-IsOutputOf p a b info (some bytes) address e = record {
  first = ground arith;
  labelled = ground (arith, text_eq_iff a.descriptor.label info.label);
  marked = ground arith;
  captured = ground arith;
  label = ground arith;
  memory_space = ground arith;
  input_data = ground arith;
  input_size = ground arith;
  reference_size = ground arith;
  referenced = ground arith;
}

-- None of the allocations has this address and space.
abbrev pub Misses : ℕ → Text → ReplayAllocations → Type 0
Misses id space [] = Unit
Misses id space (a ∷ all) = (is_at id space a ≡ false) × Misses id space all

-- An output that is accepted changes one allocation, the first of the captured address and space,
-- whose output had not been seen and which has its label; every other allocation stays as it is.
pub visit_output_lem :
    (p : Platform) (fresh : SnapshotAllocation → ℕ) (info : SnapshotAllocation)
    (bytes : Option Bytes) (all all' : ReplayAllocations)
    → visit_output p fresh info bytes all ≡ ok all'
    → (pre : ReplayAllocations) × (a : StoredAllocation) × (b : StoredAllocation)
      × (post : ReplayAllocations) × (all ≡ pre ++ a ∷ post)
      × (all' ≡ pre ++ b ∷ post)
      × Misses info.allocation_id info.space pre
      × (is_at info.allocation_id info.space a ≡ true)
      × IsOutputOf info a b
unfolding visit_output
visit_output_lem p fresh info bytes [] all' e = absurd (ground arith)
visit_output_lem p fresh info bytes (a ∷ all) all' e =
    found (Bool-cases (is_at info.allocation_id info.space a))
      (allocate_output p a info bytes (fresh info)) refl (visit_output p fresh info bytes all) refl
      (visit_output_lem p fresh info bytes all)
  where
    Outcome : ReplayAllocations → ReplayAllocations → Type 0
    Outcome xs ys =
        (pre : ReplayAllocations) × (a : StoredAllocation) × (b : StoredAllocation)
        × (post : ReplayAllocations) × (xs ≡ pre ++ a ∷ post)
        × (ys ≡ pre ++ b ∷ post)
        × Misses info.allocation_id info.space pre
        × (is_at info.allocation_id info.space a ≡ true)
        × IsOutputOf info a b

    found :
        ((is_at info.allocation_id info.space a ≡ true)
          ⊎ (is_at info.allocation_id info.space a ≡ false))
        → (now : Result Error StoredAllocation) → allocate_output p a info bytes (fresh info) ≡ now
        → (later : Result Error ReplayAllocations) → visit_output p fresh info bytes all ≡ later
        → ((xs : ReplayAllocations) → visit_output p fresh info bytes all ≡ ok xs → Outcome all xs)
        → Outcome (a ∷ all) all'
    found (inl hit) (err x) n later l rest = absurd (ground arith)
    found (inl hit) (ok b) n later l rest = (
      [],
      a,
      b,
      all,
      refl,
      ground arith,
      tt,
      hit,
      allocate_output-IsOutputOf p a b info bytes (fresh info) n,
    )
    found (inr miss) now n (err x) l rest = absurd (ground arith)
    found (inr miss) now n (ok more) l rest =
        let (pre, c, b, post, before, after, misses, hit, output) = rest more l in
        (a ∷ pre, c, b, post, ground arith, ground arith, (miss, misses), hit, output)
