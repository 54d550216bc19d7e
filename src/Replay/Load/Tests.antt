-- ===== src/Replay/Load/Tests.antt =====
-- A dump that is restored, changed and reset, and the theorems at it.
use krepe.Prelude.{◌≡◌, refl, true, some, [], ◌∷◌, ◌++◌, codes, text_eq, ok, err}
use krepe.Replay.Error.{inconsistent_output, duplicate_input}
use krepe.Replay.Space.{host, memory_space_type_from_string}
use krepe.Replay.Dump.{SnapshotAllocation, check_byte_dataset, allocate_hdf5_dataset}
use krepe.Replay.Dump.Tests.{cpu, dumped, entries}
use krepe.Replay.Store.{StoredAllocation, ReplayAllocations}
use krepe.Replay.Load.{
  Memory, Restored, copy_data, restore_input, visit_input, restore_inputs, stored, allocate_output,
  visit_output, is_at, byte_at, or_else,
}
use krepe.Replay.Load.Output.{Misses, IsOutputOf, visit_output_lem}

abbrev blank : Memory
blank s a = 0

abbrev sevens : Memory
sevens s a = 7

abbrev restored : Restored
restored = record {
  input_snapshots =
      record { memory_space = host; address = 5000; bytes = 1 ∷ 2 ∷ 3 ∷ [] }
      ∷ record { memory_space = host; address = 8191; bytes = 4 ∷ 5 ∷ 6 ∷ [] }
      ∷ [];
  replay_allocations =
      stored (dumped (codes "x") 5000 []).info ∷ stored (dumped (codes "y") 8191 []).info ∷ [];
  memory = λ s a.
      or_else (byte_at (record { memory_space = host; address = 8191; bytes = 4 ∷ 5 ∷ 6 ∷ [] }) s a)
        (or_else
          (byte_at (record { memory_space = host; address = 5000; bytes = 1 ∷ 2 ∷ 3 ∷ [] }) s a) 0);
}

twice :
    (restore_inputs cpu true
      (dumped (codes "x") 5000 (1 ∷ 2 ∷ 3 ∷ []) ∷ entries)
      (record { input_snapshots = []; replay_allocations = []; memory = blank }))
    ≡ err (duplicate_input (codes "x"))
unfolding restore_inputs visit_input restore_input copy_data allocate_hdf5_dataset
    check_byte_dataset memory_space_type_from_string text_eq
twice = refl

abbrev output : SnapshotAllocation
output = (dumped (codes "y") 8191 []).info

abbrev attached : ReplayAllocations
attached =
    stored (dumped (codes "x") 5000 []).info
    ∷ (let a = stored output in
        record a {
          output_seen = true;
          reference = some (9 ∷ 9 ∷ 9 ∷ []);
          descriptor = record a.descriptor {
            reference_data = 70000;
            reference_size_bytes = 3;
            has_reference = true;
          };
        })
    ∷ []

accepted :
    visit_output cpu (λ info. 70000) output (some (9 ∷ 9 ∷ 9 ∷ [])) restored.replay_allocations
    ≡ ok attached
unfolding visit_output allocate_output memory_space_type_from_string text_eq
accepted = refl

refused :
    visit_output cpu (λ info. 70000) output (some (9 ∷ 9 ∷ 9 ∷ [])) attached
    ≡ err (inconsistent_output (codes "y"))
unfolding visit_output allocate_output memory_space_type_from_string text_eq
refused = refl

visit_output_lem_example :
    (pre : ReplayAllocations) × (a : StoredAllocation) × (b : StoredAllocation)
    × (post : ReplayAllocations) × (restored.replay_allocations ≡ pre ++ a ∷ post)
    × (attached ≡ pre ++ b ∷ post)
    × Misses 8191 (codes "Host") pre
    × (is_at 8191 (codes "Host") a ≡ true)
    × IsOutputOf output a b
visit_output_lem_example =
    visit_output_lem cpu (λ info. 70000) output (some (9 ∷ 9 ∷ 9 ∷ [])) restored.replay_allocations
      attached accepted
