-- ===== src/Replay/Load.antt =====
-- How a dump is restored: the callbacks of the constructor of `ScopeGuard`, `allocate_output` and
-- the copies of `reset_inputs` of src/krepe/replay/kernel_replayer.cpp, and `copy_data` of
-- src/krepe/replay/allocation.hpp.
pub mod Inputs
pub mod Reset
pub mod Output
pub mod Tests
use krepe.Prelude.{
  ℕ, ◌+◌, ◌-◌, Bool, true, false, not, ◌&&◌, ◌||◌, Option, none, some, List, [], ◌∷◌, ◌++◌, Bytes,
  Text, text_eq, get_elem?, leb, Result, ok, err, ◌==◌, if◌then◌else◌,
}
use krepe.Replay.Error.{
  Error, hdf5_failed, no_device_space, missing_input_bytes, duplicate_input, unmatched_output,
  inconsistent_output,
}
use krepe.Replay.Space.{
  MemorySpaceType, is_host, same_space, memory_space_type_from_string, Platform,
}
use krepe.Replay.Dump.{SnapshotAllocation, Entry, space_of, allocate_hdf5_dataset}
use krepe.Replay.Store.{ReplayAllocation, StoredAllocation, ReplayAllocations}

-- The byte at each address of each space.
abbrev pub Memory : Type 0
Memory = MemorySpaceType → ℕ → ℕ

pub record InputSnapshot : Type 0 where
  pub memory_space : MemorySpaceType
  pub address : ℕ
  pub bytes : Bytes

-- What a copy of these bytes puts at an address, if anything.
abbrev pub byte_at : InputSnapshot → MemorySpaceType → ℕ → Option ℕ
byte_at i s a =
    if same_space s i.memory_space && leb i.address a
    then get_elem? i.bytes (a - i.address)
    else none

abbrev pub or_else : Option ℕ → ℕ → ℕ
or_else none old = old
or_else (some b) old = b

unfoldable pub copy_data : Platform → InputSnapshot → Memory → Result Error Memory
copy_data p i m =
    if is_host i.memory_space || p.has_device
    then ok (λ s a. or_else (byte_at i s a) (m s a))
    else err no_device_space

-- The members of `ScopeGuard` that the callbacks fill.
pub record Restored : Type 0 where
  pub input_snapshots : List InputSnapshot
  pub replay_allocations : ReplayAllocations
  pub memory : Memory

-- The key of `allocation_index`, which has an entry for each stored allocation.
abbrev pub is_at : ℕ → Text → StoredAllocation → Bool
is_at id space a = a.captured_allocation == id && text_eq a.descriptor.memory_space space

unfoldable pub is_indexed : ℕ → Text → ReplayAllocations → Bool
is_indexed id space [] = false
is_indexed id space (a ∷ all) = is_at id space a || is_indexed id space all

abbrev pub stored : SnapshotAllocation → StoredAllocation
stored info = record {
  captured_allocation = info.allocation_id;
  descriptor = record {
    label = info.label;
    memory_space = info.space;
    p_data = if info.size == 0 then 0 else info.address;
    size_bytes = info.size;
    reference_data = 0;
    reference_size_bytes = 0;
    has_input = true;
    has_reference = false;
  };
  output_seen = false;
  reference = none;
}

-- `copy_data_wrapper`, with `input_reset_enabled`. A dumped allocation that is not empty comes with
-- its bytes.
unfoldable pub restore_input :
    Platform → Bool → SnapshotAllocation → Option Bytes → Restored → Result Error Restored
unfolding is_indexed
restore_input p input_reset_enabled info data_bytes r =
    let added = r.replay_allocations ++ stored info ∷ [] in
    if not info.bytes_dumped
    then err (missing_input_bytes info.label)
    else if is_indexed info.allocation_id info.space r.replay_allocations
    then err (duplicate_input info.label)
    else elim data_bytes [
      | none ↦ ok (record r { replay_allocations = added })
      | some bytes ↦
          let input : InputSnapshot = record {
            memory_space = memory_space_type_from_string info.space;
            address = info.address;
            bytes = bytes;
          } in
          elim (copy_data p input r.memory) [
            | err x ↦ err x
            | ok m ↦
                let kept =
                  if input_reset_enabled
                  then r.input_snapshots ++ input ∷ []
                  else r.input_snapshots in
                ok (record { input_snapshots = kept; replay_allocations = added; memory = m })
          ]
    ]

unfoldable pub visit_input : Platform → Bool → Entry → Restored → Result Error Restored
visit_input p input_reset_enabled e r = elim (allocate_hdf5_dataset p e) [
  | err x ↦ err x
  | ok bytes ↦ restore_input p input_reset_enabled e.info bytes r
]

unfoldable pub restore_inputs : Platform → Bool → List Entry → Restored → Result Error Restored
restore_inputs p input_reset_enabled [] r = ok r
restore_inputs p input_reset_enabled (e ∷ es) r = elim (visit_input p input_reset_enabled e r) [
  | err x ↦ err x
  | ok more ↦ restore_inputs p input_reset_enabled es more
]

-- `ScopeGuard::allocate_output`. The last argument is the address of the copy that `malloc` or the
-- driver of the device gives.
unfoldable pub allocate_output :
    Platform
    → StoredAllocation
    → SnapshotAllocation
    → Option Bytes
    → ℕ
    → Result Error StoredAllocation
allocate_output p a info data_bytes reference_address =
    let seen = record a {
      output_seen = true;
      descriptor = record a.descriptor {
        reference_size_bytes = info.size;
        has_reference = info.bytes_dumped;
      };
    } in
    if a.output_seen || not (text_eq a.descriptor.label info.label)
    then err (inconsistent_output info.label)
    else elim data_bytes [
      | none ↦ ok seen
      | some bytes ↦
          if is_host (memory_space_type_from_string info.space) || p.has_device
          then ok (record seen {
            reference = some bytes;
            descriptor = record seen.descriptor { reference_data = reference_address };
          })
          else err no_device_space
    ]

-- `allocate_wrapper`: the allocation of the input with the same address and space.
unfoldable pub visit_output :
    Platform
    → (SnapshotAllocation → ℕ)
    → SnapshotAllocation
    → Option Bytes
    → ReplayAllocations
    → Result Error ReplayAllocations
visit_output p fresh info data_bytes [] = err (unmatched_output info.label)
visit_output p fresh info data_bytes (a ∷ all) =
    let rest = visit_output p fresh info data_bytes all in
    if is_at info.allocation_id info.space a
    then elim (allocate_output p a info data_bytes (fresh info)) [
      | err x ↦ err x
      | ok b ↦ ok (b ∷ all)
    ]
    else elim rest [ err x ↦ err x | ok more ↦ ok (a ∷ more) ]

unfoldable pub restore_outputs :
    Platform
    → (SnapshotAllocation → ℕ)
    → List Entry
    → ReplayAllocations
    → Result Error ReplayAllocations
restore_outputs p fresh [] all = ok all
restore_outputs p fresh (e ∷ es) all = elim (allocate_hdf5_dataset p e) [
  | err x ↦ err x
  | ok bytes ↦ elim (visit_output p fresh e.info bytes all) [
    | err x ↦ err x
    | ok more ↦ restore_outputs p fresh es more
  ]
]

-- The loop of `ScopeGuard::reset_inputs`.
unfoldable pub reset_loop : Platform → List InputSnapshot → Memory → Result Error Memory
reset_loop p [] m = ok m
reset_loop p (i ∷ is) m = elim (copy_data p i m) [ err x ↦ err x | ok m' ↦ reset_loop p is m' ]
