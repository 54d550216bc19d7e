-- ===== src/Replay/Dump.antt =====
-- What the replayer reads of the allocations in a dump, and the ranges that it reserves for them:
-- `SnapshotAllocation`, `check_byte_dataset`, `get_hdf5_dataset_alloc_info` and
-- `allocate_hdf5_dataset` of src/krepe/replay/kernel_replayer.cpp. The entries are in the order in
-- which the HDF5 library visits the groups, with the attributes that `read_allocation_info` finds.
pub mod Plan
pub mod Tests
use krepe.Prelude.{
  ℕ, Bool, true, false, not, ◌&&◌, ◌||◌, Option, none, some, List, [], ◌∷◌, Bytes, Text, length,
  Result, ok, err, ◌==◌, if◌then◌else◌,
}
use krepe.Replay.Error.{
  Error, hdf5_failed, not_one_dimensional, inconsistent_dataset, input_unavailable,
}
use krepe.Replay.Space.{
  MemorySpaceType, is_host, same_space, memory_space_type_from_string, Platform,
}
use krepe.Replay.Ranges.{Range, get_allocation_address, insert_range, compute_allocations}

pub record SnapshotAllocation : Type 0 where
  pub label : Text
  pub space : Text
  pub allocation_id : ℕ
  pub address : ℕ
  pub size : ℕ
  pub bytes_dumped : Bool

-- The dataset `bytes` of a group: its shape and type, and what a read as unsigned bytes gives.
pub record ByteDataset : Type 0 where
  pub rank : ℕ
  pub is_integer : Bool
  pub datatype_size : ℕ
  pub bytes : Bytes

-- The group of an allocation; `none` where there is no dataset that can be read.
pub record Entry : Type 0 where
  pub info : SnapshotAllocation
  pub dataset : Option ByteDataset

abbrev pub space_of : Entry → MemorySpaceType
space_of e = memory_space_type_from_string e.info.space

-- The check, which leaves the bytes of a dataset that passes it.
unfoldable pub check_byte_dataset : Entry → Result Error Bytes
check_byte_dataset e = elim e.dataset [
  | none ↦ err hdf5_failed
  | some d ↦
      if not (d.rank == 1)
      then err not_one_dimensional
      else if not d.is_integer
          || (not (d.datatype_size == 1) || not (length d.bytes == e.info.size))
      then err inconsistent_dataset
      else ok d.bytes
]

-- One visit, with the set of the ranges so far.
unfoldable pub get_hdf5_dataset_alloc_info :
    Platform → MemorySpaceType → Entry → List Range → Result Error (List Range)
get_hdf5_dataset_alloc_info p target_memory_space e allocations =
    if not (same_space (space_of e) target_memory_space)
    then ok allocations
    else if not e.info.bytes_dumped
    then err (input_unavailable e.info.label)
    else elim (check_byte_dataset e) [
      | err x ↦ err x
      | ok bytes ↦
          if e.info.size == 0
          then ok allocations
          else elim (get_allocation_address p e.info.address e.info.size (space_of e)) [
            | err x ↦ err x
            | ok r ↦ ok (insert_range r allocations)
          ]
    ]

unfoldable pub collect :
    Platform → MemorySpaceType → List Entry → List Range → Result Error (List Range)
collect p target_memory_space [] allocations = ok allocations
collect p target_memory_space (e ∷ es) allocations =
    elim (get_hdf5_dataset_alloc_info p target_memory_space e allocations) [
      | err x ↦ err x
      | ok more ↦ collect p target_memory_space es more
    ]

-- What the constructor of `ScopeGuard` reserves in a space.
unfoldable pub locations : Platform → MemorySpaceType → List Entry → Result Error (List Range)
unfolding collect
locations p target_memory_space es = elim (collect p target_memory_space es []) [
  | err x ↦ err x
  | ok allocations ↦ ok (compute_allocations allocations)
]

-- What the callback of an allocation is given: no bytes, or those that the buffer was filled with.
-- With no device space the buffer for a device is a null pointer, which the read refuses.
unfoldable pub allocate_hdf5_dataset : Platform → Entry → Result Error (Option Bytes)
allocate_hdf5_dataset p e =
    if not e.info.bytes_dumped then ok none else elim (check_byte_dataset e) [
      | err x ↦ err x
      | ok bytes ↦
          if e.info.size == 0
          then ok none
          else if is_host (space_of e) || p.has_device
          then ok (some bytes)
          else err hdf5_failed
    ]
