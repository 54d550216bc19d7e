-- ===== src/Replay/Store.antt =====
-- The allocations of an active replay and the questions about them: `get_allocations`,
-- `get_allocations_for_space_name`, `get_unique_allocation`, `get_allocation`,
-- `get_out_allocation`, `has_out_allocation`, `validate_comparison` and `init_functor` of
-- src/krepe/replay/kernel_replayer.cpp. The table of multimaps is one list of its elements: the keys
-- of an element are the type of its space and its label. A pointer to no table is `none`, a null
-- pointer to memory is 0.
pub mod Lookup
pub mod Compare
pub mod Tests
use krepe.Prelude.{
  ℕ, Bool, true, false, not, ◌&&◌, ◌||◌, Option, none, some, List, [], ◌∷◌, map, filter, Bytes,
  Text, text_eq, codes, length, take, ltb, Result, ok, err, require, ◌>>=◌, ◌>>◌, ◌==◌,
  if◌then◌else◌,
}
use krepe.Replay.Error.{
  Error, no_device_space, no_active_allocations, ambiguous_label, input_unavailable,
  reference_unavailable, incompatible_space, incompatible_sizes, missing_data, functor_too_small,
}
use krepe.Replay.Space.{
  MemorySpaceType, is_host, same_space, memory_space_type_from_string, Platform,
}

pub record ReplayAllocation : Type 0 where
  pub label : Text
  pub memory_space : Text
  pub p_data : ℕ
  pub size_bytes : ℕ
  pub reference_data : ℕ
  pub reference_size_bytes : ℕ
  pub has_input : Bool
  pub has_reference : Bool

-- With the bytes that `reference` owns.
pub record StoredAllocation : Type 0 where
  pub captured_allocation : ℕ
  pub descriptor : ReplayAllocation
  pub output_seen : Bool
  pub reference : Option Bytes

abbrev pub ReplayAllocations : Type 0
ReplayAllocations = List StoredAllocation

abbrev pub descriptor_of : StoredAllocation → ReplayAllocation
descriptor_of a = a.descriptor

abbrev pub in_space : MemorySpaceType → StoredAllocation → Bool
in_space space a = same_space (memory_space_type_from_string a.descriptor.memory_space) space

-- No label stands for every one.
abbrev pub has_label : Option Text → Text → Bool
has_label none label = true
has_label (some wanted) label = text_eq label wanted

-- `check_replay_allocations`, and the table that it leaves.
unfoldable pub check_replay_allocations :
    Platform → Option ReplayAllocations → MemorySpaceType → Result Error ReplayAllocations
check_replay_allocations p replay_allocations memory_space =
    if not p.has_device && not (is_host memory_space)
    then err no_device_space
    else elim replay_allocations [ none ↦ err no_active_allocations | some all ↦ ok all ]

abbrev pub selected : MemorySpaceType → Option Text → ReplayAllocations → List ReplayAllocation
selected memory_space label all =
    map descriptor_of
      (filter (λ a. in_space memory_space a && has_label label a.descriptor.label) all)

-- A null pointer is `none`.
unfoldable pub only : Text → List ReplayAllocation → Result Error (Option ReplayAllocation)
only label [] = ok none
only label (d ∷ []) = ok (some d)
only label (d ∷ e ∷ more) = err (ambiguous_label label)

module _ (p : Platform) (replay_allocations : Option ReplayAllocations) where
  unfoldable pub get_allocations :
      MemorySpaceType → Option Text → Result Error (List ReplayAllocation)
  get_allocations memory_space label =
      check_replay_allocations p replay_allocations memory_space >>= λ all.
      ok (selected memory_space label all)

  unfoldable pub get_allocations_for_space_name :
      Text → Option Text → Result Error (List ReplayAllocation)
  get_allocations_for_space_name memory_space label =
      get_allocations (memory_space_type_from_string memory_space) label >>= λ allocations.
      ok (filter (λ d. text_eq d.memory_space memory_space) allocations)

  unfoldable pub get_unique_allocation :
      MemorySpaceType → Text → Result Error (Option ReplayAllocation)
  unfolding only
  get_unique_allocation memory_space label =
      check_replay_allocations p replay_allocations memory_space >>= λ all.
      only label (selected memory_space (some label) all)

  unfoldable pub get_allocation : MemorySpaceType → Text → Result Error ℕ
  get_allocation memory_space label = get_unique_allocation memory_space label >>= λ found.
      ok (elim found [ none ↦ 0 | some d ↦ d.p_data ])

  unfoldable pub get_out_allocation : MemorySpaceType → Text → Result Error ℕ
  get_out_allocation memory_space label = get_unique_allocation memory_space label >>= λ found.
      ok (elim found [ none ↦ 0 | some d ↦ d.reference_data ])

  unfoldable pub has_out_allocation : MemorySpaceType → Text → Result Error Bool
  has_out_allocation memory_space label = get_unique_allocation memory_space label >>= λ found.
      ok (elim found [ none ↦ false | some d ↦ d.has_reference ])

abbrev pub host_name : Text
host_name = codes "Host"

-- The space in which a captured allocation is replayed.
unfoldable pub replay_space : Platform → Text → Result Error Text
replay_space p memory_space =
    if text_eq memory_space host_name
    then ok host_name
    else if p.has_device
    then ok p.device_space_name
    else err no_device_space

unfoldable pub validate_comparison : Platform → ReplayAllocation → Text → Result Error (Unit {0})
unfolding replay_space
validate_comparison p a memory_space =
    if not a.has_input
    then err (input_unavailable a.label)
    else if not a.has_reference
    then err (reference_unavailable a.label)
    else elim (replay_space p a.memory_space) [
      | err x ↦ err x
      | ok replayed ↦
          if not (text_eq memory_space replayed)
          then err (incompatible_space a.label)
          else if not (a.size_bytes == a.reference_size_bytes)
          then err (incompatible_sizes a.label)
          else if not (a.size_bytes == 0) && (a.p_data == 0 || a.reference_data == 0)
          then err (missing_data a.label)
          else ok tt
    ]

-- The bytes that are copied into the buffer.
unfoldable pub init_functor : Bytes → ℕ → Result Error Bytes
init_functor functor_data size =
    if ltb (length functor_data) size
    then err (functor_too_small (length functor_data) size)
    else ok (take size functor_data)
