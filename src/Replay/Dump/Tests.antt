-- ===== src/Replay/Dump/Tests.antt =====
-- A dump with two allocations of the host, and the theorems at it.
use krepe.Prelude.{
  ℕ, ◌≡◌, refl, true, false, none, some, List, [], ◌∷◌, Bytes, Text, codes, text_eq, ok, err, arith,
}
use krepe.Replay.Error.{input_unavailable}
use krepe.Replay.Space.{host, Platform, memory_space_type_from_string}
use krepe.Replay.Ranges.{
  Range, compute_allocations, align_range, insert_range, granularity, Separated, Aligned,
  get_allocation_address,
}
use krepe.Replay.Dump.{Entry, check_byte_dataset, get_hdf5_dataset_alloc_info, locations}
use krepe.Replay.Dump.Plan.{IsDumped, HasRoom, Each, Holds, locations_hold}

abbrev pub cpu : Platform
cpu = record {
  has_device = false;
  device_space_name = [];
  host_granularity = 4096;
  device_granularity = 0;
}

abbrev pub dumped : Text → ℕ → Bytes → Entry
dumped label address bytes = record {
  info = record {
    label = label;
    space = codes "Host";
    allocation_id = address;
    address = address;
    size = 3;
    bytes_dumped = true;
  };
  dataset = some (record { rank = 1; is_integer = true; datatype_size = 1; bytes = bytes });
}

abbrev pub entries : List Entry
entries = dumped (codes "x") 5000 (1 ∷ 2 ∷ 3 ∷ []) ∷ dumped (codes "y") 8191 (4 ∷ 5 ∷ 6 ∷ []) ∷ []

abbrev skipped : Entry
skipped =
    let e = dumped (codes "z") 5000 [] in
    record { info = record e.info { bytes_dumped = false }; dataset = none }

reserved : locations cpu host entries ≡ ok (record { address = 4096; size = 8192 } ∷ [])
unfolding locations get_hdf5_dataset_alloc_info check_byte_dataset memory_space_type_from_string
    get_allocation_address align_range insert_range compute_allocations text_eq
reserved = refl

unavailable : locations cpu host (skipped ∷ []) ≡ err (input_unavailable (codes "z"))
unfolding locations get_hdf5_dataset_alloc_info memory_space_type_from_string text_eq
unavailable = refl

entries-IsDumped : Each host IsDumped entries
unfolding check_byte_dataset
entries-IsDumped =
    (λ here. (refl, (1 ∷ 2 ∷ 3 ∷ [], refl)), (λ here. (refl, (4 ∷ 5 ∷ 6 ∷ [], refl)), tt))

entries-HasRoom : Each host (HasRoom 4096) entries
entries-HasRoom = (λ here. omega arith, (λ here. omega arith, tt))

locations_hold_example :
    (rs : List Range) × (locations cpu host entries ≡ ok rs)
    × Separated 0 rs
    × Aligned 4096 rs
    × Each host (Holds rs) entries
unfolding granularity
locations_hold_example =
    locations_hold cpu host 4096 entries refl (omega arith) entries-IsDumped entries-HasRoom
