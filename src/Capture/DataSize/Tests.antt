-- ===== src/Capture/DataSize/Tests.antt =====
-- Sizes on concrete allocations, and the theorems at them.
use krepe.Prelude.{◌+◌, ◌≤◌, ◌≡◌, refl, true, false, none, some, codes, text_eq}
use krepe.Capture.DataSize.{
  Host, DriverRange, known_range, allocation_data_size, host_allocation_size, is_host_space,
  is_cuda_pointer_attribute_space, is_hip_pointer_attribute_space,
}
use krepe.Capture.DataSize.Bounds.{allocation_data_size_bound}

-- A host that reports the size of the header, with 4000 bytes behind each pointer.
abbrev pub linux_host : Host
linux_host = record {
  header_size = 128;
  cuda_dump = false;
  hip_dump = false;
  linux = true;
  cuda_range = λ p. none;
  hip_range = λ p. none;
  malloc_usable_size = λ p. 4000;
  space_name_size = 64;
}

abbrev heap : DriverRange
heap = record { base = 1000; size = 4000 }

found : known_range linux_host (codes "Host") 1000 ≡ some heap
unfolding known_range host_allocation_size is_host_space is_cuda_pointer_attribute_space
    is_hip_pointer_attribute_space text_eq
found = refl

sized : allocation_data_size linux_host (codes "Host") 1000 1128 128 ≡ some 128
unfolding allocation_data_size text_eq
sized = refl

allocation_data_size_bound_example : (1000 ≤ 1128) × (1128 + 128 ≤ 1000 + 4000) × (128 ≤ 128)
allocation_data_size_bound_example =
    allocation_data_size_bound linux_host (codes "Host") 1000 1128 128 128 heap refl found sized
