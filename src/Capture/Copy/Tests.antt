-- ===== src/Capture/Copy/Tests.antt =====
-- Copies of concrete allocations, and the theorems at them.
use krepe.Prelude.{
  ℕ, ◌⊎◌, ◌↔◌, zero, suc, ◌≡◌, ◌≢◌, refl, true, false, none, some, [], ◌∷◌, Text, codes, length,
  text_eq, ap,
}
use krepe.Capture.Tracker.{ActiveAllocation}
use krepe.Capture.Copy.{
  Memory, zeros, unsupported_space, copy_allocation_bytes, is_host_accessible_space,
  is_cuda_device_space, is_hip_device_space, cuda_disabled,
}
use krepe.Capture.Copy.Laws.{
  IsExact, copy_allocation_bytes_lem, IsCopyOf, copy_allocation_bytes-IsCopyOf,
}

length-zeros : (n : ℕ) → length (zeros n) ≡ n
length-zeros zero = refl
length-zeros (suc n) = ap suc (length-zeros n)

abbrev host_memory : Memory
host_memory = record {
  cuda_dump = false;
  hip_dump = false;
  host_bytes = λ a n. zeros n;
  cuda_memcpy = λ a n. none;
  hip_memcpy = λ a n. none;
  can_allocate = λ n. true;
}

host_memory-IsExact : IsExact host_memory
host_memory-IsExact = record {
  host_exact = λ a n. length-zeros n;
  cuda_exact = λ a n. tt;
  hip_exact = λ a n. tt;
}

abbrev in_space : Text → ActiveAllocation
in_space space = record {
  ptr = 1000;
  recorded = record {
    label = codes "x";
    space = space;
    p_data = 1128;
    size = 3;
    reported_size = 3;
    data_size_known = true;
  };
}

-- What the vector held is left alone.
disabled :
    copy_allocation_bytes host_memory (in_space (codes "Cuda")) (7 ∷ [])
    ≡ (some cuda_disabled, 7 ∷ [])
unfolding copy_allocation_bytes is_host_accessible_space is_cuda_device_space is_hip_device_space
    text_eq
disabled = refl

unsupported :
    copy_allocation_bytes host_memory (in_space (codes "Scratch")) [] ≡ (some unsupported_space, [])
unfolding copy_allocation_bytes is_host_accessible_space is_cuda_device_space is_hip_device_space
    text_eq
unsupported = refl

copied_from_host :
    copy_allocation_bytes host_memory (in_space (codes "Host")) (7 ∷ []) ≡ (none, zeros 3)
unfolding copy_allocation_bytes is_host_accessible_space is_cuda_device_space is_hip_device_space
    text_eq
copied_from_host = refl

copy_allocation_bytes_lem_example :
    let (reason, copied) = copy_allocation_bytes host_memory (in_space (codes "Host")) (7 ∷ []) in
    (reason ≡ none → (true ≡ true) × (length copied ≡ 3))
    × (reason ≢ none → (copied ≡ []) ⊎ (copied ≡ 7 ∷ []))
copy_allocation_bytes_lem_example =
    copy_allocation_bytes_lem host_memory (in_space (codes "Host")) (7 ∷ []) host_memory-IsExact

copy_allocation_bytes-IsCopyOf_example :
    let size : ℕ = 3 in
    let address : ℕ = 1128 in
    (copy_allocation_bytes host_memory (in_space (codes "Host")) (7 ∷ []) ≡ (none, zeros 3)) ↔ (
      (true ≡ true)
      × (((size ≡ 0) × (zeros 3 ≡ []))
          ⊎ ((size ≢ 0)
              × (true ≡ true)
              × (address ≢ 0)
              × IsCopyOf host_memory (in_space (codes "Host")) (zeros 3))))
copy_allocation_bytes-IsCopyOf_example =
    copy_allocation_bytes-IsCopyOf host_memory (in_space (codes "Host")) (7 ∷ []) (zeros 3)
