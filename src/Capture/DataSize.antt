-- ===== src/Capture/DataSize.antt =====
-- How many bytes of an allocation may be read: `allocation_data_pointer`, `validated_data_size` and
-- `allocation_data_size` of src/krepe/capture/kokkos_hooks.cpp.
pub mod Bounds
pub mod Tests
use krepe.Prelude.{
  ℕ, ◌+◌, ◌-◌, ◌%◌, ◌^◌, ◌≡◌, Bool, true, false, ◌&&◌, ◌||◌, not, Option, none, some, Text, codes,
  text_eq, ltb, leb, ◌==◌, if◌then◌else◌,
}

-- What an attribute query of the CUDA or HIP driver gives: the range of the allocation that the
-- pointer lies in, or `none` if one of the two calls reports an error.
pub record DriverRange : Type 0 where
  pub base : ℕ
  pub size : ℕ

-- The build, and the calls of other libraries: `KREPE_KOKKOS_ALLOCATION_HEADER_SIZE`, whether the
-- CUDA and HIP dumps are enabled, whether the system is Linux, what the drivers and
-- `malloc_usable_size` answer for a pointer, and the size of Kokkos' buffer for a space's name.
pub record Host : Type 0 where
  pub header_size : ℕ
  pub cuda_dump : Bool
  pub hip_dump : Bool
  pub linux : Bool
  pub cuda_range : ℕ → Option DriverRange
  pub hip_range : ℕ → Option DriverRange
  pub malloc_usable_size : ℕ → ℕ
  pub space_name_size : ℕ

pub allocation_data_pointer : Host → ℕ → ℕ
allocation_data_pointer h ptr = (ptr + h.header_size) % 2 ^ 64

host_allocation_size : Host → ℕ → ℕ
host_allocation_size h ptr = if h.linux then h.malloc_usable_size ptr else 0

unfoldable pub validated_data_size : ℕ → ℕ → ℕ → ℕ → Option ℕ
validated_data_size base allocation_size data_ptr reported_size =
    let offset = data_ptr - base in
    let available = allocation_size - offset in
    if ltb data_ptr base
    then none
    else if ltb allocation_size offset
    then none
    else if offset == allocation_size
    then some 0
    else some (if leb reported_size available then reported_size else 0)

is_cuda_pointer_attribute_space : Text → Bool
is_cuda_pointer_attribute_space space =
    text_eq space (codes "Cuda")
    || text_eq space (codes "CudaUVM")
    || text_eq space (codes "CudaHostPinned")

is_hip_pointer_attribute_space : Text → Bool
is_hip_pointer_attribute_space space =
    text_eq space (codes "HIP")
    || text_eq space (codes "HIPManaged")
    || text_eq space (codes "HIPHostPinned")

is_host_space : Text → Bool
is_host_space space = text_eq space (codes "Host")

-- The range that bounds the data: from a driver if one knows the space and answers, and from the
-- allocator for the host.
pub known_range : Host → Text → ℕ → Option DriverRange
known_range h space ptr =
    let from_host : Option DriverRange =
      if is_host_space space
      then if host_allocation_size h ptr == 0
        then none
        else some (record { base = ptr; size = host_allocation_size h ptr })
      else none in
    let from_hip : Option DriverRange =
      elim (if h.hip_dump && is_hip_pointer_attribute_space space then h.hip_range ptr else none) [
        | none ↦ from_host
        | some r ↦ some r
      ] in
    elim (if h.cuda_dump && is_cuda_pointer_attribute_space space then h.cuda_range ptr else none) [
      | none ↦ from_hip
      | some r ↦ some r
    ]

unfoldable pub allocation_data_size : Host → Text → ℕ → ℕ → ℕ → Option ℕ
unfolding validated_data_size known_range is_cuda_pointer_attribute_space
    is_hip_pointer_attribute_space is_host_space host_allocation_size
allocation_data_size h space ptr data_ptr reported_size =
    if not (reported_size == h.header_size)
    then some reported_size
    else elim (known_range h space ptr) [
      | none ↦ none
      | some r ↦ validated_data_size r.base r.size data_ptr reported_size
    ]
