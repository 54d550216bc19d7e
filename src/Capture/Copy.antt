-- ===== src/Capture/Copy.antt =====
-- src/krepe/capture/memory_copy.cpp: the bytes of an allocation, or the reason to skip it. An empty
-- reason is `none`.
pub mod Laws
pub mod Tests
use krepe.Prelude.{
  ℕ, zero, suc, ◌-◌, Bool, true, false, not, ◌&&◌, ◌||◌, Option, none, some, [], ◌∷◌, ◌++◌, Bytes,
  Text, take, codes, text_eq, length, ◌==◌, if◌then◌else◌,
}
use krepe.Capture.Tracker.{ActiveAllocation, AllocationRecord}

-- The messages that `copy_allocation_bytes` returns.
pub data SkipReason : Type 0 where
  unbounded no_staging_buffer unsupported_space cuda_disabled hip_disabled null_data cuda_failed
        hip_failed no_copy_path :
      SkipReason

-- The build, and the memory at the time of the copy: `n` bytes of the host's memory from an address
-- on; what `cudaMemcpy` and `hipMemcpy` to the host give, `none` for an error; and whether a vector
-- of `n` bytes can be allocated.
pub record Memory : Type 0 where
  pub cuda_dump : Bool
  pub hip_dump : Bool
  pub host_bytes : ℕ → ℕ → Bytes
  pub cuda_memcpy : ℕ → ℕ → Option Bytes
  pub hip_memcpy : ℕ → ℕ → Option Bytes
  pub can_allocate : ℕ → Bool

unfoldable pub is_host_accessible_space : Text → Bool
is_host_accessible_space space =
    text_eq space (codes "Host")
    || (text_eq space (codes "CudaHostPinned")
        || (text_eq space (codes "CudaUVM")
            || (text_eq space (codes "HIPHostPinned")
                || (text_eq space (codes "HIPManaged")
                    || (text_eq space (codes "SYCLHostUSM")
                        || (text_eq space (codes "SYCLSharedUSM")
                            || text_eq space (codes "NextSiliconSharedSpace")))))))

unfoldable pub is_cuda_device_space : Text → Bool
is_cuda_device_space space = text_eq space (codes "Cuda")

unfoldable pub is_hip_device_space : Text → Bool
is_hip_device_space space = text_eq space (codes "HIP")

-- The reason, if there is one, and what the vector holds in the end.
abbrev pub Copied : Type 0
Copied = Option SkipReason × Bytes

abbrev pub zeros : ℕ → Bytes
zeros zero = []
zeros (suc n) = 0 ∷ zeros n

-- `bytes.resize(size)`
abbrev pub resized : ℕ → Bytes → Bytes
resized size bytes = take size bytes ++ zeros (size - length bytes)

-- The three ways to copy into a buffer of the right size.
pub copy_bytes : Memory → Bool → Bool → Bool → ℕ → ℕ → Bytes → Copied
copy_bytes m true cuda_device hip_device data_ptr size buffer = (none, m.host_bytes data_ptr size)
copy_bytes m false true hip_device data_ptr size buffer = elim (m.cuda_memcpy data_ptr size) [
  | none ↦ (some cuda_failed, [])
  | some bytes ↦ (none, bytes)
]
copy_bytes m false false true data_ptr size buffer = elim (m.hip_memcpy data_ptr size) [
  | none ↦ (some hip_failed, [])
  | some bytes ↦ (none, bytes)
]
copy_bytes m false false false data_ptr size buffer = (some no_copy_path, buffer)

-- The last argument is what the vector holds at first.
unfoldable pub copy_allocation_bytes : Memory → ActiveAllocation → Bytes → Copied
unfolding copy_bytes
copy_allocation_bytes m allocation bytes =
    let r = allocation.recorded in
    let host_accessible = is_host_accessible_space r.space in
    let cuda_device = is_cuda_device_space r.space in
    let hip_device = is_hip_device_space r.space in
    if not r.data_size_known
    then (some unbounded, bytes)
    else if r.size == 0
    then (none, [])
    else if not host_accessible && (not cuda_device && not hip_device)
    then (some unsupported_space, bytes)
    else if not m.cuda_dump && cuda_device
    then (some cuda_disabled, bytes)
    else if not m.hip_dump && hip_device
    then (some hip_disabled, bytes)
    else if not (m.can_allocate r.size)
    then (some no_staging_buffer, bytes)
    else if r.p_data == 0
    then (some null_data, [])
    else copy_bytes m host_accessible cuda_device hip_device r.p_data r.size (resized r.size bytes)
