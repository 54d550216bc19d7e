-- ===== src/Replay/Space.antt =====
-- src/krepe/replay/memory_space_type.hpp, and what differs between the builds of the replayer.
use krepe.Prelude.{ℕ, Bool, true, false, Text, codes, text_eq, if◌then◌else◌}

pub data MemorySpaceType : Type 0 where
  host device : MemorySpaceType

-- A space is the host or some device: the two values that an index over spaces can take.
abbrev pub is_host : MemorySpaceType → Bool
is_host host = true
is_host device = false

abbrev pub same_space : MemorySpaceType → MemorySpaceType → Bool
same_space host host = true
same_space device device = true
same_space _ _ = false

unfoldable pub memory_space_type_from_string : Text → MemorySpaceType
unfolding text_eq
memory_space_type_from_string name = if text_eq name (codes "Host") then host else device

-- The build and the machine: whether `KERNEL_REPLAYER_HAS_DEVICE_SPACE` is defined, what
-- `Kokkos::CudaSpace::name()` or `HIPSpace::name()` gives then, `getpagesize()`, and
-- `device_allocation_granularity()`.
pub record Platform : Type 0 where
  pub has_device : Bool
  pub device_space_name : Text
  pub host_granularity : ℕ
  pub device_granularity : ℕ
