-- ===== src/Capture/DataSize/Bounds.antt =====
-- A validated size never reaches past the allocation.
use krepe.Prelude.{ℕ, ◌+◌, ◌≤◌, ◌<◌, ◌≡◌, ◌⊎◌, ◌↔◌, none, some, Text, arith}
use krepe.Capture.DataSize.{
  Host, DriverRange, known_range, validated_data_size, allocation_data_size,
}

-- The size is refused exactly if the data begins outside of the allocation. Otherwise it is the
-- reported one if that many bytes are left behind the data pointer, and 0 if not.
pub validated_data_size_lem :
    (base allocation_size data_ptr reported_size : ℕ)
    → ((validated_data_size base allocation_size data_ptr reported_size ≡ none)
        ↔ ((data_ptr < base) ⊎ (base + allocation_size < data_ptr)))
      × (base ≤ data_ptr
          → data_ptr + reported_size ≤ base + allocation_size
          → validated_data_size base allocation_size data_ptr reported_size ≡ some reported_size)
      × (base ≤ data_ptr
          → data_ptr ≤ base + allocation_size
          → base + allocation_size < data_ptr + reported_size
          → validated_data_size base allocation_size data_ptr reported_size ≡ some 0)
unfolding validated_data_size
validated_data_size_lem base allocation_size data_ptr reported_size =
    ((λ h. ground arith, λ h. ground arith), λ h k. ground arith, λ h k l. ground arith)

-- Where the reported size is the size of the header and a range is known for the allocation, a
-- size that is accepted is at most the reported one and stays inside of that range.
pub allocation_data_size_bound :
    (h : Host) (space : Text) (ptr data_ptr reported_size n : ℕ) (r : DriverRange)
    → reported_size ≡ h.header_size
    → known_range h space ptr ≡ some r
    → allocation_data_size h space ptr data_ptr reported_size ≡ some n
    → (r.base ≤ data_ptr) × (data_ptr + n ≤ r.base + r.size) × (n ≤ reported_size)
unfolding allocation_data_size validated_data_size
allocation_data_size_bound h space ptr data_ptr reported_size n r same found e =
    ground (arith, validated_data_size_lem r.base r.size data_ptr reported_size)
