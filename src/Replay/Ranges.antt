-- ===== src/Replay/Ranges.antt =====
-- The address ranges that the replayer reserves: `get_allocation_address` of
-- src/krepe/replay/allocation.hpp, the `std::set` that collects its results, and
-- `compute_allocations` of src/krepe/replay/kernel_replayer.cpp.
pub mod Align
pub mod Merge
pub mod Insert
pub mod Tests
use krepe.Prelude.{
  ℕ, ◌+◌, ◌-◌, ◌*◌, ◌/◌, ◌%◌, ◌^◌, ◌≤◌, ◌<◌, ◌≡◌, ◌⊎◌, Bool, true, false, ◌&&◌, ◌||◌, List, [], ◌∷◌,
  Result, ok, err, ltb, ◌==◌, if◌then◌else◌,
}
use krepe.Replay.Error.{Error, no_device_space}
use krepe.Replay.Space.{MemorySpaceType, host, device, Platform}

-- `std::pair<std::byte*, std::size_t>`
pub record Range : Type 0 where
  pub address : ℕ
  pub size : ℕ

abbrev pub stop : Range → ℕ
stop r = r.address + r.size

-- `std::size_t` and pointers have 64 bits.
abbrev pub word : ℕ
word = 2 ^ 64

unfoldable pub granularity : Platform → MemorySpaceType → Result Error ℕ
granularity p host = ok p.host_granularity
granularity p device = if p.has_device then ok p.device_granularity else err no_device_space

-- The arithmetic of `get_allocation_address`, from the granularity on.
unfoldable pub align_range : ℕ → ℕ → ℕ → Range
align_range g target_address size =
    let aligned_address = (target_address / g) * g in
    let size' = (size + (target_address - aligned_address)) % word in
    record { address = aligned_address; size = ((((size' + word - 1) % word) / g + 1) * g) % word }

unfoldable pub get_allocation_address : Platform → ℕ → ℕ → MemorySpaceType → Result Error Range
unfolding granularity
get_allocation_address p target_address size space = elim (granularity p space) [
  | ok g ↦ ok (align_range g target_address size)
  | err e ↦ err e
]

-- `operator<` on the pairs.
abbrev range_lt : Range → Range → Bool
range_lt r s = ltb r.address s.address || (r.address == s.address && ltb r.size s.size)

-- `std::set::insert`: in order, and a pair that is there already is not added again.
unfoldable pub insert_range : Range → List Range → List Range
insert_range r [] = r ∷ []
insert_range r (s ∷ ss) =
    if range_lt r s then r ∷ s ∷ ss else if range_lt s r then s ∷ insert_range r ss else s ∷ ss

-- The loop of `compute_allocations`; its first two arguments are `current_address` and
-- `current_size`.
merge_loop : ℕ → ℕ → List Range → List Range
merge_loop current_address current_size [] =
    record { address = current_address; size = current_size } ∷ []
merge_loop current_address current_size (r ∷ rs) =
    elim (ltb r.address ((current_address + current_size) % word)) [
      | true ↦
          let new_size = ((r.address + r.size) % word + word - current_address) % word in
          merge_loop current_address (if ltb current_size new_size then new_size else current_size)
            rs
      | false ↦
          record { address = current_address; size = current_size } ∷ merge_loop r.address r.size rs
    ]

unfoldable pub compute_allocations : List Range → List Range
unfolding merge_loop
compute_allocations [] = []
compute_allocations (r ∷ rs) = merge_loop r.address r.size rs

-- A byte's address lies in the range; in one of the ranges.
abbrev pub Within : ℕ → Range → Type 0
Within x r = (r.address ≤ x) × (x < stop r)

abbrev pub Covered : ℕ → List Range → Type 0
Covered x [] = ⊥
Covered x (r ∷ rs) = Within x r ⊎ Covered x rs

-- The whole of `[a, b)` lies in one of the ranges.
abbrev pub Contained : ℕ → ℕ → List Range → Type 0
Contained a b [] = ⊥
Contained a b (r ∷ rs) = ((r.address ≤ a) × (b ≤ stop r)) ⊎ Contained a b rs

-- The ranges begin at or above `n`, in ascending order of their addresses.
abbrev pub Ascending : ℕ → List Range → Type 0
Ascending n [] = Unit
Ascending n (r ∷ rs) = (n ≤ r.address) × Ascending r.address rs

-- The same, and each range ends before the next one begins.
abbrev pub Separated : ℕ → List Range → Type 0
Separated n [] = Unit
Separated n (r ∷ rs) = (n ≤ r.address) × Separated (stop r) rs

-- No range reaches the end of the address space.
abbrev pub Fits : List Range → Type 0
Fits [] = Unit
Fits (r ∷ rs) = (stop r < word) × Fits rs

-- Addresses and sizes are whole numbers of pages.
abbrev pub Aligned : ℕ → List Range → Type 0
Aligned g [] = Unit
Aligned g (r ∷ rs) = ((k : ℕ) × (r.address ≡ k * g)) × ((k : ℕ) × (r.size ≡ k * g)) × Aligned g rs
