-- ===== src/Capture/Tracker/Size.antt =====
-- `active_bytes` of a snapshot.
use krepe.Prelude.{ℕ, ◌+◌, ◌%◌, ◌^◌, ◌≡◌, refl, Bool, true, false, List, [], ◌∷◌, ◌++◌, Text, arith}
use krepe.Capture.Tracker.{
  AllocationTracker, AllocationRecord, ActiveAllocation, AllocationSnapshot, Allocations,
  entries_of, push_allocation, sort_pointers, push_used, push_all, used_loop, all_loop, snapshot,
}

abbrev pub total_size : List ActiveAllocation → ℕ
total_size [] = 0
total_size (a ∷ rest) = a.recorded.size + total_size rest

total_size-append :
    (xs ys : List ActiveAllocation) → total_size (xs ++ ys) ≡ total_size xs + total_size ys
total_size-append [] ys = omega arith
total_size-append (x ∷ xs) ys = omega (arith, total_size-append xs ys)

-- The number is the sum of the sizes so far, with wrap-around.
abbrev IsTotal : AllocationSnapshot → Type 0
IsTotal s = s.active_bytes ≡ total_size s.allocations % 2 ^ 64

push-IsTotal :
    (ptr : ℕ) (r : AllocationRecord) (s : AllocationSnapshot)
    → IsTotal s
    → IsTotal (push_allocation ptr r s)
unfolding push_allocation
push-IsTotal ptr r s h =
    omega (arith, total_size-append s.allocations (record { ptr = ptr; recorded = r } ∷ []))

push_all-IsTotal : (d : Allocations) (s : AllocationSnapshot) → IsTotal s → IsTotal (push_all d s)
unfolding push_all
push_all-IsTotal [] s h = h
push_all-IsTotal ((ptr, r) ∷ rest) s h =
    push_all-IsTotal rest (push_allocation ptr r s) (push-IsTotal ptr r s h)

push_used-IsTotal :
    (sorted : List ℕ) (d : Allocations) (s : AllocationSnapshot)
    → IsTotal s
    → IsTotal (push_used sorted d s)
unfolding push_used
push_used-IsTotal sorted [] s h = h
push_used-IsTotal sorted ((ptr, r) ∷ rest) s h = ground (
  arith,
  push_used-IsTotal sorted rest s h,
  push_used-IsTotal sorted rest (push_allocation ptr r s) (push-IsTotal ptr r s h),
)

all_loop-IsTotal :
    (active : List (Text × Allocations)) (s : AllocationSnapshot)
    → IsTotal s
    → IsTotal (all_loop active s)
unfolding all_loop
all_loop-IsTotal [] s h = h
all_loop-IsTotal ((_, d) ∷ rest) s h = all_loop-IsTotal rest (push_all d s) (push_all-IsTotal d s h)

used_loop-IsTotal :
    (used : List (Text × List ℕ)) (active : List (Text × Allocations)) (s : AllocationSnapshot)
    → IsTotal s
    → IsTotal (used_loop used active s)
unfolding used_loop
used_loop-IsTotal [] active s h = h
used_loop-IsTotal ((j, ps) ∷ used) active s h =
    used_loop-IsTotal used active (push_used (sort_pointers ps) (entries_of j active) s)
      (push_used-IsTotal (sort_pointers ps) (entries_of j active) s h)

-- The byte count of a snapshot is the sum of the sizes of its entries modulo 2 ^ 64, in both builds.
pub snapshot-active_bytes :
    (plugins : Bool) (t : AllocationTracker)
    → (snapshot plugins t).0.active_bytes ≡ total_size (snapshot plugins t).0.allocations % 2 ^ 64
unfolding snapshot
snapshot-active_bytes true t =
    used_loop-IsTotal t.used_allocations t.active_allocations
      (record { active_bytes = 0; allocations = [] }) refl
snapshot-active_bytes false t =
    all_loop-IsTotal t.active_allocations (record { active_bytes = 0; allocations = [] }) refl
