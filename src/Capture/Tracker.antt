-- ===== src/Capture/Tracker.antt =====
-- `AllocationTracker` of src/krepe/capture/allocation_tracker.hpp and .cpp. A pointer is its
-- address, `nullptr` is 0, and each method stands for its body under the mutex.
pub mod Tables
pub mod History
pub mod Snapshot
pub mod Members
pub mod Size
pub mod Tests
use krepe.Prelude.{
  ℕ, ◌+◌, ◌%◌, ◌^◌, ◌≡◌, Bool, true, false, ◌&&◌, Option, none, some, List, [], ◌∷◌, ◌++◌, map,
  Text, ltb, leb, ◌==◌, if◌then◌else◌,
}
use krepe.Prelude.Dict.{Key, nat_eq, text_instance, lookup, insert, erase}

pub record AllocationRecord : Type 0 where
  pub label : Text
  pub space : Text
  pub p_data : ℕ
  pub size : ℕ
  pub reported_size : ℕ
  pub data_size_known : Bool

pub record ActiveAllocation : Type 0 where
  pub ptr : ℕ
  pub recorded : AllocationRecord

pub record AllocationSnapshot : Type 0 where
  pub active_bytes : ℕ
  pub allocations : List ActiveAllocation

abbrev pub Allocations : Type 0
Allocations = List (ℕ × AllocationRecord)

pub record AllocationTracker : Type 0 where
  pub used_allocations : List (Text × List ℕ)
  pub active_allocations : List (Text × Allocations)

abbrev pub empty_tracker : AllocationTracker
empty_tracker = record { used_allocations = []; active_allocations = [] }

-- `table[space]`, which is empty where the space has no entry yet.
abbrev pub entries_of {ℓ} : {A : Type ℓ} → Text → List (Text × List A) → List A
entries_of space table = elim (lookup space table) [ none ↦ [] | some entries ↦ entries ]

unfoldable pub record_allocation :
    Text → Text → ℕ → ℕ → ℕ → ℕ → Bool → AllocationTracker → AllocationTracker
unfolding lookup insert
record_allocation label space ptr p_data size reported_size data_size_known t =
    if ptr == 0 then t else record t {
      active_allocations =
          insert space
            (insert ptr
              (record {
                label = label;
                space = space;
                p_data = p_data;
                size = size;
                reported_size = reported_size;
                data_size_known = data_size_known;
              })
              (entries_of space t.active_allocations))
            t.active_allocations;
    }

-- A space with no allocation left is taken out.
put_back : Text → Allocations → List (Text × Allocations) → List (Text × Allocations)
put_back space [] active = erase space active
put_back space (a ∷ more) active = insert space (a ∷ more) active

unfoldable pub record_deallocation : Text → ℕ → AllocationTracker → AllocationTracker
unfolding lookup erase put_back
record_deallocation space ptr t = if ptr == 0 then t else elim (lookup space t.active_allocations) [
  | none ↦ t
  | some allocations ↦ record t {
    active_allocations = put_back space (erase ptr allocations) t.active_allocations;
  }
]

unfoldable pub record_used_allocation : Text → ℕ → AllocationTracker → AllocationTracker
unfolding lookup insert
record_used_allocation space ptr t = record t {
  used_allocations =
      insert space (entries_of space t.used_allocations ++ ptr ∷ []) t.used_allocations;
}

unfoldable pub clear_used_allocations : AllocationTracker → AllocationTracker
clear_used_allocations t = record t {
  used_allocations = map (λ (space, pointers). (space, [])) t.used_allocations;
}

-- The two statements that put an allocation into the snapshot; `active_bytes` has 64 bits.
push_allocation : ℕ → AllocationRecord → AllocationSnapshot → AllocationSnapshot
push_allocation ptr r s = record {
  active_bytes = (s.active_bytes + r.size) % 2 ^ 64;
  allocations = s.allocations ++ record { ptr = ptr; recorded = r } ∷ [];
}

-- `std::sort` on the pointers.
insert_pointer : ℕ → List ℕ → List ℕ
insert_pointer p [] = p ∷ []
insert_pointer p (q ∷ qs) = if leb p q then p ∷ q ∷ qs else q ∷ insert_pointer p qs

pub sort_pointers : List ℕ → List ℕ
unfolding insert_pointer
sort_pointers [] = []
sort_pointers (p ∷ ps) = insert_pointer p (sort_pointers ps)

-- `std::lower_bound`: the first pointer that is not below the address.
pub lower_bound : List ℕ → ℕ → Option ℕ
lower_bound [] address = none
lower_bound (p ∷ ps) address = if ltb p address then lower_bound ps address else some p

-- A registered pointer lies in the allocation's data, or at its end.
pub is_used : List ℕ → AllocationRecord → Bool
is_used sorted r = elim (lower_bound sorted r.p_data) [
  | none ↦ false
  | some used_ptr ↦ leb used_ptr ((r.p_data + r.size) % 2 ^ 64)
]

push_used : List ℕ → Allocations → AllocationSnapshot → AllocationSnapshot
push_used sorted [] s = s
push_used sorted ((ptr, r) ∷ rest) s =
    push_used sorted rest (if is_used sorted r then push_allocation ptr r s else s)

push_all : Allocations → AllocationSnapshot → AllocationSnapshot
push_all [] s = s
push_all ((ptr, r) ∷ rest) s = push_all rest (push_allocation ptr r s)

-- The loop over `used_allocations_`, where the compiler plugins are enabled. It sorts the pointers
-- of each space in place.
used_loop :
    List (Text × List ℕ) → List (Text × Allocations) → AllocationSnapshot → AllocationSnapshot
used_loop [] active s = s
used_loop ((space, pointers) ∷ rest) active s =
    used_loop rest active (push_used (sort_pointers pointers) (entries_of space active) s)

all_loop : List (Text × Allocations) → AllocationSnapshot → AllocationSnapshot
all_loop [] s = s
all_loop ((space, allocations) ∷ rest) s = all_loop rest (push_all allocations s)

-- `active_allocations_[space]` leaves an empty entry for a space that has none.
pub touch : List (Text × List ℕ) → List (Text × Allocations) → List (Text × Allocations)
touch [] active = active
touch ((space, pointers) ∷ rest) active = touch rest (insert space (entries_of space active) active)

-- The build: whether `KREPE_HAS_COMPILER_PLUGINS` is defined.
unfoldable pub snapshot : Bool → AllocationTracker → AllocationSnapshot × AllocationTracker
unfolding used_loop all_loop push_used push_all push_allocation is_used lower_bound sort_pointers
    touch lookup insert
snapshot true t = (
  used_loop t.used_allocations t.active_allocations (record { active_bytes = 0; allocations = [] }),
  record {
    used_allocations =
        map (λ (space, pointers). (space, sort_pointers pointers)) t.used_allocations;
    active_allocations = touch t.used_allocations t.active_allocations;
  },
)
snapshot false t =
    (all_loop t.active_allocations (record { active_bytes = 0; allocations = [] }), t)
