-- ===== src/Replay/Store/Lookup.antt =====
-- Which allocations a lookup gives.
use krepe.Prelude.{
  ◌≡◌, refl, ◌↔◌, true, Option, none, some, List, [], ◌∷◌, map, filter, Text, text_eq, text_eq_iff,
  arith, Result, ok, err, ◌>>=◌,
}
use krepe.Prelude.Dict.{Listed}
use krepe.Replay.Error.{Error}
use krepe.Replay.Space.{
  MemorySpaceType, host, device, same_space, memory_space_type_from_string, Platform,
}
use krepe.Replay.Store.{
  ReplayAllocation, ReplayAllocations, descriptor_of, has_label, check_replay_allocations, selected,
  get_allocations, get_allocations_for_space_name, only, get_unique_allocation,
}

only_lem :
    (label : Text) (ds : List ReplayAllocation) (d : ReplayAllocation)
    → ((only label ds ≡ ok (some d)) ↔ (ds ≡ d ∷ [])) × ((only label ds ≡ ok none) ↔ (ds ≡ []))
unfolding only
only_lem label [] d = ground arith
only_lem label (e ∷ []) d = ground arith
only_lem label (e ∷ f ∷ more) d = ground arith

-- The lookup of one allocation gives it exactly if the lookup of all of them gives it alone, and
-- gives nothing exactly if that gives none.
pub get_unique_allocation_lem :
    (p : Platform) (table : Option ReplayAllocations) (space : MemorySpaceType) (label : Text)
    (d : ReplayAllocation)
    → ((get_unique_allocation p table space label ≡ ok (some d))
        ↔ (get_allocations p table space (some label) ≡ ok (d ∷ [])))
      × ((get_unique_allocation p table space label ≡ ok none)
          ↔ (get_allocations p table space (some label) ≡ ok []))
unfolding get_unique_allocation get_allocations
get_unique_allocation_lem p table space label d = result (check_replay_allocations p table space)
  where
    result :
        (m : Result Error ReplayAllocations)
        → (((m >>= λ all. only label (selected space (some label) all)) ≡ ok (some d))
            ↔ ((m >>= λ all. ok (selected space (some label) all)) ≡ ok (d ∷ [])))
          × (((m >>= λ all. only label (selected space (some label) all)) ≡ ok none)
              ↔ ((m >>= λ all. ok (selected space (some label) all)) ≡ ok []))
    result (err x) = ground arith
    result (ok all) = ground (arith, only_lem label (selected space (some label) all) d)

same_space_refl : (s : MemorySpaceType) → same_space s s ≡ true
same_space_refl host = refl
same_space_refl device = refl

Listed-selected :
    (name : Text) (label : Option Text) (all : ReplayAllocations) (d : ReplayAllocation)
    → Listed d (
        filter
          (λ e. text_eq e.memory_space name)
          (selected (memory_space_type_from_string name) label all))
      ↔ (Listed d (map descriptor_of all)
          × (d.memory_space ≡ name)
          × (has_label label d.label ≡ true))
Listed-selected name label [] d = ground arith
Listed-selected name label (a ∷ all) d = ground (
  arith,
  text_eq_iff a.descriptor.memory_space name,
  same_space_refl (memory_space_type_from_string name),
  Listed-selected name label all d,
)

-- A lookup that succeeds gives exactly the descriptors of the allocations that were captured in
-- the space of that name, with the label if one is asked for.
pub Listed-get_allocations_for_space_name :
    (p : Platform) (all : ReplayAllocations) (name : Text) (label : Option Text)
    (ds : List ReplayAllocation) (d : ReplayAllocation)
    → get_allocations_for_space_name p (some all) name label ≡ ok ds
    → Listed d ds ↔ (
        Listed d (map descriptor_of all)
        × (d.memory_space ≡ name)
        × (has_label label d.label ≡ true))
unfolding get_allocations_for_space_name get_allocations check_replay_allocations
Listed-get_allocations_for_space_name p all name label ds d e =
    ground (arith, Listed-selected name label all d)
