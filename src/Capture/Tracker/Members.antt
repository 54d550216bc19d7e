-- ===== src/Capture/Tracker/Members.antt =====
-- The entries of a snapshot, in either build, and their total size.
use krepe.Prelude.{
  ℕ, ◌+◌, ◌^◌, ◌<◌, ◌≡◌, ◌⊎◌, inl, inr, ◌↔◌, true, false, some, List, [], ◌∷◌, Text, text_eq,
  text_eq_iff, arith, Bool-cases, any,
}
use krepe.Prelude.Dict.{
  nat_eq, text_instance, lookup, NodupKeys, Listed, Listed-append, Listed-lookup,
}
use krepe.Capture.Tracker.{
  AllocationTracker, AllocationRecord, ActiveAllocation, AllocationSnapshot, Allocations,
  entries_of, push_allocation, sort_pointers, is_used, push_used, push_all, used_loop, all_loop,
  snapshot,
}
use krepe.Capture.Tracker.Tables.{find, IsTable, entries-NodupKeys}
use krepe.Capture.Tracker.Snapshot.{belongs, is_used-any}

abbrev entry : ActiveAllocation → ℕ × AllocationRecord
entry a = (a.ptr, a.recorded)

Listed-push :
    (a : ActiveAllocation) (ptr : ℕ) (r : AllocationRecord) (s : AllocationSnapshot)
    → Listed a (push_allocation ptr r s).allocations
      ↔ (Listed a s.allocations ⊎ (entry a ≡ (ptr, r)))
unfolding push_allocation
Listed-push a ptr r s =
    ground (arith, Listed-append a s.allocations (record { ptr = ptr; recorded = r } ∷ []))

Listed-push_all :
    (a : ActiveAllocation) (d : Allocations) (s : AllocationSnapshot)
    → Listed a (push_all d s).allocations ↔ (Listed a s.allocations ⊎ Listed (entry a) d)
unfolding push_all
Listed-push_all a [] s = ground arith
Listed-push_all a ((ptr, r) ∷ rest) s =
    ground (arith, Listed-push_all a rest (push_allocation ptr r s), Listed-push a ptr r s)

Listed-push_used :
    (a : ActiveAllocation) (sorted : List ℕ) (d : Allocations) (s : AllocationSnapshot)
    → Listed a (push_used sorted d s).allocations
      ↔ (Listed a s.allocations ⊎ (Listed (entry a) d × (is_used sorted a.recorded ≡ true)))
unfolding push_used
Listed-push_used a sorted [] s = ground arith
Listed-push_used a sorted ((ptr, r) ∷ rest) s = ground (
  arith,
  Listed-push_used a sorted rest (push_allocation ptr r s),
  Listed-push_used a sorted rest s,
  Listed-push a ptr r s,
)

-- The entry stands in one of the tables.
abbrev InSome : ℕ × AllocationRecord → List (Text × Allocations) → Type 0
InSome x [] = ⊥
InSome x ((_, d) ∷ rest) = Listed x d ⊎ InSome x rest

Listed-all_loop :
    (a : ActiveAllocation) (active : List (Text × Allocations)) (s : AllocationSnapshot)
    → Listed a (all_loop active s).allocations ↔ (Listed a s.allocations ⊎ InSome (entry a) active)
unfolding all_loop
Listed-all_loop a [] s = ground arith
Listed-all_loop a ((_, d) ∷ rest) s =
    ground (arith, Listed-all_loop a rest (push_all d s), Listed-push_all a d s)

InSome-find :
    (ptr : ℕ) (r : AllocationRecord) (active : List (Text × Allocations))
    → IsTable active
    → InSome (ptr, r) active
    → (s : Text) × (find active s ptr ≡ some r)
unfolding lookup
InSome-find ptr r [] w h = absurd h
InSome-find ptr r ((s, d) ∷ rest) (u, a) (inl h) =
    (s, ground (arith, text_eq_iff s s, Listed-lookup ptr r d a.0))
InSome-find ptr r ((s, d) ∷ rest) (u, a) (inr h) =
    let (j, found) = InSome-find ptr r rest (u.1, a.1) h in (j, ground (arith, text_eq_iff s j))

find-InSome :
    (ptr : ℕ) (r : AllocationRecord) (active : List (Text × Allocations)) (s : Text)
    → IsTable active
    → find active s ptr ≡ some r
    → InSome (ptr, r) active
unfolding lookup
find-InSome ptr r [] s w h = absurd (ground arith)
find-InSome ptr r ((j, d) ∷ rest) s (u, a) h =
    ground (arith, Listed-lookup ptr r d a.0, find-InSome ptr r rest s (u.1, a.1))

-- Where the keys of the tables are distinct, a snapshot without the plugins has exactly the
-- active allocations.
pub Listed-snapshot_all :
    (t : AllocationTracker) (a : ActiveAllocation)
    → IsTable t.active_allocations
    → Listed a (snapshot false t).0.allocations
      ↔ ((s : Text) × (find t.active_allocations s a.ptr ≡ some a.recorded))
unfolding snapshot
Listed-snapshot_all t a w =
    let loop =
      Listed-all_loop a t.active_allocations (record { active_bytes = 0; allocations = [] }) in
    (
      λ h. InSome-find a.ptr a.recorded t.active_allocations w (ground (arith, loop)),
      λ (s, found). loop.1 (inr (find-InSome a.ptr a.recorded t.active_allocations s w found)),
    )

-- The registered pointers of one space select the allocation.
abbrev Selected : ActiveAllocation → List (Text × List ℕ) → List (Text × Allocations) → Type 0
Selected a [] active = ⊥
Selected a ((s, ps) ∷ used) active =
    (Listed (entry a) (entries_of s active) × (is_used (sort_pointers ps) a.recorded ≡ true))
    ⊎ Selected a used active

Listed-used_loop :
    (a : ActiveAllocation) (used : List (Text × List ℕ)) (active : List (Text × Allocations))
    (s : AllocationSnapshot)
    → Listed a (used_loop used active s).allocations
      ↔ (Listed a s.allocations ⊎ Selected a used active)
unfolding used_loop
Listed-used_loop a [] active s = ground arith
Listed-used_loop a ((j, ps) ∷ used) active s = ground (
  arith,
  Listed-used_loop a used active (push_used (sort_pointers ps) (entries_of j active) s),
  Listed-push_used a (sort_pointers ps) (entries_of j active) s,
)

Selected-find :
    (a : ActiveAllocation) (used : List (Text × List ℕ)) (active : List (Text × Allocations))
    → a.recorded.p_data + a.recorded.size < 2 ^ 64
    → NodupKeys used
    → IsTable active
    → Selected a used active
    → (s : Text) × (find active s a.ptr ≡ some a.recorded)
      × (any (belongs a.recorded) (entries_of s used) ≡ true)
unfolding lookup
Selected-find a [] active b u w h = absurd h
Selected-find a ((s, ps) ∷ used) active b u w (inl (m, hit)) = (
  s,
  (Listed-lookup a.ptr a.recorded (entries_of s active) (entries-NodupKeys s active w.1)).0 m,
  ground (arith, text_eq_iff s s, is_used-any a.recorded ps b),
)
Selected-find a ((s, ps) ∷ used) active b u w (inr h) =
    let (j, found, hit) = Selected-find a used active b u.1 w h in
    (j, found, ground (arith, text_eq_iff s j))

find-Selected :
    (a : ActiveAllocation) (used : List (Text × List ℕ)) (active : List (Text × Allocations))
    (s : Text)
    → a.recorded.p_data + a.recorded.size < 2 ^ 64
    → IsTable active
    → find active s a.ptr ≡ some a.recorded
    → any (belongs a.recorded) (entries_of s used) ≡ true
    → Selected a used active
unfolding lookup
find-Selected a [] active s b w found hit = absurd (ground arith)
find-Selected a ((j, ps) ∷ used) active s b w found hit = elim (Bool-cases (text_eq j s)) [
  | inl same ↦
      let e = (text_eq_iff j s).0 same in
      inl (
        rw e (
            (Listed-lookup a.ptr a.recorded (entries_of s active)
                (entries-NodupKeys s active w.1)).1
              found),
        ground (arith, is_used-any a.recorded ps b),
      )
  | inr other ↦ inr (find-Selected a used active s b w found (ground arith))
]

-- Where the keys of the tables are distinct, a snapshot with the plugins has an entry, whose data
-- end inside of the address space, exactly if it is an active allocation to which a pointer
-- belongs that was registered for the same space.
pub Listed-snapshot_used :
    (t : AllocationTracker) (a : ActiveAllocation)
    → a.recorded.p_data + a.recorded.size < 2 ^ 64
    → NodupKeys t.used_allocations
    → IsTable t.active_allocations
    → Listed a (snapshot true t).0.allocations ↔ (
        (s : Text) × (find t.active_allocations s a.ptr ≡ some a.recorded)
        × (any (belongs a.recorded) (entries_of s t.used_allocations) ≡ true))
unfolding snapshot
Listed-snapshot_used t a b u w =
    let loop =
      Listed-used_loop a t.used_allocations t.active_allocations
        (record { active_bytes = 0; allocations = [] }) in
    (
      λ h. Selected-find a t.used_allocations t.active_allocations b u w (ground (arith, loop)),
      λ (s, found, hit).
          loop.1 (inr (find-Selected a t.used_allocations t.active_allocations s b w found hit)),
    )
