-- ===== src/Capture/Dump/Views.antt =====
-- The links of the group `views` of a dump: one for each allocation of the snapshot.
use krepe.Prelude.{
  ap, ℕ, suc, ◌≡◌, ◌≢◌, ◌↔◌, ◌⊎◌, refl, ◌∙◌, Option, none, some, List, [], ◌∷◌, ◌++◌, Text, codes,
  text_eq, text_eq_iff, arith,
}
use krepe.Hdf5.{group, GroupPath, path_eq, path_eq_iff, Target}
use krepe.Hdf5.Write.{link}
use krepe.Hdf5.Actions.{below, link_at, link_at-append, link_at-Elsewhere, Elsewhere-below}
use krepe.Capture.Names.{group_name}
use krepe.Capture.Tracker.{ActiveAllocation, AllocationSnapshot}
use krepe.Capture.Dump.{
  Source, group_commands, write_allocation_group, write_allocations, views_of, snapshot_commands,
  write_snapshot, root_commands, write_rest, write_dump,
}
use krepe.Capture.Dump.Elsewhere.{path_eq-child}
use krepe.Capture.Dump.Snapshot.{write_rest-Elsewhere}
use krepe.Capture.Hooks.{KernelDump}

-- The name of the group of one of the allocations, the first of which has the number `i`.
abbrev pub IsNamed : ℕ → List ActiveAllocation → Text → Type 0
IsNamed i [] m = ⊥
IsNamed i (a ∷ xs) m = (m ≡ group_name i a.recorded.label) ⊎ IsNamed (suc i) xs m

module _ (s : Source) (p : GroupPath) (m : Text) where
  own_link :
      (a : ActiveAllocation) (i : ℕ) (o : Option Target)
      → (link_at p m (write_allocation_group s p a i) o ≢ none)
        ↔ ((o ≢ none) ⊎ (m ≡ group_name i a.recorded.label))
  unfolding write_allocation_group
  own_link a i o =
      let name = group_name i a.recorded.label in
      let q = p ++ name ∷ [] in
      ground (
        arith,
        text_eq_iff name m,
        path_eq_iff p p,
        link_at-Elsewhere p m (below q (group_commands s a)) (some group),
        link_at-Elsewhere p m (below q (group_commands s a)) o,
        Elsewhere-below q p (group_commands s a) (path_eq-child p name),
      )

  views_links :
      (xs : List ActiveAllocation) (i : ℕ) (o : Option Target)
      → (link_at p m (write_allocations s p i xs) o ≢ none) ↔ ((o ≢ none) ⊎ IsNamed i xs m)
  unfolding write_allocations
  views_links [] i o = ground arith
  views_links (a ∷ xs) i o = ground (
    arith,
    link_at-append p m (write_allocation_group s p a i) (write_allocations s p (suc i) xs) o,
    own_link a i o,
    views_links xs (suc i) (link_at p m (write_allocation_group s p a i) o),
  )

module _ (s : Source) where
  pub snapshot_links :
      (name : Text) (snapshot : AllocationSnapshot) (m : Text)
      → (link_at (views_of name) m (write_snapshot s name snapshot) none ≢ none)
        ↔ IsNamed 0 snapshot.allocations m
  unfolding write_snapshot path_eq
  snapshot_links name snapshot m =
      let q = views_of name in
      let xs = snapshot.allocations in
      let before = ([], link name group) ∷ below (name ∷ []) (snapshot_commands snapshot) in
      let e : link_at q m (write_snapshot s name snapshot) none
          ≡ link_at q m (write_allocations s q 0 xs) none =
        link_at-append q m before (write_allocations s q 0 xs) none
        ∙ ap (link_at q m (write_allocations s q 0 xs)) (
            link_at-Elsewhere q m before none (
              refl,
              Elsewhere-below (name ∷ []) q (snapshot_commands snapshot)
                  (rw ((text_eq_iff name name).1 refl) refl),
            )) in
      rw e (ground (arith, views_links s q m xs 0 none))

  pub dump_links :
      (d : KernelDump) (m : Text)
      → link_at (views_of (codes "in")) m (write_dump s d) none
        ≡ link_at (views_of (codes "in")) m (write_snapshot s (codes "in") d.input_snapshot) none
  unfolding write_dump path_eq text_eq
  dump_links d m =
      let q = views_of (codes "in") in
      link_at-append q m (below [] (root_commands d))
        (write_snapshot s (codes "in") d.input_snapshot ++ write_rest d) none
      ∙ link_at-append q m (write_snapshot s (codes "in") d.input_snapshot) (write_rest d) _
      ∙ link_at-Elsewhere q m (write_rest d) _ (write_rest-Elsewhere d q refl refl refl refl)
