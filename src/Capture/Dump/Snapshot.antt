-- ===== src/Capture/Dump/Snapshot.antt =====
-- Where the groups of a snapshot's allocations are in a dump, and what they hold.
use krepe.Prelude.{
  ap, ℕ, suc, ◌^◌, ◌<◌, ◌≡◌, refl, ◌∙◌, false, some, List, [], ◌∷◌, ◌++◌, Text, codes, text_eq,
  arith, length, get_elem?,
}
use krepe.Hdf5.{group, GroupPath, path_eq}
use krepe.Hdf5.Write.{link}
use krepe.Hdf5.Actions.{Reading, below, Elsewhere, Elsewhere-append, Elsewhere-below}
use krepe.Capture.Names.{group_name}
use krepe.Capture.Tracker.{ActiveAllocation, AllocationSnapshot}
use krepe.Capture.Dump.{
  Source, group_commands, write_allocation_group, write_allocations, views_of, snapshot_commands,
  write_snapshot, write_metadata, in_group, root_commands, functor_commands, write_rest, write_dump,
}
use krepe.Capture.Policy.Write.{write_policy}
use krepe.Capture.Dump.Elsewhere.{write_allocations_read}
use krepe.Capture.Hooks.{KernelDump}

-- The group of an allocation.
abbrev pub view_path : Text → ℕ → ActiveAllocation → GroupPath
view_path name i a = views_of name ++ group_name i a.recorded.label ∷ []

-- A path of three names is not the path of the file's root, of a group or of a group in a group.
not_root : (n m k : Text) → path_eq [] (n ∷ m ∷ k ∷ []) ≡ false
unfolding path_eq
not_root n m k = refl

not_top : (p n m k : Text) → path_eq (p ∷ []) (n ∷ m ∷ k ∷ []) ≡ false
unfolding path_eq
not_top p n m k = ground arith

pub write_rest-Elsewhere :
    (d : KernelDump) (q : GroupPath)
    → path_eq [] q ≡ false
    → path_eq (codes "metadata" ∷ []) q ≡ false
    → path_eq (codes "policy" ∷ []) q ≡ false
    → path_eq (codes "functor" ∷ []) q ≡ false
    → Elsewhere q (write_rest d)
write_rest-Elsewhere d q root metadata policy functor =
    Elsewhere-append q (in_group (codes "metadata") (write_metadata d.metadata)) _
      (root, Elsewhere-below _ q (write_metadata d.metadata) metadata)
      (Elsewhere-append q (in_group (codes "policy") (write_policy d.policy)) _
        (root, Elsewhere-below _ q (write_policy d.policy) policy)
        (root, Elsewhere-below _ q (functor_commands d) functor))

-- A group below another name is not touched.
other-Elsewhere :
    (s : Source) (name n : Text) (q : GroupPath) (i : ℕ) (xs : List ActiveAllocation)
    → text_eq name n ≡ false
    → Elsewhere (n ∷ q) (write_allocations s (views_of name) i xs)
unfolding write_allocations write_allocation_group path_eq
other-Elsewhere s name n q i [] other = tt
other-Elsewhere s name n q i (a ∷ xs) other =
    Elsewhere-append (n ∷ q) (write_allocation_group s (views_of name) a i)
      (write_allocations s (views_of name) (suc i) xs)
      (
        rw other refl,
        Elsewhere-below (name ∷ codes "views" ∷ group_name i a.recorded.label ∷ []) (n ∷ q)
            (group_commands s a) (rw other refl),
      )
      (other-Elsewhere s name n q (suc i) xs other)

pub write_snapshot-Elsewhere :
    (s : Source) (name n : Text) (q : GroupPath) (snapshot : AllocationSnapshot)
    → text_eq name n ≡ false
    → Elsewhere (n ∷ q) (write_snapshot s name snapshot)
unfolding write_snapshot path_eq
write_snapshot-Elsewhere s name n q snapshot other =
    Elsewhere-append (n ∷ q)
      (([], link name group) ∷ below (name ∷ []) (snapshot_commands snapshot))
      (write_allocations s (views_of name) 0 snapshot.allocations)
      (refl, Elsewhere-below (name ∷ []) (n ∷ q) (snapshot_commands snapshot) (rw other refl))
      (other-Elsewhere s name n q 0 snapshot.allocations other)

module _ (s : Source) {X : Type 0} (r : Reading X) where
  open r use {at, of, at-append, at-Elsewhere, at-below}

  -- The group of an allocation of a snapshot holds what was written for it.
  pub write_snapshot_read :
      (name : Text) (snapshot : AllocationSnapshot) (k : ℕ) (a : ActiveAllocation) (m : Text)
      (o : X)
      → length snapshot.allocations < 2 ^ 64
      → get_elem? snapshot.allocations k ≡ some a
      → at (view_path name k a) m (write_snapshot s name snapshot) o ≡ of m (group_commands s a) o
  unfolding write_snapshot
  write_snapshot_read name snapshot k a m o h e =
      let g = group_name k a.recorded.label in
      let q = view_path name k a in
      let top = not_top name name (codes "views") g in
      at-append q m (([], link name group) ∷ below (name ∷ []) (snapshot_commands snapshot)) _ o
      ∙ ap (at q m (write_allocations s (views_of name) 0 snapshot.allocations)) (
          at-Elsewhere q m _ o (
            not_root name (codes "views") g,
            Elsewhere-below (name ∷ []) q (snapshot_commands snapshot) top,
          ))
      ∙ write_allocations_read s (views_of name) r snapshot.allocations 0 k k a m o (omega arith) e
          (omega arith)

  pub write_dump_read :
      (d : KernelDump) (k : ℕ) (a : ActiveAllocation) (m : Text) (o : X)
      → length d.input_snapshot.allocations < 2 ^ 64
      → get_elem? d.input_snapshot.allocations k ≡ some a
      → at (view_path (codes "in") k a) m (write_dump s d) o ≡ of m (group_commands s a) o
  unfolding write_dump
  write_dump_read d k a m o h e =
      let g = group_name k a.recorded.label in
      let q = view_path (codes "in") k a in
      let root = not_root (codes "in") (codes "views") g in
      let top = λ (p : Text). not_top p (codes "in") (codes "views") g in
      at-append q m (below [] (root_commands d)) _ o
      ∙ ap (at q m _) (at-Elsewhere q m _ o (Elsewhere-below [] q (root_commands d) root))
      ∙ at-append q m (write_snapshot s (codes "in") d.input_snapshot) (write_rest d) o
      ∙ at-Elsewhere q m (write_rest d) _
          (write_rest-Elsewhere d (views_of (codes "in") ++ g ∷ []) root (top _) (top _) (top _))
      ∙ write_snapshot_read (codes "in") d.input_snapshot k a m o h e
