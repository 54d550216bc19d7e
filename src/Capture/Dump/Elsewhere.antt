-- ===== src/Capture/Dump/Elsewhere.antt =====
-- Which groups the writes of a dump leave alone.
use mathlib.Core.Path.{subst}
use krepe.Prelude.{
  ap, ℕ, zero, suc, ◌+◌, ◌^◌, ◌<◌, ◌≡◌, ◌≢◌, refl, ◌∙◌, inl, inr, false, some, List, [], ◌∷◌, ◌++◌,
  Text, text_eq, text_eq_iff, arith, length, get_elem?, get_elem?-lt, Bool-cases,
}
use krepe.Hdf5.{group, GroupPath, path_eq}
use krepe.Hdf5.Write.{link}
use krepe.Hdf5.Actions.{Action, Reading, below, Elsewhere, Elsewhere-append, Elsewhere-below}
use krepe.Capture.Names.{group_name}
use krepe.Capture.Names.Unique.{group_name-injective}
use krepe.Capture.Tracker.{ActiveAllocation}
use krepe.Capture.Dump.{Source, group_commands, write_allocation_group, write_allocations}

pub path_eq-snoc : (p : GroupPath) (n m : Text) → path_eq (p ++ n ∷ []) (p ++ m ∷ []) ≡ text_eq n m
unfolding path_eq
path_eq-snoc [] n m = ground arith
path_eq-snoc (k ∷ p) n m = rw ((text_eq_iff k k).1 refl) (path_eq-snoc p n m)

pub path_eq-parent : (p : GroupPath) (n : Text) → path_eq p (p ++ n ∷ []) ≡ false
unfolding path_eq
path_eq-parent [] n = refl
path_eq-parent (k ∷ p) n = rw ((text_eq_iff k k).1 refl) (path_eq-parent p n)

pub path_eq-child : (p : GroupPath) (n : Text) → path_eq (p ++ n ∷ []) p ≡ false
unfolding path_eq
path_eq-child [] n = refl
path_eq-child (k ∷ p) n = rw ((text_eq_iff k k).1 refl) (path_eq-child p n)

different_names :
    (i j : ℕ) (label label' : Text)
    → i < 2 ^ 64
    → j < 2 ^ 64
    → i ≢ j
    → text_eq (group_name i label) (group_name j label') ≡ false
different_names i j label label' hi hj ne =
    elim (Bool-cases (text_eq (group_name i label) (group_name j label'))) [
      | inl same ↦
          absurd (ne (group_name-injective label label' i j hi hj ((text_eq_iff _ _).0 same)))
      | inr other ↦ other
    ]

module _ (s : Source) (p : GroupPath) where
  group-Elsewhere :
      (a : ActiveAllocation) (i j : ℕ) (label : Text)
      → i < 2 ^ 64
      → j < 2 ^ 64
      → i ≢ j
      → Elsewhere (p ++ group_name j label ∷ []) (write_allocation_group s p a i)
  unfolding write_allocation_group
  group-Elsewhere a i j label hi hj ne = (
    path_eq-parent p (group_name j label),
    Elsewhere-below (p ++ group_name i a.recorded.label ∷ []) (p ++ group_name j label ∷ [])
        (group_commands s a)
        (path_eq-snoc p (group_name i a.recorded.label) (group_name j label)
          ∙ different_names i j a.recorded.label label hi hj ne),
  )

  -- The groups of the allocations from `i` on are not that of an earlier one.
  later-Elsewhere :
      (xs : List ActiveAllocation) (i j : ℕ) (label : Text)
      → i + length xs < 2 ^ 64
      → j < i
      → Elsewhere (p ++ group_name j label ∷ []) (write_allocations s p i xs)
  unfolding write_allocations
  later-Elsewhere [] i j label h lt = tt
  later-Elsewhere (a ∷ xs) i j label h lt =
      Elsewhere-append (p ++ group_name j label ∷ []) (write_allocation_group s p a i)
        (write_allocations s p (suc i) xs)
        (group-Elsewhere a i j label (omega arith) (omega arith) (λ e. omega arith))
        (later-Elsewhere xs (suc i) j label (omega arith) (omega arith))

  abbrev own : ActiveAllocation → ℕ → GroupPath
  own a i = p ++ group_name i a.recorded.label ∷ []

  module _ {X : Type 0} (r : Reading X) where
    open r use {at, of, at-append, at-Elsewhere, at-below}

    group_read :
        (a : ActiveAllocation) (i : ℕ) (rest : List Action) (m : Text) (o : X)
        → Elsewhere (own a i) rest
        → at (own a i) m (write_allocation_group s p a i ++ rest) o ≡ of m (group_commands s a) o
    unfolding write_allocation_group
    group_read a i rest m o e =
        let q = own a i in
        let head : List Action = (p, link (group_name i a.recorded.label) group) ∷ [] in
        let body = below q (group_commands s a) in
        at-append q m head (body ++ rest) o
        ∙ at-append q m body rest _
        ∙ at-Elsewhere q m rest _ e
        ∙ at-below q m (group_commands s a) _
        ∙ ap (of m (group_commands s a))
            (at-Elsewhere q m head o (path_eq-parent p (group_name i a.recorded.label), tt))

    -- A group holds what was written for its own allocation.
    pub write_allocations_read :
        (xs : List ActiveAllocation) (i k j : ℕ) (a : ActiveAllocation) (m : Text) (o : X)
        → i + length xs < 2 ^ 64
        → get_elem? xs k ≡ some a
        → j ≡ i + k
        → at (own a j) m (write_allocations s p i xs) o ≡ of m (group_commands s a) o
    unfolding write_allocations
    write_allocations_read [] i k j a m o h e n = absurd (ground arith)
    write_allocations_read (b ∷ xs) i zero j a m o h e n =
        let same : b ≡ a = ground arith in
        let here : i ≡ j = omega arith in
        subst
          (λ c. at (own c j) m (write_allocations s p i (b ∷ xs)) o ≡ of m (group_commands s c) o)
          same
          (subst
            (λ l. at (own b l) m (write_allocations s p i (b ∷ xs)) o ≡ of m (group_commands s b) o)
            here
            (group_read b i (write_allocations s p (suc i) xs) m o
              (later-Elsewhere xs (suc i) i b.recorded.label (omega arith) (omega arith))))
    write_allocations_read (b ∷ xs) i (suc k) j a m o h e n =
        at-append (own a j) m (write_allocation_group s p b i) (write_allocations s p (suc i) xs) o
        ∙ ap (at (own a j) m (write_allocations s p (suc i) xs)) (
            at-Elsewhere (own a j) m (write_allocation_group s p b i) o (
              group-Elsewhere b i j a.recorded.label (omega arith)
                (omega (arith, get_elem?-lt xs k a e)) (λ q. omega arith)))
        ∙ write_allocations_read xs (suc i) k j a m o (omega arith) e (omega arith)
