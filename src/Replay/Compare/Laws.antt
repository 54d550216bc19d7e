-- ===== src/Replay/Compare/Laws.antt =====
-- When the functor of a comparison is called, and with which views.
use native.Mathlib.Nat.{div-add-mod, mod-lt, mul-le-mul_right}
use krepe.Prelude.{
  ℕ, ◌+◌, ◌*◌, ◌/◌, ◌%◌, ◌⊎◌, inl, inr, ◌≡◌, ◌↔◌, refl, ◌≤◌, ◌<◌, true, not, Option, if◌then◌else◌,
  >>=-eq-ok, none, some, [], ◌∷◌, Text, arith, Result, err, ok,
}
use krepe.Replay.Error.{Error, view_reference_unavailable}
use krepe.Replay.Space.{MemorySpaceType, Platform, memory_space_type_from_string}
use krepe.Replay.Store.{ReplayAllocation, ReplayAllocations, get_allocations, get_unique_allocation}
use krepe.Replay.Store.Compare.{IsComparable, validate_comparison_lem}
use krepe.Replay.Store.Lookup.{get_unique_allocation_lem}
use krepe.Replay.Compare.{ViewType, View, compare_views, compare_labelled_views, compare_flat_views}

-- A number of items fits in a number of bytes exactly if the items' bytes do.
fits : (bytes size n : ℕ) → 0 < size → (n ≤ bytes / size) ↔ (n * size ≤ bytes)
fits bytes size n positive = (
  λ h. omega (arith, mul-le-mul_right size h, div-add-mod bytes size),
  λ h. elim (compare n (bytes / size)) [
    | inl below ↦ below
    | inr above ↦
        omega (arith, mul-le-mul_right size above, div-add-mod bytes size, mod-lt bytes positive, h)
  ],
)
  where
    compare : (a b : ℕ) → (a ≤ b) ⊎ (b + 1 ≤ a)
    compare a b = ground arith

module _ {Args B : Type 0} (p : Platform) (v : ViewType Args) where
  -- A comparison by label returns a value exactly if a single allocation has the label among those
  -- in host memory, or those in device memory, as the space of the view says, its reference is there,
  -- and the functor returns that value on the view of the reference and the view of the data.
  pub compare_labelled_views_lem :
      (table : Option ReplayAllocations) (label : Text) (args : Args)
      (f : View Args → View Args → Result Error B) (b : B)
      → (compare_labelled_views p v table label args f ≡ ok b) ↔ (
          (a : ReplayAllocation) × (get_allocations p table
              (memory_space_type_from_string v.memory_space)
              (some label)
            ≡ ok (a ∷ []))
          × (a.has_reference ≡ true)
          × (f
                (record { p_data = a.reference_data; args = args })
                (record { p_data = a.p_data; args = args })
              ≡ ok b))
  unfolding compare_labelled_views
  compare_labelled_views_lem table label args f b = (
    λ e.
        let (found, got, rest) = >>=-eq-ok (get_unique_allocation p table space label) _ e in
        let (a, same, referenced, called) = opened found rest in
        (a, (get_unique_allocation_lem p table space label a).0.0 (cc), referenced, called),
    λ (a, got, referenced, called). ground (arith, get_unique_allocation_lem p table space label a),
  )
    where
      space : MemorySpaceType
      space = memory_space_type_from_string v.memory_space

      opened :
          (found : Option ReplayAllocation)
          → elim found [
            | none ↦ err (view_reference_unavailable label)
            | some a ↦
                if not a.has_reference
                then err (view_reference_unavailable label)
                else f
                    (record { p_data = a.reference_data; args = args })
                    (record { p_data = a.p_data; args = args })
          ]
            ≡ ok b
          → (a : ReplayAllocation) × (found ≡ some a)
            × (a.has_reference ≡ true)
            × (f
                  (record { p_data = a.reference_data; args = args })
                  (record { p_data = a.p_data; args = args })
                ≡ ok b)
      opened none h = ground arith
      opened (some a) h = (a, refl, ground arith, ground arith)

module _ {Args B : Type 0} (p : Platform) (v : ViewType Args) (positive : 0 < v.value_size) where
  -- A comparison of an allocation, where the items of the view have a positive size, returns a
  -- value exactly if the allocation can be compared with its reference, the span of the view fits in
  -- the bytes of both, and the functor returns that value on the view of the reference and the view
  -- of the data.
  pub compare_views_lem :
      (a : ReplayAllocation) (args : Args) (f : View Args → View Args → Result Error B) (b : B)
      → (compare_views p v a args f ≡ ok b) ↔ (
          IsComparable p a v.memory_space
          × (v.span args * v.value_size ≤ a.size_bytes)
          × (v.span args * v.value_size ≤ a.reference_size_bytes)
          × (f
                (record { p_data = a.reference_data; args = args })
                (record { p_data = a.p_data; args = args })
              ≡ ok b))
  unfolding compare_views
  compare_views_lem a args f b = ground (
    arith,
    validate_comparison_lem p a v.memory_space,
    fits a.size_bytes v.value_size (v.span args) positive,
  )

-- What divides the bytes is their number of items, and leaves none.
divides : (bytes size n : ℕ) → 0 < size → n * size ≡ bytes → (bytes % size ≡ 0) × (bytes / size ≡ n)
divides bytes size n positive h = ground (
  arith,
  fits bytes size n positive,
  fits bytes size (n + 1) positive,
  div-add-mod bytes size,
  mod-lt bytes positive,
)

-- A comparison whose extent is inferred, where the items of the view have a positive size and the
-- span of a view of rank one is its extent, returns a value exactly if the allocation can be
-- compared with its reference, its bytes are those of a whole number of items, and the functor
-- returns that value on the views with that number of items.
pub compare_flat_views_lem :
    {B : Type 0} (p : Platform) (v : ViewType ℕ)
    → 0 < v.value_size
    → ((n : ℕ) → v.span n ≡ n)
    → (a : ReplayAllocation) (f : View ℕ → View ℕ → Result Error B) (b : B)
    → (compare_flat_views p v a f ≡ ok b) ↔ (
        IsComparable p a v.memory_space
        × (n : ℕ) × (n * v.value_size ≡ a.size_bytes)
        × (f
              (record { p_data = a.reference_data; args = n })
              (record { p_data = a.p_data; args = n })
            ≡ ok b))
unfolding compare_flat_views
compare_flat_views_lem p v positive flat a f b = (
  λ e.
      let whole : a.size_bytes % v.value_size ≡ 0 = ground arith in
      let (c, _, _, called) =
        (compare_views_lem p v positive a (a.size_bytes / v.value_size) f b).0 (ground arith) in
      (
        c,
        a.size_bytes / v.value_size,
        omega (arith, div-add-mod a.size_bytes v.value_size),
        called,
      ),
  λ (c, n, whole, called). ground (
    arith,
    divides a.size_bytes v.value_size n positive whole,
    compare_views_lem p v positive a n f b,
    c.same_size,
    flat n,
  ),
)
