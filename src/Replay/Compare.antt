-- ===== src/Replay/Compare.antt =====
-- The `compare_views` templates of src/krepe/replay/kernel_replayer.hpp. A view type of Kokkos is
-- what the templates take of it: a view is an address and the arguments of its constructor, and the
-- functor is a function of the two views that may throw.
pub mod Laws
pub mod Tests
use krepe.Prelude.{
  ℕ, ◌/◌, ◌%◌, not, Option, none, some, Text, ltb, Result, err, ◌>>=◌, ◌>>◌, ◌==◌, if◌then◌else◌,
}
use krepe.Replay.Error.{
  Error, view_reference_unavailable, incompatible_sizes, view_exceeds_allocation,
}
use krepe.Replay.Space.{Platform, memory_space_type_from_string}
use krepe.Replay.Store.{
  ReplayAllocation, ReplayAllocations, get_unique_allocation, validate_comparison,
}

-- `Kokkos::View<DataType, Properties...>` for the arguments `Args`: its `span`, the size of its value
-- type and the name of its memory space.
pub record ViewType (Args : Type 0) : Type 0 where
  pub span : Args → ℕ
  pub value_size : ℕ
  pub memory_space : Text

pub record View (Args : Type 0) : Type 0 where
  pub p_data : ℕ
  pub args : Args

module _ {Args B : Type 0} (p : Platform) (v : ViewType Args) where
  -- The functor takes the expected view, then the actual one.
  unfoldable pub compare_views :
      ReplayAllocation → Args → (View Args → View Args → Result Error B) → Result Error B
  compare_views allocation args f =
      validate_comparison p allocation v.memory_space
      >> (if ltb (allocation.size_bytes / v.value_size) (v.span args)
          then err (view_exceeds_allocation allocation.label)
          else f (record { p_data = allocation.reference_data; args = args })
              (record { p_data = allocation.p_data; args = args }))

  -- The two templates that look the allocation up by the label, which is that of a view in one of
  -- them.
  unfoldable pub compare_labelled_views :
      Option ReplayAllocations
      → Text
      → Args
      → (View Args → View Args → Result Error B)
      → Result Error B
  compare_labelled_views replay_allocations label args f =
      get_unique_allocation p replay_allocations (memory_space_type_from_string v.memory_space)
        label
      >>= λ found. elim found [
        | none ↦ err (view_reference_unavailable label)
        | some allocation ↦
            if not allocation.has_reference
            then err (view_reference_unavailable label)
            else f (record { p_data = allocation.reference_data; args = args })
                (record { p_data = allocation.p_data; args = args })
      ]

-- Views of rank one, which take their extent.
unfoldable pub compare_flat_views :
    {B : Type 0}
    → Platform
    → ViewType ℕ
    → ReplayAllocation
    → (View ℕ → View ℕ → Result Error B)
    → Result Error B
compare_flat_views p v allocation f =
    if not (allocation.size_bytes % v.value_size == 0)
    then err (incompatible_sizes allocation.label)
    else compare_views p v allocation (allocation.size_bytes / v.value_size) f
