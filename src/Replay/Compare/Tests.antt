-- ===== src/Replay/Compare/Tests.antt =====
-- Comparisons of an array of four-byte items with its reference, and the theorems at it.
use krepe.Prelude.{
  ℕ, ◌*◌, ◌≡◌, ◌↔◌, ◌≤◌, refl, true, some, List, [], ◌∷◌, Text, text_eq, codes, arith, Result, ok,
  err,
}
use krepe.Replay.Error.{Error, view_exceeds_allocation, ambiguous_label}
use krepe.Replay.Space.{memory_space_type_from_string}
use krepe.Replay.Dump.Tests.{cpu}
use krepe.Replay.Store.{
  ReplayAllocation, StoredAllocation, ReplayAllocations, check_replay_allocations, get_allocations,
  get_unique_allocation, only, replay_space, validate_comparison,
}
use krepe.Replay.Store.Compare.{IsComparable}
use krepe.Replay.Compare.{ViewType, View, compare_views, compare_labelled_views, compare_flat_views}
use krepe.Replay.Compare.Laws.{
  compare_views_lem, compare_labelled_views_lem, compare_flat_views_lem,
}

abbrev ints : ViewType ℕ
ints = record { span = λ n. n; value_size = 4; memory_space = codes "Host" }

abbrev array : Text → ReplayAllocation
array label = record {
  label = label;
  memory_space = codes "Host";
  p_data = 5000;
  size_bytes = 12;
  reference_data = 70000;
  reference_size_bytes = 12;
  has_input = true;
  has_reference = true;
}

abbrev held : Text → StoredAllocation
held label = record {
  captured_allocation = 4872;
  descriptor = array label;
  output_seen = true;
  reference = some [];
}

abbrev table : ReplayAllocations
table = held (codes "x") ∷ held (codes "y") ∷ held (codes "y") ∷ []

-- Gives back where the views lie and their extent.
abbrev described : View ℕ → View ℕ → Result Error (List ℕ)
described expected actual = ok (expected.p_data ∷ actual.p_data ∷ actual.args ∷ [])

too_large :
    compare_views cpu ints (array (codes "x")) 4 described
    ≡ err (view_exceeds_allocation (codes "x"))
unfolding compare_views validate_comparison replay_space text_eq
too_large = refl

inferred : compare_flat_views cpu ints (array (codes "x")) described ≡ ok (70000 ∷ 5000 ∷ 3 ∷ [])
unfolding compare_flat_views compare_views validate_comparison replay_space text_eq
inferred = refl

ambiguous :
    compare_labelled_views cpu ints (some table) (codes "y") 3 described
    ≡ err (ambiguous_label (codes "y"))
unfolding compare_labelled_views get_unique_allocation check_replay_allocations only
    memory_space_type_from_string text_eq
ambiguous = refl

compare_views_lem_example :
    (compare_views cpu ints (array (codes "x")) 2 described ≡ ok (70000 ∷ 5000 ∷ 2 ∷ [])) ↔ (
      IsComparable cpu (array (codes "x")) (codes "Host")
      × (2 * 4 ≤ 12)
      × (2 * 4 ≤ 12)
      × (described (record { p_data = 70000; args = 2 }) (record { p_data = 5000; args = 2 })
          ≡ ok (70000 ∷ 5000 ∷ 2 ∷ [])))
compare_views_lem_example =
    compare_views_lem cpu ints (omega arith) (array (codes "x")) 2 described (70000 ∷ 5000 ∷ 2 ∷ [])

compare_labelled_views_lem_example :
    (compare_labelled_views cpu ints (some table) (codes "x") 3 described
      ≡ ok (70000 ∷ 5000 ∷ 3 ∷ []))
    ↔ ((a : ReplayAllocation) × (get_allocations cpu
            (some table)
            (memory_space_type_from_string (codes "Host"))
            (some (codes "x"))
          ≡ ok (a ∷ []))
        × (a.has_reference ≡ true)
        × (described
              (record { p_data = a.reference_data; args = 3 })
              (record { p_data = a.p_data; args = 3 })
            ≡ ok (70000 ∷ 5000 ∷ 3 ∷ [])))
compare_labelled_views_lem_example =
    compare_labelled_views_lem cpu ints (some table) (codes "x") 3 described (70000 ∷ 5000 ∷ 3 ∷ [])

compare_flat_views_lem_example :
    (compare_flat_views cpu ints (array (codes "x")) described ≡ ok (70000 ∷ 5000 ∷ 3 ∷ [])) ↔ (
      IsComparable cpu (array (codes "x")) (codes "Host")
      × (n : ℕ) × (n * 4 ≡ 12)
      × (described (record { p_data = 70000; args = n }) (record { p_data = 5000; args = n })
          ≡ ok (70000 ∷ 5000 ∷ 3 ∷ [])))
compare_flat_views_lem_example =
    compare_flat_views_lem cpu ints (omega arith) (λ n. refl) (array (codes "x")) described
      (70000 ∷ 5000 ∷ 3 ∷ [])
