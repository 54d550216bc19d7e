-- ===== src/Replay/Store/Tests.antt =====
-- Lookups among restored allocations, and the theorems at them.
use krepe.Prelude.{◌≡◌, ◌↔◌, refl, true, some, [], ◌∷◌, map, Text, codes, text_eq, ok, err}
use krepe.Prelude.Dict.{Listed}
use krepe.Replay.Error.{ambiguous_label}
use krepe.Replay.Space.{host, memory_space_type_from_string}
use krepe.Replay.Dump.Tests.{cpu}
use krepe.Replay.Store.{
  ReplayAllocation, StoredAllocation, ReplayAllocations, descriptor_of, has_label, get_allocations,
  check_replay_allocations, get_allocations_for_space_name, get_unique_allocation, only,
  has_out_allocation, get_allocation, get_out_allocation,
}
use krepe.Replay.Store.Lookup.{Listed-get_allocations_for_space_name}

abbrev described : Text → ReplayAllocation
described label = record {
  label = label;
  memory_space = codes "Host";
  p_data = 5000;
  size_bytes = 3;
  reference_data = 70000;
  reference_size_bytes = 3;
  has_input = true;
  has_reference = true;
}

abbrev held : Text → StoredAllocation
held label = record {
  captured_allocation = 4872;
  descriptor = described label;
  output_seen = true;
  reference = some (1 ∷ 2 ∷ 3 ∷ []);
}

abbrev table : ReplayAllocations
table = held (codes "x") ∷ held (codes "y") ∷ held (codes "y") ∷ []

ambiguous : get_allocation cpu (some table) host (codes "y") ≡ err (ambiguous_label (codes "y"))
unfolding get_allocation get_unique_allocation check_replay_allocations only
    memory_space_type_from_string text_eq
ambiguous = refl

referenced : get_out_allocation cpu (some table) host (codes "x") ≡ ok 70000
unfolding get_out_allocation get_unique_allocation check_replay_allocations only
    memory_space_type_from_string text_eq
referenced = refl

available : has_out_allocation cpu (some table) host (codes "x") ≡ ok true
unfolding has_out_allocation get_unique_allocation check_replay_allocations only
    memory_space_type_from_string text_eq
available = refl

named :
    get_allocations_for_space_name cpu (some table) (codes "Host") (some (codes "x"))
    ≡ ok (described (codes "x") ∷ [])
unfolding get_allocations_for_space_name get_allocations check_replay_allocations
    memory_space_type_from_string text_eq
named = refl

Listed-get_allocations_for_space_name_example :
    Listed (described (codes "x")) (described (codes "x") ∷ []) ↔ (
      Listed (described (codes "x")) (map descriptor_of table)
      × (codes "Host" ≡ codes "Host")
      × (has_label (some (codes "x")) (codes "x") ≡ true))
Listed-get_allocations_for_space_name_example =
    Listed-get_allocations_for_space_name cpu table (codes "Host") (some (codes "x"))
      (described (codes "x") ∷ []) (described (codes "x")) named
