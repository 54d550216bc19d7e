-- ===== src/Capture/Policy/Write.antt =====
-- `write_policy` of src/krepe/capture/view_dump.cpp, one overload for each description, as the
-- writes below the group `policy`.
use krepe.Prelude.{ℕ, Bool, List, [], ◌∷◌, ◌++◌, Text, codes, if◌then◌else◌}
use krepe.Prelude.Int.{ℤ, pos, of_bits}
use krepe.Hdf5.{string_value, uint64_value, int_value, int64_dataset}
use krepe.Hdf5.Write.{Command, attribute, link}
use krepe.Capture.Policy.{IndexTypeDesc, PolicyDesc, no_policy, scalar, range, mdrange, team}

-- The type has one byte more than the text, for the null byte at the end.
abbrev pub write_string_attribute : Text → Text → Command
write_string_attribute name value = attribute name (string_value (value ++ 0 ∷ []))

abbrev pub write_uint64_attribute : Text → ℕ → Command
write_uint64_attribute name value = attribute name (uint64_value value)

abbrev pub write_int_attribute : Text → ℤ → Command
write_int_attribute name value = attribute name (int_value value)

abbrev pub write_dataset : Text → List ℤ → Command
write_dataset name numbers = link name (int64_dataset numbers)

-- The conversions of a `std::size_t` and of a `bool` to `int`.
abbrev pub size_to_int : ℕ → ℤ
size_to_int n = of_bits 32 n

abbrev pub bool_to_int : Bool → ℤ
bool_to_int b = if b then pos 1 else pos 0

-- The four attributes that the last three descriptions share.
abbrev pub write_traits : IndexTypeDesc → Text → Text → List Command
write_traits index_type_desc space schedule =
    write_int_attribute (codes "index_type_size") (size_to_int index_type_desc.size)
    ∷ write_int_attribute (codes "index_type_signed") (bool_to_int index_type_desc.is_signed)
    ∷ write_string_attribute (codes "space") space
    ∷ write_string_attribute (codes "schedule") schedule
    ∷ []

unfoldable pub write_policy : PolicyDesc → List Command
write_policy no_policy = write_string_attribute (codes "type") (codes "none") ∷ []
write_policy (scalar n) =
    write_string_attribute (codes "type") (codes "scalar")
    ∷ write_uint64_attribute (codes "end") n
    ∷ []
write_policy (range p) =
    write_string_attribute (codes "type") (codes "range")
    ∷ (write_traits p.index_type_desc p.space p.schedule
        ++ write_uint64_attribute (codes "begin") p.begin
          ∷ write_uint64_attribute (codes "end") p.end
          ∷ write_int_attribute (codes "chunk_size") p.chunk_size
          ∷ [])
write_policy (mdrange p) =
    write_string_attribute (codes "type") (codes "mdrange")
    ∷ (write_traits p.index_type_desc p.space p.schedule
        ++ write_int_attribute (codes "rank") (size_to_int p.rank)
          ∷ write_string_attribute (codes "outer_dir") p.outer_dir
          ∷ write_string_attribute (codes "inner_dir") p.inner_dir
          ∷ write_dataset (codes "begin") p.begin
          ∷ write_dataset (codes "end") p.end
          ∷ write_dataset (codes "tile") p.tile
          ∷ [])
write_policy (team p) =
    write_string_attribute (codes "type") (codes "team")
    ∷ (write_traits p.index_type_desc p.space p.schedule
        ++ write_int_attribute (codes "team_size") p.team_size
          ∷ write_int_attribute (codes "league_size") p.league_size
          ∷ write_int_attribute (codes "vector_length") p.vector_length
          ∷ write_int_attribute (codes "team_scratch_0") p.team_scratch_0
          ∷ write_int_attribute (codes "team_scratch_1") p.team_scratch_1
          ∷ write_int_attribute (codes "thread_scratch_0") p.thread_scratch_0
          ∷ write_int_attribute (codes "thread_scratch_1") p.thread_scratch_1
          ∷ write_int_attribute (codes "chunk_size") p.chunk_size
          ∷ [])
