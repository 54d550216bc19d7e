-- ===== src/Capture/Names.antt =====
-- Names in a dump: `sanitize_name` and `dump_filename` of src/krepe/capture/view_dump.cpp, the
-- group's name in `write_allocation_group`, and the label tests of
-- src/krepe/capture/kokkos_hooks.cpp.
pub mod Unique
pub mod Tests
use krepe.Prelude.{
  ℕ, ◌+◌, ◌≡◌, Bool, true, false, ◌&&◌, ◌||◌, Option, none, some, List, [], ◌∷◌, ◌++◌, Text, codes,
  has_prefix, length, take, ltb, leb, ◌==◌, if◌then◌else◌,
}
use krepe.Prelude.Decimal.{to_string, is_digit}

-- `std::isalnum` in the "C" locale.
abbrev pub is_alnum : ℕ → Bool
is_alnum c = is_digit c || ((leb b'A' c && leb c b'Z') || (leb b'a' c && leb c b'z'))

abbrev pub is_kept : ℕ → Bool
is_kept c = is_alnum c || (c == b'_' || (c == b'-' || c == b'.'))

pub replace_bytes : Text → Text
replace_bytes [] = []
replace_bytes (c ∷ s) = (if is_kept c then c else b'_') ∷ replace_bytes s

-- The tests behind the loop.
pub bound_name : Text → Text
bound_name [] = codes "unnamed"
bound_name (c ∷ s) = if ltb 80 (length (c ∷ s)) then take 80 (c ∷ s) else c ∷ s

unfoldable pub sanitize_name : Text → Text
unfolding replace_bytes bound_name
sanitize_name value = bound_name (replace_bytes value)

unfoldable pub dump_filename : Text → ℕ → Text
dump_filename label kernel_id =
    codes "krepe_" ++ (sanitize_name label ++ (b'_' ∷ (to_string kernel_id ++ codes ".h5")))

-- The name of the group of the allocation with this index.
unfoldable pub group_name : ℕ → Text → Text
group_name index label = codes "view_" ++ (to_string index ++ (b'_' ∷ sanitize_name label))

unfoldable pub label_or_unknown : Option Text → Text
label_or_unknown none = codes "<unknown>"
label_or_unknown (some label) = label

unfoldable pub is_internal_label : Text → Bool
unfolding has_prefix
is_internal_label label =
    has_prefix (codes "Kokkos::") label
    || (has_prefix (codes "HostSpace::") label
        || (has_prefix (codes "CudaSpace::") label
            || (has_prefix (codes "HIPSpace::") label
                || (has_prefix (codes "SYCLSpace::") label
                    || (has_prefix (codes "OpenACCSpace::") label
                        || (has_prefix (codes "NextSiliconSpace::") label
                            || (has_prefix (codes "KOKKOS_") label
                                || has_prefix (codes "kokkos.") label)))))))

pub until_null : Text → Text
until_null [] = []
until_null (c ∷ s) = let rest = until_null s in if c == 0 then [] else c ∷ rest

-- `bounded_string`: a buffer of a fixed size up to its first null byte.
unfoldable pub bounded_string : Option Text → ℕ → Text
unfolding until_null
bounded_string none max_size = codes "<null>"
bounded_string (some value) max_size = until_null (take max_size value)
