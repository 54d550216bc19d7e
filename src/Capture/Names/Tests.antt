-- ===== src/Capture/Names/Tests.antt =====
-- Names of concrete labels, and the theorems at them.
use krepe.Prelude.{ℕ, ◌≡◌, refl, true, [], codes, none, some, has_prefix, arith}
use krepe.Prelude.Decimal.{to_string}
use krepe.Capture.Names.{
  sanitize_name, dump_filename, group_name, is_internal_label, label_or_unknown, bounded_string,
}
use krepe.Capture.Names.Unique.{dump_filename-injective, group_name-injective}

sanitized : sanitize_name (codes "a b/c") ≡ codes "a_b_c"
unfolding sanitize_name
sanitized = refl

unnamed : sanitize_name [] ≡ codes "unnamed"
unfolding sanitize_name
unnamed = refl

named : dump_filename (codes "axpy kernel") 12 ≡ codes "krepe_axpy_kernel_12.h5"
unfolding dump_filename sanitize_name to_string
named = refl

grouped : group_name 3 (codes "x") ≡ codes "view_3_x"
unfolding group_name sanitize_name to_string
grouped = refl

internal : is_internal_label (codes "Kokkos::View::destruction") ≡ true
unfolding is_internal_label has_prefix
internal = refl

unknown : label_or_unknown none ≡ codes "<unknown>"
unfolding label_or_unknown
unknown = refl

cut : bounded_string (some (codes "Host")) 3 ≡ codes "Hos"
unfolding bounded_string
cut = refl

same_file : dump_filename (codes "a b") 7 ≡ dump_filename (codes "a_b") 7
unfolding dump_filename sanitize_name
same_file = refl

dump_filename-injective_example : let n : ℕ = 7 in n ≡ n
dump_filename-injective_example =
    dump_filename-injective (codes "a b") (codes "a_b") 7 7 (omega arith) (omega arith) same_file

same_group : group_name 3 (codes "x y") ≡ group_name 3 (codes "x_y")
unfolding group_name sanitize_name
same_group = refl

group_name-injective_example : let n : ℕ = 3 in n ≡ n
group_name-injective_example =
    group_name-injective (codes "x y") (codes "x_y") 3 3 (omega arith) (omega arith) same_group
