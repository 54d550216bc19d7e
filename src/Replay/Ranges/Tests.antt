-- ===== src/Replay/Ranges/Tests.antt =====
-- Ranges computed on concrete captures, and the theorems at them.
use krepe.Prelude.{◌*◌, ℕ, ◌+◌, ◌≤◌, ◌<◌, ◌≡◌, ◌↔◌, refl, List, [], ◌∷◌, arith}
use krepe.Replay.Ranges.{
  Range, stop, align_range, insert_range, compute_allocations, Covered, Ascending, Separated, Fits,
  Aligned,
}
use krepe.Replay.Ranges.Align.{align_range_lem}
use krepe.Replay.Ranges.Merge.{compute-Separated, compute-Covered}

abbrev at : ℕ → ℕ → Range
at address size = record { address = address; size = size }

-- Two ranges that overlap, one that touches the second, and one that is far away.
abbrev captured : List Range
captured = at 4096 8192 ∷ at 8192 8192 ∷ at 16384 4096 ∷ at 40960 4096 ∷ []

ascending : Ascending 0 captured
ascending = (omega arith, (omega arith, (omega arith, (omega arith, tt))))

fits : Fits captured
fits = (omega arith, (omega arith, (omega arith, (omega arith, tt))))

aligned : Aligned 4096 captured
aligned = (
  (1, refl),
  (2, refl),
  ((2, refl), (2, refl), ((4, refl), (1, refl), ((10, refl), (1, refl), tt))),
)

merged : compute_allocations captured ≡ at 4096 12288 ∷ at 16384 4096 ∷ at 40960 4096 ∷ []
unfolding compute_allocations
merged = refl

inserted : insert_range (at 5 1) (at 3 1 ∷ at 5 1 ∷ []) ≡ at 3 1 ∷ at 5 1 ∷ []
unfolding insert_range
inserted = refl

one_page : align_range 4096 5000 100 ≡ at 4096 4096
unfolding align_range
one_page = refl

align_range_lem_example :
    let r = align_range 4096 8000 500 in
    ((k : ℕ) × (r.address ≡ k * 4096))
    × ((k : ℕ) × (r.size ≡ k * 4096))
    × (r.address ≤ 8000)
    × (8000 < r.address + 4096)
    × (8000 + 500 ≤ stop r)
    × (stop r < 8000 + 500 + 4096)
align_range_lem_example = align_range_lem 4096 8000 500 (omega arith) (omega arith) (omega arith)

compute-Separated_example : Separated 0 (compute_allocations captured)
compute-Separated_example = compute-Separated captured ascending fits

compute-Covered_example : Covered 9000 (compute_allocations captured) ↔ Covered 9000 captured
compute-Covered_example = compute-Covered captured 9000 ascending fits
