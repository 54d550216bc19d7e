-- ===== src/Replay/Ranges/Align.antt =====
-- What `get_allocation_address` promises.
use krepe.Prelude.{ℕ, ◌+◌, ◌-◌, ◌*◌, ◌/◌, ◌≤◌, ◌<◌, ◌≡◌, refl, arith}
use native.Mathlib.Nat.{div-add-mod, mod-lt}
use krepe.Replay.Ranges.{stop, word, align_range}

-- `(n / g) * g` is at most `n`, and less than `g` below it.
floor : (n g : ℕ) → 0 < g → ((n / g) * g ≤ n) × (n < (n / g) * g + g)
floor n g h = grind (arith, div-add-mod, mod-lt)

-- Where pages and the allocation are not empty, and the allocation ends a page or more before the
-- end of the address space: the range begins at the last page border at or before the address,
-- and ends at or behind the last byte, less than a page further.
pub align_range_bounds :
    (g a s : ℕ)
    → 0 < g
    → 0 < s
    → a + s + g < word
    → let r = align_range g a s in
      (r.address ≤ a) × (a < r.address + g) × (a + s ≤ stop r) × (stop r < a + s + g)
unfolding align_range
align_range_bounds g a s hg hs b =
    ground (arith, floor a g hg, floor (s + (a - (a / g) * g) - 1) g hg)

-- Under the same conditions both the address and the size of the range are whole numbers of
-- pages.
pub align_range_multiple :
    (g a s : ℕ)
    → 0 < g
    → 0 < s
    → a + s + g < word
    → let r = align_range g a s in ((k : ℕ) × (r.address ≡ k * g)) × ((k : ℕ) × (r.size ≡ k * g))
unfolding align_range
align_range_multiple g a s hg hs b = (
  (a / g, refl),
  (
    ((s + (a - (a / g) * g)) - 1) / g + 1,
    ground (arith, floor a g hg, floor (s + (a - (a / g) * g) - 1) g hg),
  ),
)

-- Where pages and the allocation are not empty, and the allocation ends a page or more before the
-- end of the address space: the range is a whole number of pages from a page border on, which is the
-- last one at or before the address, and it ends at or behind the last byte, less than a page
-- further.
pub align_range_lem :
    (g a s : ℕ)
    → 0 < g
    → 0 < s
    → a + s + g < word
    → let r = align_range g a s in
      ((k : ℕ) × (r.address ≡ k * g))
      × ((k : ℕ) × (r.size ≡ k * g))
      × (r.address ≤ a)
      × (a < r.address + g)
      × (a + s ≤ stop r)
      × (stop r < a + s + g)
align_range_lem g a s hg hs b =
    let (begins, whole) = align_range_multiple g a s hg hs b in
    let (before, near, covers, short) = align_range_bounds g a s hg hs b in
    (begins, whole, before, near, covers, short)
