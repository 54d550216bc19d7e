-- ===== src/Replay/Ranges/Insert.antt =====
-- `std::set::insert` keeps what the merge relies on.
use krepe.Prelude.{ℕ, ◌≤◌, ◌<◌, List, [], ◌∷◌, arith}
use krepe.Replay.Ranges.{Range, stop, word, insert_range, Contained, Ascending, Fits, Aligned}

pub insert_range-Ascending :
    (n : ℕ) (r : Range) (rs : List Range)
    → n ≤ r.address
    → Ascending n rs
    → Ascending n (insert_range r rs)
unfolding insert_range
insert_range-Ascending n r [] h o = (h, tt)
insert_range-Ascending n r (s ∷ ss) h o = ground (arith, insert_range-Ascending s.address r ss)

pub insert_range-Fits :
    (r : Range) (rs : List Range) → stop r < word → Fits rs → Fits (insert_range r rs)
unfolding insert_range
insert_range-Fits r [] h o = (h, tt)
insert_range-Fits r (s ∷ ss) h o = ground (arith, insert_range-Fits r ss)

pub insert_range-Aligned :
    (g : ℕ) (r : Range) (rs : List Range)
    → Aligned g (r ∷ [])
    → Aligned g rs
    → Aligned g (insert_range r rs)
unfolding insert_range
insert_range-Aligned g r [] h m = h
insert_range-Aligned g r (s ∷ ss) h m = ground (arith, insert_range-Aligned g r ss h m.2)

-- Nothing is lost by an insertion, and the new range is there.
pub insert_range-Contained :
    (x y : ℕ) (r : Range) (rs : List Range)
    → Contained x y (r ∷ rs)
    → Contained x y (insert_range r rs)
unfolding insert_range
insert_range-Contained x y r [] c = c
insert_range-Contained x y r (s ∷ ss) c = ground (arith, insert_range-Contained x y r ss)
