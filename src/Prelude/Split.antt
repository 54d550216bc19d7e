-- ===== src/Prelude/Split.antt =====
-- Texts around a separator.
use Prim.Native.Nat.{ℕ}
use mathlib.Core.Path.{◌≡◌, refl}
use mathlib.Core.Logic.{◌≢◌}
use mathlib.Core.List.{[], ◌∷◌, ◌++◌}
use native.Mathlib.Omega.{arith}
use krepe.Prelude.Texts.{Text}

-- The byte does not stand in the text.
abbrev pub Without : ℕ → Text → Type 0
Without c [] = Unit
Without c (d ∷ s) = (d ≢ c) × Without c s

pub Without-append : (c : ℕ) (s t : Text) → Without c s → Without c t → Without c (s ++ t)
Without-append c [] t a b = b
Without-append c (d ∷ s) t a b = (a.0, Without-append c s t a.1 b)

-- The first separator can be found from the left, where the parts before it have none.
pub split_left :
    (c : ℕ) (xs ys s t : Text)
    → Without c xs
    → Without c ys
    → xs ++ c ∷ s ≡ ys ++ c ∷ t
    → (xs ≡ ys) × (s ≡ t)
split_left c [] [] s t a b e = ground arith
split_left c [] (y ∷ ys) s t a b e = absurd (ground arith)
split_left c (x ∷ xs) [] s t a b e = absurd (ground arith)
split_left c (x ∷ xs) (y ∷ ys) s t a b e =
    let tails : xs ++ c ∷ s ≡ ys ++ c ∷ t = ground arith in
    ground (arith, split_left c xs ys s t a.1 b.1 tails)

not-Without : (c : ℕ) (s t : Text) → Without c (s ++ c ∷ t) → ⊥
not-Without c [] t a = a.0 refl
not-Without c (d ∷ s) t a = not-Without c s t a.1

-- The last one from the right, where the parts behind it have none.
pub split_right :
    (c : ℕ) (xs ys s t : Text)
    → Without c s
    → Without c t
    → xs ++ c ∷ s ≡ ys ++ c ∷ t
    → (xs ≡ ys) × (s ≡ t)
split_right c [] [] s t a b e = ground arith
split_right c [] (y ∷ ys) s t a b e =
    let tails : s ≡ ys ++ c ∷ t = ground arith in absurd (not-Without c ys t (rw (← tails) a))
split_right c (x ∷ xs) [] s t a b e =
    let tails : xs ++ c ∷ s ≡ t = ground arith in absurd (not-Without c xs s (rw tails b))
split_right c (x ∷ xs) (y ∷ ys) s t a b e =
    let tails : xs ++ c ∷ s ≡ ys ++ c ∷ t = ground arith in
    ground (arith, split_right c xs ys s t a b tails)
