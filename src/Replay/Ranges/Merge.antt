-- ===== src/Replay/Ranges/Merge.antt =====
-- `compute_allocations` keeps the union of the ranges and separates them.
use krepe.Prelude.{
  ℕ, ◌+◌, ◌-◌, ◌*◌, ◌≤◌, ◌<◌, ◌≡◌, ◌⊎◌, inl, inr, ◌↔◌, List, [], ◌∷◌, arith, ltb, Bool-cases,
  if◌then◌else◌,
}
use native.Mathlib.Nat.{mul-sub}
use krepe.Replay.Ranges.{
  Range, stop, word, merge_loop, compute_allocations, Within, Covered, Contained, Ascending,
  Separated, Fits, Aligned,
}

abbrev pub cur : ℕ → ℕ → Range
cur a s = record { address = a; size = s }

abbrev grown : ℕ → ℕ → Range → ℕ
grown a s r = if ltb s (stop r - a) then stop r - a else s

pub Ascending-mono : (m n : ℕ) (rs : List Range) → m ≤ n → Ascending n rs → Ascending m rs
Ascending-mono m n [] h o = tt
Ascending-mono m n (r ∷ rs) h o = (omega arith, o.1)

-- One round, where nothing wraps around: the range joins the current one, or the next one starts.
merge_loop_step :
    (a s : ℕ) (r : Range) (rs : List Range)
    → a + s < word
    → a ≤ r.address
    → stop r < word
    → ((r.address < a + s) × (merge_loop a s (r ∷ rs) ≡ merge_loop a (grown a s r) rs))
      ⊎ ((a + s ≤ r.address) × (merge_loop a s (r ∷ rs) ≡ cur a s ∷ merge_loop r.address r.size rs))
unfolding merge_loop
merge_loop_step a s r rs b h f = ground arith

-- What the loop keeps, for each way to go on.
merge_loop-Separated :
    (n a s : ℕ) (rs : List Range)
    → n ≤ a
    → a + s < word
    → Ascending a rs
    → Fits rs
    → Separated n (merge_loop a s rs)
unfolding merge_loop
merge_loop-Separated n a s [] h b o f = (h, tt)
merge_loop-Separated n a s (r ∷ rs) h b o f = elim (merge_loop_step a s r rs b o.0 f.0) [
  | inl (_, e) ↦ rw e (
      merge_loop-Separated n a (grown a s r) rs h (ground arith)
        (Ascending-mono a r.address rs o.0 o.1) f.1)
  | inr (later, e) ↦ rw e (h, merge_loop-Separated (a + s) r.address r.size rs later f.0 o.1 f.1)
]

-- A byte is in a merged range exactly if it was in one of the ranges.
merge_loop-Covered :
    (x a s : ℕ) (rs : List Range)
    → a + s < word
    → Ascending a rs
    → Fits rs
    → Covered x (merge_loop a s rs) ↔ (Within x (cur a s) ⊎ Covered x rs)
unfolding merge_loop
merge_loop-Covered x a s [] b o f = (λ c. c, λ c. c)
merge_loop-Covered x a s (r ∷ rs) b o f = elim (merge_loop_step a s r rs b o.0 f.0) [
  | inl (joins, e) ↦ rw e (
      ground (
        arith,
        merge_loop-Covered x a (grown a s r) rs (ground arith)
            (Ascending-mono a r.address rs o.0 o.1) f.1,
      ))
  | inr (later, e) ↦ rw e (ground (arith, merge_loop-Covered x r.address r.size rs f.0 o.1 f.1))
]

-- An interval that lay in one of the ranges lies in one of the merged ranges.
merge_loop-Contained :
    (x y a s : ℕ) (rs : List Range)
    → a + s < word
    → Ascending a rs
    → Fits rs
    → Contained x y (cur a s ∷ rs)
    → Contained x y (merge_loop a s rs)
unfolding merge_loop
merge_loop-Contained x y a s [] b o f c = c
merge_loop-Contained x y a s (r ∷ rs) b o f c = elim (merge_loop_step a s r rs b o.0 f.0) [
  | inl (joins, e) ↦ rw e (
      merge_loop-Contained x y a (grown a s r) rs (ground arith)
        (Ascending-mono a r.address rs o.0 o.1) f.1 (ground arith))
  | inr (later, e) ↦ rw e (ground (arith, merge_loop-Contained x y r.address r.size rs f.0 o.1 f.1))
]

Multiple-sub-add :
    (g a b c : ℕ)
    → ((k : ℕ) × (a ≡ k * g))
    → ((k : ℕ) × (b ≡ k * g))
    → ((k : ℕ) × (c ≡ k * g))
    → (k : ℕ) × (a + b - c ≡ k * g)
Multiple-sub-add g a b c (i, p) (j, q) (k, r) =
    (i + j - k, rw (p, q, r) (omega (arith, mul-sub g (i + j) k)))

grown-Multiple :
    (g a s : ℕ) (r : Range)
    → ((k : ℕ) × (a ≡ k * g))
    → ((k : ℕ) × (s ≡ k * g))
    → ((k : ℕ) × (r.address ≡ k * g))
    → ((k : ℕ) × (r.size ≡ k * g))
    → (k : ℕ) × (grown a s r ≡ k * g)
grown-Multiple g a s r p q u v = elim (Bool-cases (ltb s (stop r - a))) [
  | inl t ↦ rw t (Multiple-sub-add g r.address r.size a u v p)
  | inr t ↦ rw t q
]

merge_loop-Aligned :
    (g a s : ℕ) (rs : List Range)
    → a + s < word
    → Ascending a rs
    → Fits rs
    → Aligned g (cur a s ∷ rs)
    → Aligned g (merge_loop a s rs)
unfolding merge_loop
merge_loop-Aligned g a s [] b o f m = m
merge_loop-Aligned g a s (r ∷ rs) b o f (p, q, (u, v, m)) =
    elim (merge_loop_step a s r rs b o.0 f.0) [
      | inl (joins, e) ↦ rw e (
          merge_loop-Aligned g a (grown a s r) rs (ground arith)
            (Ascending-mono a r.address rs o.0 o.1) f.1 (p, grown-Multiple g a s r p q u v, m))
      | inr (later, e) ↦ rw e (p, q, merge_loop-Aligned g r.address r.size rs f.0 o.1 f.1 (u, v, m))
    ]

-- For ranges in ascending order of their addresses that end inside of the address space, the
-- reserved ranges are disjoint and in order.
pub compute-Separated :
    (rs : List Range) → Ascending 0 rs → Fits rs → Separated 0 (compute_allocations rs)
unfolding compute_allocations
compute-Separated [] o f = tt
compute-Separated (r ∷ rs) o f =
    merge_loop-Separated 0 r.address r.size rs (omega arith) f.0 o.1 f.1

-- For ranges in ascending order of their addresses that end inside of the address space, the
-- reserved ranges hold exactly the bytes that those ranges hold.
pub compute-Covered :
    (rs : List Range) (x : ℕ)
    → Ascending 0 rs
    → Fits rs
    → Covered x (compute_allocations rs) ↔ Covered x rs
unfolding compute_allocations
compute-Covered [] x o f = (λ c. c, λ c. c)
compute-Covered (r ∷ rs) x o f = merge_loop-Covered x r.address r.size rs f.0 o.1 f.1

-- For ranges in ascending order of their addresses that end inside of the address space, an
-- interval inside of one of them is inside of one reserved range.
pub compute-Contained :
    (rs : List Range) (x y : ℕ)
    → Ascending 0 rs
    → Fits rs
    → Contained x y rs
    → Contained x y (compute_allocations rs)
unfolding compute_allocations
compute-Contained [] x y o f c = c
compute-Contained (r ∷ rs) x y o f c = merge_loop-Contained x y r.address r.size rs f.0 o.1 f.1 c

-- For ranges in ascending order of their addresses that end inside of the address space and are
-- whole pages, the reserved ranges are whole pages.
pub compute-Aligned :
    (g : ℕ) (rs : List Range)
    → Ascending 0 rs
    → Fits rs
    → Aligned g rs
    → Aligned g (compute_allocations rs)
unfolding compute_allocations
compute-Aligned g [] o f m = m
compute-Aligned g (r ∷ rs) o f m = merge_loop-Aligned g r.address r.size rs f.0 o.1 f.1 m
