-- ===== src/Capture/Tracker/Snapshot.antt =====
-- Which allocations a snapshot takes.
use krepe.Prelude.{
  ℕ, ◌+◌, ◌^◌, ◌≤◌, ◌<◌, ◌≡◌, refl, ap, ◌∙◌, Bool, false, ◌&&◌, ◌||◌, List, [], ◌∷◌, arith, leb,
  any,
}
use krepe.Prelude.Dict.{nat_eq, text_instance}
use krepe.Capture.Tracker.{AllocationRecord, insert_pointer, sort_pointers, lower_bound, is_used}

-- A registered pointer that belongs to the allocation: in its data, or at its end.
abbrev pub belongs : AllocationRecord → ℕ → Bool
belongs r p = leb r.p_data p && leb p (r.p_data + r.size)

-- Each entry is at least `n`, and the list ascends.
abbrev Sorted : ℕ → List ℕ → Type 0
Sorted n [] = Unit
Sorted n (p ∷ ps) = (n ≤ p) × Sorted p ps

insert_pointer-Sorted :
    (n p : ℕ) (ps : List ℕ) → n ≤ p → Sorted n ps → Sorted n (insert_pointer p ps)
unfolding insert_pointer
insert_pointer-Sorted n p [] h s = (h, tt)
insert_pointer-Sorted n p (q ∷ qs) h s = ground (arith, insert_pointer-Sorted q p qs)

sort_pointers-Sorted : (ps : List ℕ) → Sorted 0 (sort_pointers ps)
unfolding sort_pointers
sort_pointers-Sorted [] = tt
sort_pointers-Sorted (p ∷ ps) =
    insert_pointer-Sorted 0 p (sort_pointers ps) (omega arith) (sort_pointers-Sorted ps)

any-insert_pointer :
    (f : ℕ → Bool) (p : ℕ) (ps : List ℕ) → any f (insert_pointer p ps) ≡ (f p || any f ps)
unfolding insert_pointer
any-insert_pointer f p [] = refl
any-insert_pointer f p (q ∷ qs) = ground (arith, any-insert_pointer f p qs)

any-sort_pointers : (f : ℕ → Bool) (ps : List ℕ) → any f (sort_pointers ps) ≡ any f ps
unfolding sort_pointers
any-sort_pointers f [] = refl
any-sort_pointers f (p ∷ ps) =
    any-insert_pointer f p (sort_pointers ps) ∙ ap (λ b. f p || b) (any-sort_pointers f ps)

above :
    (r : AllocationRecord) (n : ℕ) (ps : List ℕ)
    → r.p_data + r.size < n
    → Sorted n ps
    → any (belongs r) ps ≡ false
above r n [] h s = refl
above r n (p ∷ ps) h s = ground (arith, above r p ps)

is_used-Sorted :
    (r : AllocationRecord) (n : ℕ) (ps : List ℕ)
    → r.p_data + r.size < 2 ^ 64
    → Sorted n ps
    → is_used ps r ≡ any (belongs r) ps
unfolding is_used lower_bound
is_used-Sorted r n [] h s = refl
is_used-Sorted r n (p ∷ ps) h s = ground (arith, is_used-Sorted r p ps h s.1, above r p ps)

-- For an allocation whose data end inside of the address space, the search among the sorted
-- pointers decides whether any registered pointer belongs to it.
pub is_used-any :
    (r : AllocationRecord) (ps : List ℕ)
    → r.p_data + r.size < 2 ^ 64
    → is_used (sort_pointers ps) r ≡ any (belongs r) ps
is_used-any r ps h =
    is_used-Sorted r 0 (sort_pointers ps) h (sort_pointers-Sorted ps)
    ∙ any-sort_pointers (belongs r) ps
