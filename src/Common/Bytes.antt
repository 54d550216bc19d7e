-- ===== src/Common/Bytes.antt =====
-- The memory of a process: the byte at each address, and copies to and from it.
use krepe.Prelude.{
  ℕ, zero, suc, ◌+◌, ◌-◌, ◌≤◌, ◌≡◌, refl, ap, inl, inr, Bool, false, ◌&&◌, none, some, [], ◌∷◌,
  Bytes, arith, length, get_elem?, leb, ltb, if◌then◌else◌, Bool-cases,
}

abbrev pub Cells : Type 0
Cells = ℕ → ℕ

abbrev pub in_range : ℕ → ℕ → ℕ → Bool
in_range start size a = leb start a && ltb a (start + size)

-- `memcpy` to an address.
abbrev pub store : ℕ → Bytes → Cells → Cells
store start bytes m a =
    if leb start a
    then (elim (get_elem? bytes (a - start)) as (λ _. ℕ) [ none ↦ m a | some b ↦ b ])
    else m a

-- `memcpy` from an address.
abbrev pub load : ℕ → ℕ → Cells → Bytes
load start zero m = []
load start (suc n) m = m start ∷ load (suc start) n m

pub length-load : (start n : ℕ) (m : Cells) → length (load start n m) ≡ n
length-load start zero m = refl
length-load start (suc n) m = omega (arith, length-load (suc start) n m)

pub get_elem?-load :
    (start n i : ℕ) (m : Cells)
    → get_elem? (load start n m) i ≡ (if ltb i n then some (m (start + i)) else none)
get_elem?-load start zero i m = ground arith
get_elem?-load start (suc n) zero m = ground arith
get_elem?-load start (suc n) (suc i) m = ground (arith, get_elem?-load (suc start) n i m)

get_elem?-none : (bytes : Bytes) (i : ℕ) → length bytes ≤ i → get_elem? bytes i ≡ none
get_elem?-none [] i h = refl
get_elem?-none (b ∷ bytes) zero h = absurd (omega arith)
get_elem?-none (b ∷ bytes) (suc i) h = get_elem?-none bytes i (omega arith)

-- A copy leaves the other bytes alone.
pub store_outside :
    (start : ℕ) (bytes : Bytes) (m : Cells) (a : ℕ)
    → in_range start (length bytes) a ≡ false
    → store start bytes m a ≡ m a
store_outside start bytes m a out = elim (Bool-cases (leb start a)) [
  | inl above ↦
      let beyond : length bytes ≤ a - start = ground arith in
      ground (arith, get_elem?-none bytes (a - start) beyond)
  | inr below ↦ ground arith
]

-- Bytes that were copied from a memory are put back.
pub store-load :
    (start n : ℕ) (old m : Cells) (a : ℕ)
    → store start (load start n old) m a ≡ (if in_range start n a then old a else m a)
store-load start n old m a = elim (Bool-cases (leb start a)) [
  | inl above ↦
      let at : start + (a - start) ≡ a = ground arith in
      ground (arith, get_elem?-load start n (a - start) old, ap old at)
  | inr below ↦ ground arith
]
