-- ===== src/Prelude/Dict.antt =====
-- `std::unordered_map`s as lists of entries. The order of the list stands for the order, which the
-- program does not rely on, in which an iteration meets the entries.
use krepe.Prelude.Tests.{◌==◌ as nat_same, ==_iff, if◌then◌else◌}
use krepe.Prelude.Texts.{Text, text_eq, text_eq_iff}
use Prim.Native.Nat.{ℕ}
use mathlib.Core.Path.{◌≡◌, refl}
use mathlib.Core.Logic.{◌↔◌, ◌⊎◌}
use mathlib.Core.Bool.{Bool, true}
use mathlib.Core.Option.{Option, none, some}
use mathlib.Core.List.{List, [], ◌∷◌, ◌++◌}
use native.Mathlib.Omega.{arith}

-- What a type of keys needs: a test that decides equality.
pub record Key {ℓ} (K : Type ℓ) : Type ℓ where
  pub same : K → K → Bool
  pub same_iff : (j k : K) → (same j k ≡ true) ↔ (j ≡ k)

instance abbrev pub text_instance : Key Text
text_instance = record { same_iff = text_eq_iff; same = text_eq }

instance abbrev pub nat_eq : Key ℕ
nat_eq = record { same_iff = ==_iff; same = nat_same }

-- The element stands in the list.
abbrev pub Listed : {A : Type 0} → A → List A → Type 0
Listed x [] = ⊥
Listed x (y ∷ ys) = (x ≡ y) ⊎ Listed x ys

pub Listed-append :
    {A : Type 0} (x : A) (xs ys : List A) → Listed x (xs ++ ys) ↔ (Listed x xs ⊎ Listed x ys)
Listed-append x [] ys = ground arith
Listed-append x (y ∷ xs) ys = ground (arith, Listed-append x xs ys)

module _ {ℓ κ} {K : Type ℓ} {V : Type κ} ⦃e : Key K⦄ where
  unfoldable pub lookup : K → List (K × V) → Option V
  lookup k [] = none
  lookup k ((j, v) ∷ d) = if e.same j k then some v else lookup k d

  -- `insert_or_assign`
  unfoldable pub insert : K → V → List (K × V) → List (K × V)
  insert k v [] = (k, v) ∷ []
  insert k v ((j, w) ∷ d) = if e.same j k then (j, v) ∷ d else (j, w) ∷ insert k v d

  unfoldable pub erase : K → List (K × V) → List (K × V)
  erase k [] = []
  erase k ((j, w) ∷ d) = if e.same j k then d else (j, w) ∷ erase k d

  -- No key has two entries.
  abbrev pub NodupKeys : List (K × V) → Type κ
  NodupKeys [] = Unit
  NodupKeys ((k, _) ∷ d) = (lookup k d ≡ none) × NodupKeys d

  pub lookup-insert :
      (k j : K) (v : V) (d : List (K × V))
      → lookup j (insert k v d) ≡ (if e.same k j then some v else lookup j d)
  unfolding lookup insert
  lookup-insert k j v [] = refl
  lookup-insert k j v ((i, w) ∷ d) =
      ground (arith, e.same_iff k j, e.same_iff i k, e.same_iff i j, lookup-insert k j v d)

  pub lookup-erase :
      (k j : K) (d : List (K × V))
      → NodupKeys d
      → lookup j (erase k d) ≡ (if e.same k j then none else lookup j d)
  unfolding lookup erase
  lookup-erase k j [] u = ground arith
  lookup-erase k j ((i, w) ∷ d) u =
      ground (arith, e.same_iff k j, e.same_iff i k, e.same_iff i j, lookup-erase k j d u.1)

  pub insert-NodupKeys : (k : K) (v : V) (d : List (K × V)) → NodupKeys d → NodupKeys (insert k v d)
  unfolding lookup insert
  insert-NodupKeys k v [] u = (refl, tt)
  insert-NodupKeys k v ((i, w) ∷ d) u =
      ground
        (arith, e.same_iff i k, e.same_iff k i, lookup-insert k i v d, insert-NodupKeys k v d u.1)

  pub erase-NodupKeys : (k : K) (d : List (K × V)) → NodupKeys d → NodupKeys (erase k d)
  unfolding lookup erase
  erase-NodupKeys k [] u = tt
  erase-NodupKeys k ((i, w) ∷ d) u =
      ground
        (arith, e.same_iff i k, e.same_iff k i, lookup-erase k i d u.1, erase-NodupKeys k d u.1)

module _ {K V : Type 0} ⦃e : Key K⦄ where
  -- An entry stands in the list exactly if a lookup finds it.
  pub Listed-lookup :
      (k : K) (v : V) (d : List (K × V)) → NodupKeys d → Listed (k, v) d ↔ (lookup k d ≡ some v)
  unfolding lookup
  Listed-lookup k v [] u = ground arith
  Listed-lookup k v ((i, w) ∷ d) u =
      ground (arith, e.same_iff i k, e.same_iff k i, Listed-lookup k v d u.1)
