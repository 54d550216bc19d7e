-- ===== src/Capture/Names/Unique.antt =====
-- Names are safe, and tell apart what they name.
use mathlib.Core.List.{append_assoc}
use krepe.Prelude.{
  ℕ, ◌^◌, ◌≤◌, ◌<◌, ◌≡◌, refl, sym, ◌∙◌, ◌≢◌, inl, inr, true, [], ◌∷◌, ◌++◌, Text, codes, arith,
  zero, suc, length, length-take, take, ltb, Bool-cases,
}
use krepe.Prelude.Decimal.{to_string, to_string-AllDigits, to_string-injective, AllDigits-Without}
use krepe.Prelude.Split.{Without, Without-append, split_left, split_right}
use krepe.Capture.Names.{
  is_kept, replace_bytes, bound_name, sanitize_name, dump_filename, group_name,
}

abbrev pub AllKept : Text → Type 0
AllKept [] = Unit
AllKept (c ∷ s) = (is_kept c ≡ true) × AllKept s

replace_bytes-AllKept : (s : Text) → AllKept (replace_bytes s)
unfolding replace_bytes
replace_bytes-AllKept [] = tt
replace_bytes-AllKept (c ∷ s) = (ground arith, replace_bytes-AllKept s)

take-AllKept : (n : ℕ) (s : Text) → AllKept s → AllKept (take n s)
take-AllKept zero s a = tt
take-AllKept (suc n) [] a = tt
take-AllKept (suc n) (c ∷ s) a = (a.0, take-AllKept n s a.1)

replace_bytes_self : (s : Text) → AllKept s → replace_bytes s ≡ s
unfolding replace_bytes
replace_bytes_self [] a = refl
replace_bytes_self (c ∷ s) a = ground (arith, replace_bytes_self s a.1)

bound_name_safe :
    (s : Text)
    → AllKept s
    → AllKept (bound_name s) × (bound_name s ≢ []) × (length (bound_name s) ≤ 80)
unfolding bound_name
bound_name_safe [] a = (ground arith, λ e. cc, omega arith)
bound_name_safe (c ∷ s) a = elim (Bool-cases (ltb 80 (length (c ∷ s)))) [
  | inl long ↦ rw long (take-AllKept 80 (c ∷ s) a, λ e. cc, omega (arith, length-take 80 (c ∷ s)))
  | inr short ↦ rw short (a, λ e. cc, ground arith)
]

bound_name_self : (s : Text) → s ≢ [] → length s ≤ 80 → bound_name s ≡ s
unfolding bound_name
bound_name_self [] ne h = absurd (ne refl)
bound_name_self (c ∷ s) ne h = ground arith

-- A sanitized name has only letters, digits, `_`, `-` and `.`, is not empty, and has at most 80
-- bytes; a name like that is left as it is.
sanitize_name_lem :
    (s : Text)
    → AllKept (sanitize_name s)
      × (sanitize_name s ≢ [])
      × (length (sanitize_name s) ≤ 80)
      × (AllKept s → s ≢ [] → length s ≤ 80 → sanitize_name s ≡ s)
unfolding sanitize_name
sanitize_name_lem s =
    let (kept, full, bound) = bound_name_safe (replace_bytes s) (replace_bytes-AllKept s) in
    (kept, full, bound, λ a ne h. rw (replace_bytes_self s a) (bound_name_self s ne h))

-- Two kernels with different ids below 2 ^ 64, whatever their labels, have files of different
-- names.
pub dump_filename-injective :
    (label label' : Text) (m n : ℕ)
    → m < 2 ^ 64
    → n < 2 ^ 64
    → dump_filename label m ≡ dump_filename label' n
    → m ≡ n
unfolding dump_filename
dump_filename-injective label label' m n hm hn e = to_string-injective m n hm hn numbers.0
  where
    plain : (n : ℕ) → Without b'_' (to_string n ++ codes ".h5")
    plain n =
        Without-append b'_' (to_string n) (codes ".h5")
          (AllDigits-Without b'_' (to_string n) refl (to_string-AllDigits n)) (omega arith)

    ends : to_string m ++ codes ".h5" ≡ to_string n ++ codes ".h5"
    ends =
        (split_right b'_' (codes "krepe_" ++ sanitize_name label)
          (codes "krepe_" ++ sanitize_name label') _ _ (plain m) (plain n)
          (append_assoc (codes "krepe_") (sanitize_name label) _
            ∙ e
            ∙ sym (append_assoc (codes "krepe_") (sanitize_name label') _))).1

    numbers : (to_string m ≡ to_string n) × (codes "h5" ≡ codes "h5")
    numbers =
        split_left b'.' (to_string m) (to_string n) (codes "h5") (codes "h5")
          (AllDigits-Without b'.' (to_string m) refl (to_string-AllDigits m))
          (AllDigits-Without b'.' (to_string n) refl (to_string-AllDigits n)) ends

-- Two allocations of a snapshot with different indices below 2 ^ 64, whatever their labels, have
-- groups of different names.
pub group_name-injective :
    (label label' : Text) (m n : ℕ)
    → m < 2 ^ 64
    → n < 2 ^ 64
    → group_name m label ≡ group_name n label'
    → m ≡ n
unfolding group_name
group_name-injective label label' m n hm hn e =
    to_string-injective m n hm hn
      (split_left b'_' (to_string m) (to_string n) (sanitize_name label) (sanitize_name label')
        (AllDigits-Without b'_' (to_string m) refl (to_string-AllDigits m))
        (AllDigits-Without b'_' (to_string n) refl (to_string-AllDigits n)) (ground arith)).0
