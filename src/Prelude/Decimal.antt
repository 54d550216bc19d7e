-- ===== src/Prelude/Decimal.antt =====
-- `std::to_string` of an unsigned number, and `std::from_chars` into a `std::uint64_t`.
use Prim.Native.Nat.{ℕ, zero, suc, ◌+◌, ◌-◌, ◌*◌, ◌/◌, ◌%◌, ◌^◌, ◌≤◌, ◌<◌}
use mathlib.Core.Path.{◌≡◌, refl, ◌∙◌}
use mathlib.Core.Bool.{Bool, false, ◌&&◌}
use mathlib.Core.Option.{Option, none, some}
use mathlib.Core.Logic.{inl, inr, ◌≢◌}
use mathlib.Core.List.{[], ◌∷◌, ◌++◌}
use native.Mathlib.Nat.{pow-suc}
use native.Mathlib.Omega.{arith}
use krepe.Prelude.Tests.{ltb, leb, if◌then◌else◌, Bool-cases}
use krepe.Prelude.Texts.{Text}
use krepe.Prelude.Split.{Without}

-- The decimal digits of a number, on fuel: a number below 10 ^ fuel needs no more.
digits : ℕ → ℕ → Text
digits zero n = []
digits (suc fuel) n =
    let rest = digits fuel (n / 10) in
    if ltb n 10 then (b'0' + n) ∷ [] else rest ++ (b'0' + n % 10) ∷ []

-- A 64-bit number has at most 20 digits.
unfoldable pub to_string : ℕ → Text
unfolding digits
to_string n = digits 20 n

abbrev pub is_digit : ℕ → Bool
is_digit c = leb b'0' c && leb c b'9'

-- The longest run of digits at the front, as a number, with the text behind it. `none` is an
-- overflow; the caller finds out whether there was a digit.
scan : ℕ → Text → Option (ℕ × Text)
scan acc [] = some (acc, [])
scan acc (c ∷ s) =
    let more = scan (acc * 10 + (c - b'0')) s in
    if is_digit c
    then if ltb (acc * 10 + (c - b'0')) (2 ^ 64) then more else none
    else some (acc, c ∷ s)

-- `std::from_chars(begin, end, parsed)`: the number and the text behind it, or an error.
unfoldable pub from_chars : Text → Option (ℕ × Text)
unfolding scan
from_chars [] = none
from_chars (c ∷ s) = if is_digit c then scan 0 (c ∷ s) else none

-- The value of a run of digits.
abbrev pub value : ℕ → Text → ℕ
value acc [] = acc
value acc (c ∷ s) = value (acc * 10 + (c - b'0')) s

abbrev pub AllDigits : Text → Type 0
AllDigits [] = Unit
AllDigits (c ∷ s) = ((b'0' ≤ c) × (c ≤ b'9')) × AllDigits s

value-append :
    (acc : ℕ) (s : Text) (c : ℕ) → value acc (s ++ c ∷ []) ≡ value acc s * 10 + (c - b'0')
value-append acc [] c = refl
value-append acc (d ∷ s) c = value-append (acc * 10 + (d - b'0')) s c

le-value : (acc : ℕ) (s : Text) → acc ≤ value acc s
le-value acc [] = omega arith
le-value acc (c ∷ s) = omega (arith, le-value (acc * 10 + (c - b'0')) s)

AllDigits-append : (s : Text) (c : ℕ) → AllDigits s → b'0' ≤ c → c ≤ b'9' → AllDigits (s ++ c ∷ [])
AllDigits-append [] c a l h = ((l, h), tt)
AllDigits-append (d ∷ s) c a l h = (a.0, AllDigits-append s c a.1 l h)

digits-AllDigits : (fuel n : ℕ) → AllDigits (digits fuel n)
unfolding digits
digits-AllDigits zero n = tt
digits-AllDigits (suc fuel) n = elim (Bool-cases (ltb n 10)) [
  | inl small ↦ rw small ((omega arith, ground arith), tt)
  | inr large ↦ rw large (
      AllDigits-append (digits fuel (n / 10)) (b'0' + n % 10) (digits-AllDigits fuel (n / 10))
        (omega arith) (omega arith))
]

pub to_string-AllDigits : (n : ℕ) → AllDigits (to_string n)
unfolding to_string
to_string-AllDigits n = digits-AllDigits 20 n

value-digits : (fuel n : ℕ) → n < 10 ^ fuel → value 0 (digits fuel n) ≡ n
unfolding digits
value-digits zero n h = omega arith
value-digits (suc fuel) n h = elim (Bool-cases (ltb n 10)) [
  | inl small ↦ rw small (omega arith)
  | inr large ↦ rw large (
      value-append 0 (digits fuel (n / 10)) (b'0' + n % 10)
      ∙ omega (arith, value-digits fuel (n / 10) (omega (arith, pow-suc 10 fuel))))
]

scan-digits :
    (acc : ℕ) (s : Text) → AllDigits s → value acc s < 2 ^ 64 → scan acc s ≡ some (value acc s, [])
unfolding scan
scan-digits acc [] a h = refl
scan-digits acc (c ∷ s) a h =
    ground (arith, scan-digits (acc * 10 + (c - b'0')) s, le-value (acc * 10 + (c - b'0')) s)

-- The printed number is read back.
scan-to_string : (n : ℕ) → n < 2 ^ 64 → scan 0 (to_string n) ≡ some (n, [])
unfolding to_string
scan-to_string n h =
    let e = value-digits 20 n (omega arith) in
    scan-digits 0 (digits 20 n) (digits-AllDigits 20 n) (rw e h) ∙ rw e

digits-cons : (fuel n : ℕ) → (c : ℕ) × (s : Text) × (digits (suc fuel) n ≡ c ∷ s)
unfolding digits
digits-cons zero n = elim (Bool-cases (ltb n 10)) [
  | inl small ↦ (b'0' + n, [], rw (small, digits))
  | inr large ↦ (b'0' + n % 10, [], rw (large, digits))
]
digits-cons (suc fuel) n = elim (Bool-cases (ltb n 10)) [
  | inl small ↦ (b'0' + n, [], rw (small, digits))
  | inr large ↦
      let (c, s, e) = digits-cons fuel (n / 10) in (c, s ++ (b'0' + n % 10) ∷ [], rw (large, e))
]

from_chars-scan : (s : Text) → AllDigits s → s ≢ [] → from_chars s ≡ scan 0 s
unfolding from_chars
from_chars-scan [] a h = absurd (h refl)
from_chars-scan (c ∷ s) a h = ground arith

pub from_chars-to_string : (n : ℕ) → n < 2 ^ 64 → from_chars (to_string n) ≡ some (n, [])
unfolding to_string
from_chars-to_string n h =
    let (c, s, e) = digits-cons 19 n in
    from_chars-scan (digits 20 n) (digits-AllDigits 20 n) (λ empty. cc (e, empty))
    ∙ scan-to_string n h

-- Different numbers print differently.
pub to_string-injective : (m n : ℕ) → m < 2 ^ 64 → n < 2 ^ 64 → to_string m ≡ to_string n → m ≡ n
to_string-injective m n hm hn e =
    ground (arith, from_chars-to_string m hm, from_chars-to_string n hn)

-- A text that is read to its end consists of digits, and stands for the number.
scan_sound :
    (acc : ℕ) (s : Text) (n : ℕ)
    → acc < 2 ^ 64
    → scan acc s ≡ some (n, [])
    → AllDigits s × (n ≡ value acc s) × (n < 2 ^ 64)
unfolding scan
scan_sound acc [] n h e = (tt, ground arith, ground arith)
scan_sound acc (c ∷ s) n h e = ground (arith, scan_sound (acc * 10 + (c - b'0')) s n)

pub from_chars_sound :
    (s : Text) (n : ℕ) → from_chars s ≡ some (n, []) → AllDigits s × (n ≡ value 0 s) × (n < 2 ^ 64)
unfolding from_chars
from_chars_sound [] n e = absurd (ground arith)
from_chars_sound (c ∷ s) n e = scan_sound 0 (c ∷ s) n (omega arith) (ground arith)

-- No digit is another byte.
pub AllDigits-Without : (c : ℕ) (s : Text) → is_digit c ≡ false → AllDigits s → Without c s
AllDigits-Without c [] h a = tt
AllDigits-Without c (d ∷ s) h a = (λ e. ground arith, AllDigits-Without c s h a.1)
