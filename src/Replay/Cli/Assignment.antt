-- ===== src/Replay/Cli/Assignment.antt =====
-- An option in the form `--flag=value`.
use krepe.Prelude.{
  ℕ, suc, ◌≡◌, refl, ap, ◌∙◌, true, false, some, List, [], ◌∷◌, ◌++◌, Text, arith, length,
  get_elem?, text_eq, length-append, ◌≢◌, has_prefix, lt→ltb,
}
use krepe.Replay.Cli.{Arguments, is_assignment, after_equal, find_cli_option, visible}
use krepe.Replay.Cli.Find.{first_option, find_cli_option-first_option}

has_prefix_lem : (s t : Text) → has_prefix s (s ++ t) ≡ true
unfolding has_prefix
has_prefix_lem [] t = refl
has_prefix_lem (c ∷ s) t = ground (arith, has_prefix_lem s t)

get_elem?-append : (s : Text) (c : ℕ) (t : Text) → get_elem? (s ++ c ∷ t) (length s) ≡ some c
get_elem?-append [] c t = refl
get_elem?-append (d ∷ s) c t = get_elem?-append s c t

is_assignment_lem : (flag value : Text) → is_assignment flag (flag ++ b'=' ∷ value) ≡ true
unfolding is_assignment
is_assignment_lem flag value =
    rw
      (lt→ltb (length flag) (length (flag ++ b'=' ∷ value))
        (omega (arith, length-append flag (b'=' ∷ value))))
      (rw (has_prefix_lem flag (b'=' ∷ value)) (rw (get_elem?-append flag b'=' value)))

-- No byte of the text is `=`.
abbrev pub IsPlain : Text → Type 0
IsPlain [] = Unit
IsPlain (c ∷ s) = (c ≢ b'=') × IsPlain s

after_equal-append : (s value : Text) → IsPlain s → after_equal (s ++ b'=' ∷ value) ≡ value
unfolding after_equal
after_equal-append [] value p = refl
after_equal-append (c ∷ s) value p = ground (arith, after_equal-append s value p.1)

-- None of the arguments is the flag, or begins with the flag and `=`.
abbrev pub Lacks : Text → List Text → Type 0
Lacks flag [] = Unit
Lacks flag (a ∷ args) = (is_assignment flag a ≡ false) × (text_eq a flag ≡ false) × Lacks flag args

first_option-assignment :
    (flag value : Text) (before behind : List Text)
    → IsPlain flag
    → Lacks flag before
    → first_option flag (before ++ (flag ++ b'=' ∷ value) ∷ behind) ≡ (some value, before ++ behind)
unfolding first_option
first_option-assignment flag value [] behind p l =
    rw (is_assignment_lem flag value, first_option) (rw (after_equal-append flag value p))
first_option-assignment flag value (a ∷ before) behind p (x, y, l) =
    rw (x, first_option)
      (rw (y, first_option) (rw (first_option-assignment flag value before behind p l)))

-- `--flag=value`, wherever it stands, hands over the value and is the one argument taken away, if
-- the flag has no `=` in it and no earlier argument is meant for the flag.
pub find_cli_option-assignment :
    (flag value program : Text) (before behind post : List Text)
    → IsPlain flag
    → Lacks flag before
    → let args = before ++ (flag ++ b'=' ∷ value) ∷ behind in
      let a : Arguments = record { argc = suc (length args); argv = program ∷ (args ++ post) } in
      ((find_cli_option a flag).argument ≡ some value)
      × (visible (find_cli_option a flag).left ≡ program ∷ (before ++ behind))
find_cli_option-assignment flag value program before behind post p l =
    let args = before ++ (flag ++ b'=' ∷ value) ∷ behind in
    let (found, left) = find_cli_option-first_option flag program args post in
    let spec = first_option-assignment flag value before behind p l in
    (found ∙ ap (λ s. s.0) spec, left ∙ ap (λ s. program ∷ s.1) spec)
