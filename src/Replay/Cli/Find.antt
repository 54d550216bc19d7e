-- ===== src/Replay/Cli/Find.antt =====
-- `find_cli_option` and `find_cli_flag` against their specification on the list of arguments.
use krepe.Prelude.{
  ℕ, zero, suc, ◌+◌, ◌≡◌, refl, sym, ◌∙◌, inl, inr, Bool, true, false, Option, none, some, List, [],
  ◌∷◌, ◌++◌, Text, arith, length, get_elem?, text_eq, length-append, take-append, Bool-cases, ◌==◌,
}
use mathlib.Core.List.{append_assoc}
use krepe.Replay.Cli.{
  Arguments, remove_cli_args, is_assignment, after_equal, option_loop, find_cli_option, option_at,
  flag_loop, find_cli_flag, visible,
}
use krepe.Replay.Cli.Remove.{get_elem?-length-append, visible-remove}

-- The value of a flag is the argument behind it; a flag at the end is left where it is.
first_option_at : Text → List Text → Option Text × List Text
first_option_at a [] = (none, a ∷ [])
first_option_at a (value ∷ others) = (some value, others)

-- Where an option is met for the first time, and what it is given.
unfoldable pub first_option : Text → List Text → Option Text × List Text
unfolding first_option_at
first_option flag [] = (none, [])
first_option flag (a ∷ rest) =
    let later = first_option flag rest in
    elim (is_assignment flag a) [
      | true ↦ (some (after_equal a), rest)
      | false ↦ elim (text_eq a flag) [
        | true ↦ first_option_at a rest
        | false ↦ (later.0, a ∷ later.1)
      ]
    ]

pub first_flag : Text → List Text → Bool × List Text
first_flag flag [] = (false, [])
first_flag flag (a ∷ rest) =
    let later = first_flag flag rest in
    elim (text_eq a flag) [ true ↦ (true, rest) | false ↦ (later.0, a ∷ later.1) ]

-- The arguments are `seen`, which the loop has passed, and `rest`, which is left to it.
abbrev Splits : Arguments → List Text → List Text → List Text → Type 0
Splits a seen rest post = (a.argv ≡ seen ++ (rest ++ post)) × (a.argc ≡ length seen + length rest)

visible-Splits :
    (a : Arguments) (seen rest post : List Text)
    → Splits a seen rest post
    → visible a ≡ seen ++ rest
visible-Splits a seen rest post (e, c) =
    rw (e, ← append_assoc seen rest post)
      (take-append a.argc (seen ++ rest) post (omega (arith, c, length-append seen rest)))

Splits-next :
    (a : Arguments) (seen rest post : List Text) (x : Text)
    → Splits a seen (x ∷ rest) post
    → Splits a (seen ++ x ∷ []) rest post
Splits-next a seen rest post x (e, c) = (
  e ∙ sym (append_assoc seen (x ∷ []) (rest ++ post)),
  omega (arith, c, length-append seen (x ∷ [])),
)

flag_loop-first_flag :
    (k i : ℕ) (a : Arguments) (flag : Text) (seen rest post : List Text)
    → k ≡ length rest
    → i ≡ length seen
    → Splits a seen rest post
    → ((flag_loop k i a flag).0 ≡ (first_flag flag rest).0)
      × (visible (flag_loop k i a flag).1 ≡ seen ++ (first_flag flag rest).1)
unfolding flag_loop first_flag
flag_loop-first_flag zero i a flag seen [] post ek ei s = (refl, visible-Splits a seen [] post s)
flag_loop-first_flag zero i a flag seen (x ∷ rest) post ek ei s = absurd (omega arith)
flag_loop-first_flag (suc k) i a flag seen [] post ek ei s = absurd (omega arith)
flag_loop-first_flag (suc k) i a flag seen (x ∷ rest) post ek ei (e, c) =
    let later =
      flag_loop-first_flag k (i + 1) a flag (seen ++ x ∷ []) rest post (omega arith)
        (omega (arith, length-append seen (x ∷ []))) (Splits-next a seen rest post x (e, c)) in
    elim (Bool-cases (text_eq x flag)) [
      | inl hit ↦ rw (current, flag_loop) (rw (hit, flag_loop, first_flag) (refl, removed))
      | inr miss ↦
          rw (current, flag_loop)
            (rw (miss, flag_loop, first_flag)
              (later.0, later.1 ∙ append_assoc seen (x ∷ []) (first_flag flag rest).1))
    ]
  where
    current : get_elem? a.argv i ≡ some x
    current = rw e (get_elem?-length-append seen x (rest ++ post) i ei)

    removed : visible (remove_cli_args a i 1) ≡ seen ++ rest
    removed = rw ei (visible-remove a seen (x ∷ []) rest post e (omega arith) (omega arith))

option_at-first_option_at :
    (i : ℕ) (a : Arguments) (seen rest post : List Text) (x : Text)
    → i ≡ length seen
    → Splits a seen (x ∷ rest) post
    → ((option_at i a).argument ≡ (first_option_at x rest).0)
      × (visible (option_at i a).left ≡ seen ++ (first_option_at x rest).1)
unfolding option_at first_option_at
option_at-first_option_at i a seen [] post x ei (e, c) =
    let last : (i + 1 == a.argc) ≡ true = ground arith in
    rw (last, option_at) (refl, visible-Splits a seen (x ∷ []) post (e, c))
option_at-first_option_at i a seen (v ∷ rest) post x ei (e, c) =
    let more : (i + 1 == a.argc) ≡ false = ground arith in
    rw (more, option_at)
      (value, rw ei (visible-remove a seen (x ∷ v ∷ []) rest post e (omega arith) (omega arith)))
  where
    value : get_elem? a.argv (i + 1) ≡ some v
    value =
        rw (e, ← append_assoc seen (x ∷ []) (v ∷ (rest ++ post)))
          (get_elem?-length-append (seen ++ x ∷ []) v (rest ++ post) (i + 1)
            (omega (arith, length-append seen (x ∷ []))))

option_loop-first_option :
    (k i : ℕ) (a : Arguments) (flag : Text) (seen rest post : List Text)
    → k ≡ length rest
    → i ≡ length seen
    → Splits a seen rest post
    → ((option_loop k i a flag).argument ≡ (first_option flag rest).0)
      × (visible (option_loop k i a flag).left ≡ seen ++ (first_option flag rest).1)
unfolding option_loop first_option
option_loop-first_option zero i a flag seen [] post ek ei s =
    (refl, visible-Splits a seen [] post s)
option_loop-first_option zero i a flag seen (x ∷ rest) post ek ei s = absurd (omega arith)
option_loop-first_option (suc k) i a flag seen [] post ek ei s = absurd (omega arith)
option_loop-first_option (suc k) i a flag seen (x ∷ rest) post ek ei (e, c) =
    let later =
      option_loop-first_option k (i + 1) a flag (seen ++ x ∷ []) rest post (omega arith)
        (omega (arith, length-append seen (x ∷ []))) (Splits-next a seen rest post x (e, c)) in
    elim (Bool-cases (is_assignment flag x)) [
      | inl assigns ↦
          rw (current, option_loop) (rw (assigns, option_loop, first_option) (refl, removed))
      | inr plain ↦ elim (Bool-cases (text_eq x flag)) [
        | inl hit ↦
            rw (current, option_loop)
              (rw (plain, option_loop, first_option)
                (rw (hit, option_loop, first_option)
                  (option_at-first_option_at i a seen rest post x ei (e, c))))
        | inr miss ↦
            rw (current, option_loop)
              (rw (plain, option_loop, first_option)
                (rw (miss, option_loop, first_option)
                  (later.0, later.1 ∙ append_assoc seen (x ∷ []) (first_option flag rest).1)))
      ]
    ]
  where
    current : get_elem? a.argv i ≡ some x
    current = rw e (get_elem?-length-append seen x (rest ++ post) i ei)

    removed : visible (remove_cli_args a i 1) ≡ seen ++ rest
    removed = rw ei (visible-remove a seen (x ∷ []) rest post e (omega arith) (omega arith))

-- A search for a flag without a value finds it if it is one of the arguments behind the program's
-- name, and takes away its first occurrence and nothing else.
pub find_cli_flag-first_flag :
    (flag program : Text) (args post : List Text)
    → let a : Arguments = record { argc = suc (length args); argv = program ∷ (args ++ post) } in
      ((find_cli_flag a flag).0 ≡ (first_flag flag args).0)
      × (visible (find_cli_flag a flag).1 ≡ program ∷ (first_flag flag args).1)
unfolding find_cli_flag
find_cli_flag-first_flag flag program args post =
    flag_loop-first_flag _ 1 _ flag (program ∷ []) args post (omega arith) refl (refl, omega arith)

-- A search for a flag with a value finds the value that the first argument meant for the flag
-- gives, and takes away the one or two arguments that it consists of; a flag at the end has no
-- value and stays.
pub find_cli_option-first_option :
    (flag program : Text) (args post : List Text)
    → let a : Arguments = record { argc = suc (length args); argv = program ∷ (args ++ post) } in
      ((find_cli_option a flag).argument ≡ (first_option flag args).0)
      × (visible (find_cli_option a flag).left ≡ program ∷ (first_option flag args).1)
unfolding find_cli_option
find_cli_option-first_option flag program args post =
    option_loop-first_option _ 1 _ flag (program ∷ []) args post (omega arith) refl
      (refl, omega arith)
