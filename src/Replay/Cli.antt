-- ===== src/Replay/Cli.antt =====
-- The command line of the replayed program: `remove_cli_args`, `find_cli_option` and
-- `find_cli_flag` of src/krepe/replay/kernel_replayer.cpp. The array `argv` is a list that holds
-- `argc` entries or more, none of them null.
pub mod Remove
pub mod Find
pub mod Assignment
pub mod Tests
use krepe.Prelude.{
  ℕ, zero, suc, ◌+◌, ◌-◌, Bool, true, false, ◌&&◌, Option, none, some, List, [], ◌∷◌, Text, text_eq,
  has_prefix, length, get_elem?, set, take, ltb, ◌==◌, if◌then◌else◌,
}

-- The program's two variables, which the functions change through a reference.
pub record Arguments : Type 0 where
  pub argc : ℕ
  pub argv : List Text

-- `std::swap(argv[i], argv[j])`
pub swap : ℕ → ℕ → List Text → List Text
swap i j argv = elim (get_elem? argv i) [
  | none ↦ argv
  | some a ↦ elim (get_elem? argv j) [ none ↦ argv | some b ↦ set (set argv i b) j a ]
]

-- The rounds of the loop that are left, and its variable `i`.
pub remove_loop : ℕ → ℕ → ℕ → List Text → List Text
remove_loop zero i n argv = argv
remove_loop (suc rounds) i n argv = remove_loop rounds (i + 1) n (swap i (i + n) argv)

pub remove_cli_args : Arguments → ℕ → ℕ → Arguments
unfolding remove_loop swap
remove_cli_args a pos n = record {
  argc = a.argc - n;
  argv = if ltb (pos + n) a.argc then remove_loop (a.argc - n - pos) pos n a.argv else a.argv;
}

-- `current_arg` is `flag=...`.
pub is_assignment : Text → Text → Bool
is_assignment flag current_arg =
    ltb (length flag) (length current_arg)
    && (has_prefix flag current_arg
        && elim (get_elem? current_arg (length flag)) [ none ↦ false | some c ↦ c == b'=' ])

-- `substr(find_first_of('=') + 1)`; a text with no `=` does not come here.
pub after_equal : Text → Text
after_equal [] = []
after_equal (c ∷ s) = let rest = after_equal s in if c == b'=' then s else rest

-- A `std::string_view` with a null `data()` is `none`.
pub record OptionSearch : Type 0 where
  pub argument : Option Text
  pub left : Arguments

-- `argv[i]` is the flag itself: its value, if there is one, is the next argument.
pub option_at : ℕ → Arguments → OptionSearch
option_at i a = elim (i + 1 == a.argc) [
  | true ↦ record { argument = none; left = a }
  | false ↦ record { argument = get_elem? a.argv (i + 1); left = remove_cli_args a i 2 }
]

-- The loop over `argv[i]`, with the rounds that are left.
pub option_loop : ℕ → ℕ → Arguments → Text → OptionSearch
option_loop zero i a flag = record { argument = none; left = a }
option_loop (suc rounds) i a flag = elim (get_elem? a.argv i) [
  | none ↦ record { argument = none; left = a }
  | some current_arg ↦ elim (is_assignment flag current_arg) [
    | true ↦ record { argument = some (after_equal current_arg); left = remove_cli_args a i 1 }
    | false ↦ elim (text_eq current_arg flag) [
      | true ↦ option_at i a
      | false ↦ option_loop rounds (i + 1) a flag
    ]
  ]
]

unfoldable pub find_cli_option : Arguments → Text → OptionSearch
unfolding option_loop option_at is_assignment after_equal remove_cli_args
find_cli_option a flag = option_loop (a.argc - 1) 1 a flag

pub flag_loop : ℕ → ℕ → Arguments → Text → Bool × Arguments
flag_loop zero i a flag = (false, a)
flag_loop (suc rounds) i a flag = elim (get_elem? a.argv i) [
  | none ↦ (false, a)
  | some current_arg ↦ elim (text_eq current_arg flag) [
    | true ↦ (true, remove_cli_args a i 1)
    | false ↦ flag_loop rounds (i + 1) a flag
  ]
]

unfoldable pub find_cli_flag : Arguments → Text → Bool × Arguments
unfolding flag_loop remove_cli_args
find_cli_flag a flag = flag_loop (a.argc - 1) 1 a flag

-- The arguments that the program still sees.
abbrev pub visible : Arguments → List Text
visible a = take a.argc a.argv
