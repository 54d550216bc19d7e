-- ===== src/Replay/Cli/Tests.antt =====
-- Command lines, and the theorems at them.
use krepe.Prelude.{◌≡◌, refl, some, List, [], ◌∷◌, Text, codes, arith, text_eq, has_prefix}
use krepe.Replay.Cli.{Arguments, remove_cli_args, find_cli_option, find_cli_flag, visible}
use krepe.Replay.Cli.Remove.{visible-remove}
use krepe.Replay.Cli.Find.{first_option, find_cli_option-first_option}
use krepe.Replay.Cli.Assignment.{Lacks, find_cli_option-assignment}

abbrev words : List Text
words = codes "-a" ∷ codes "--dump=f.h5" ∷ codes "-b" ∷ []

abbrev command_line : Arguments
command_line = record { argc = 4; argv = codes "prog" ∷ words }

flagged :
    visible (find_cli_flag command_line (codes "-a")).1
    ≡ codes "prog" ∷ codes "--dump=f.h5" ∷ codes "-b" ∷ []
unfolding find_cli_flag text_eq
flagged = refl

valued : (find_cli_option command_line (codes "--dump")).argument ≡ some (codes "f.h5")
unfolding find_cli_option text_eq has_prefix
valued = refl

lacks : Lacks (codes "--dump") (codes "-a" ∷ [])
unfolding find_cli_option text_eq has_prefix
lacks = (refl, refl, tt)

visible-remove_example : visible (remove_cli_args command_line 1 2) ≡ codes "prog" ∷ codes "-b" ∷ []
visible-remove_example =
    visible-remove command_line (codes "prog" ∷ []) (codes "-a" ∷ codes "--dump=f.h5" ∷ [])
      (codes "-b" ∷ []) [] refl refl (omega arith)

find_cli_option-first_option_example :
    ((find_cli_option command_line (codes "-a")).argument ≡ (first_option (codes "-a") words).0)
    × (visible (find_cli_option command_line (codes "-a")).left
        ≡ codes "prog" ∷ (first_option (codes "-a") words).1)
find_cli_option-first_option_example =
    find_cli_option-first_option (codes "-a") (codes "prog") words []

find_cli_option-assignment_example :
    ((find_cli_option command_line (codes "--dump")).argument ≡ some (codes "f.h5"))
    × (visible (find_cli_option command_line (codes "--dump")).left
        ≡ codes "prog" ∷ codes "-a" ∷ codes "-b" ∷ [])
find_cli_option-assignment_example =
    find_cli_option-assignment (codes "--dump") (codes "f.h5") (codes "prog") (codes "-a" ∷ [])
      (codes "-b" ∷ []) [] (ground arith) lacks
