-- ===== src/Extract/Launch/Alone.antt =====
-- A captured program that did not find the tool.
use krepe.Prelude.{false, Option, some, List, [], ◌∷◌}
use krepe.Capture.Hooks.{Tool}
use krepe.Kokkos.{Policy}
use krepe.Extract.Forward.{Linker, Program}
use krepe.Extract.Launch.{Call, adds, launches, clears, registers}

-- The launches that the program asks for.
abbrev pub policies : List (Linker × Call) → List (Option Policy)
policies [] = []
policies ((k, launches label policy functor) ∷ more) = some policy ∷ policies more
policies ((k, adds key value) ∷ more) = policies more
policies ((k, clears) ∷ more) = policies more
policies ((k, registers ptr label) ∷ more) = policies more

-- A program that did not find the tool.
abbrev no_tool : Tool → Program
no_tool t = record { has_kernel_dump_tool = some false; tool = t }
