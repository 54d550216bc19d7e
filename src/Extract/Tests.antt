-- ===== src/Extract/Tests.antt =====
-- A launch of a captured program, with and without the tool.
use krepe.Prelude.{
  ◌+◌, List, ◌≡◌, refl, true, false, none, some, [], ◌∷◌, codes, text_eq, if◌then◌else◌,
}
use krepe.Prelude.Int.{pos}
use krepe.Capture.Names.{until_null}
use krepe.Capture.DataSize.Tests.{linux_host}
use krepe.Capture.Hooks.{Tool, initial_tool, register_kernel}
use krepe.Capture.Hooks.Entries.{
  registers_scalar, enter, krepe_kernel_dump_next_invocation_will_dump,
}
use krepe.Kokkos.{no_extras, Scratch, number, mdrange, left, unresolved}
use krepe.Replay.Policy.{int32, serial, static}
use krepe.Extract.Bounds.{CapturedBuild, register_bounds}
use krepe.Common.Lambdas.{Pointers, wrapper, no_more, visit_hdl_host_lambdas}
use krepe.Extract.Forward.{Linker, Program, init_internal_functions}
use krepe.Extract.Launch.{Functor, plain, extended_lambda, Call, launches, parallel_for}
use krepe.Extract.Launch.Laws.{inner_bytes, parallel_for_with_tool}

abbrev no_scratch : Scratch
no_scratch = record {
  team_level_0 = pos 0;
  team_level_1 = pos 0;
  thread_level_0 = pos 0;
  thread_level_1 = pos 0;
}

abbrev built : CapturedBuild
built = record {
  name = λ space. [];
  since_5_3 = false;
  has_cuda = true;
  has_hip = false;
  unset_scratch = no_scratch;
}

abbrev loaded : Linker
loaded = record { has_libdl = true; finds = λ name. true }

-- The last function is missing.
abbrev incomplete : Linker
incomplete = record {
  has_libdl = true;
  finds = λ name. if text_eq name (codes "krepe_kernel_dump_register_view") then false else true;
}

finds_all : init_internal_functions loaded none ≡ true
unfolding init_internal_functions
finds_all = refl

-- A direction that Kokkos has not resolved throws.
refused :
    register_bounds built (
      mdrange (record {
        extras = no_extras;
        index_type = int32;
        exec_space = serial;
        schedule = static;
        rank = 2;
        outer_direction = left;
        inner_direction = unresolved;
        lower = [];
        upper = [];
        tile = [];
      }))
    ≡ none
unfolding register_bounds
refused = refl

scalar_call : register_bounds built (number 100) ≡ some (registers_scalar 100)
unfolding register_bounds
scalar_call = refl

abbrev selecting : Tool
selecting = record initial_tool { dump_kernel_label = codes "k" }

abbrev program : Program
program = record { has_kernel_dump_tool = none; tool = selecting }

-- The tool could be found from the second call on.
abbrev calls : List (Linker × Call)
calls = (loaded, launches (codes "k") (number 100) (plain (1 ∷ 2 ∷ []))) ∷ []

-- Pointers of one byte, which is enough for these addresses.
abbrev byte_pointers : Pointers
byte_pointers = record { pointer_bytes = λ n. n ∷ []; read_pointer = λ m a. m a }

-- The object is at 100, with the pointer to its host closure in its second byte.
abbrev lambda : Functor
lambda = extended_lambda byte_pointers (wrapper 2 1 1 3 no_more) 100 (λ a. a + 50)

closure_bytes : inner_bytes true lambda ≡ 201 ∷ 202 ∷ 203 ∷ []
unfolding visit_hdl_host_lambdas
closure_bytes = refl

parallel_for_with_tool_example :
    let (launched, q) =
      parallel_for true loaded linux_host built (codes "k") (number 100) lambda program in
    let (answer, t) =
      krepe_kernel_dump_next_invocation_will_dump (until_null (codes "k")) selecting in
    (launched ≡ some (number 100))
    × (q.tool ≡ (
        if answer
        then record t {
          policy = (enter linux_host (registers_scalar 100) t).policy;
          functor_data = 150 ∷ 151 ∷ [];
          nvcc_inner_lambda_data = inner_bytes true lambda;
        }
        else t))
    × ((register_kernel (until_null (codes "k")) 0 q.tool).dump_this_kernel ≡ answer)
parallel_for_with_tool_example =
    parallel_for_with_tool true loaded linux_host built (codes "k") (number 100) lambda program
      (registers_scalar 100) 0 finds_all scalar_call
