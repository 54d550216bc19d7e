-- ===== src/Extract/Forward.antt =====
-- The calls of the tool from the captured program: `init_internal_functions` and the functions that
-- forward to it (src/krepe/extract/kernel_extractor.cpp).
use krepe.Prelude.{
  Bool, true, false, ◌&&◌, Option, none, some, List, [], ◌∷◌, Text, codes, length, if◌then◌else◌,
}
use krepe.Capture.Names.{until_null}
use krepe.Capture.DataSize.{Host}
use krepe.Capture.Hooks.{Tool}
use krepe.Capture.Hooks.Entries.{
  Entry, enter, adds_metadata, krepe_kernel_dump_next_invocation_will_dump,
}

-- What the dynamic linker finds, with the macro `KOKKOS_ENABLE_LIBDL`.
pub record Linker : Type 0 where
  pub has_libdl : Bool
  pub finds : Text → Bool

-- `has_kernel_dump_tool`; the pointers to functions are those of the tool where it is `some true`, and
-- to functions that do nothing where it is `some false`.
abbrev pub ToolState : Type 0
ToolState = Option Bool

abbrev pub tool_functions : List Text
tool_functions =
    codes "krepe_kernel_dump_add_metadata"
    ∷ codes "krepe_kernel_dump_copy_functor"
    ∷ codes "krepe_kernel_dump_copy_nvcc_lambda"
    ∷ codes "krepe_kernel_dump_register_scalar_policy"
    ∷ codes "krepe_kernel_dump_register_range_policy"
    ∷ codes "krepe_kernel_dump_register_mdrange_policy"
    ∷ codes "krepe_kernel_dump_register_team_policy"
    ∷ codes "krepe_kernel_dump_next_invocation_will_dump"
    ∷ codes "krepe_kernel_dump_clear_registered_views"
    ∷ codes "krepe_kernel_dump_register_view"
    ∷ []

abbrev pub loads_all : (Text → Bool) → List Text → Bool
loads_all finds [] = true
loads_all finds (name ∷ names) = finds name && loads_all finds names

unfoldable pub init_internal_functions_from_tool : Linker → Bool
init_internal_functions_from_tool k = k.has_libdl && loads_all k.finds tool_functions

-- The search is done once.
unfoldable pub init_internal_functions : Linker → ToolState → Bool
unfolding init_internal_functions_from_tool
init_internal_functions k none = init_internal_functions_from_tool k
init_internal_functions k (some known) = known

-- The captured program, with the tool that is loaded into it.
pub record Program : Type 0 where
  pub has_kernel_dump_tool : ToolState
  pub tool : Tool

module _ (k : Linker) (h : Host) where
  -- A function that forwards its arguments: `copy_functor`, `register_*`, `clear_registered_views`
  -- and `register_view`.
  unfoldable pub forward : Entry → Program → Program
  unfolding init_internal_functions
  forward e p =
      let loaded = init_internal_functions k p.has_kernel_dump_tool in
      record {
        has_kernel_dump_tool = some loaded;
        tool = if loaded then enter h e p.tool else p.tool;
      }

  unfoldable pub next_invocation_will_dump : Text → Program → Bool × Program
  unfolding init_internal_functions
  next_invocation_will_dump kernel_name p =
      let loaded = init_internal_functions k p.has_kernel_dump_tool in
      let (answer, t) = krepe_kernel_dump_next_invocation_will_dump kernel_name p.tool in
      if loaded
      then (answer, record { has_kernel_dump_tool = some true; tool = t })
      else (false, record p { has_kernel_dump_tool = some false })

  -- The strings are passed as C strings, the value with its length.
  unfoldable pub add_metadata : Text → Text → Program → Program
  unfolding forward
  add_metadata key value p = forward (adds_metadata (until_null key) value (length value)) p
