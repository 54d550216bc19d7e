-- ===== src/Extract/Launch.antt =====
-- `replay_functor` and `parallel_for` of src/krepe/extract/kernel_extractor.hpp, and a captured program
-- as the sequence of its calls.
pub mod Alone
pub mod Laws
use krepe.Prelude.{
  ℕ, Bool, true, false, Option, none, some, List, [], ◌∷◌, ◌++◌, Bytes, Text, length,
}
use krepe.Common.Bytes.{Cells, load}
use krepe.Common.Lambdas.{LambdaType, Pointers, size_of}
use krepe.Capture.Names.{until_null}
use krepe.Capture.DataSize.{Host}
use krepe.Capture.Hooks.Entries.{copies_functor, clears_views, registers_view}
use krepe.Kokkos.{Policy}
use krepe.Extract.Bounds.{CapturedBuild, register_bounds}
use krepe.Extract.Forward.{Linker, Program, forward, next_invocation_will_dump, add_metadata}
use krepe.Extract.Closures.{copy_nvcc_functor}

-- A functor object: its bytes, or, of an extended lambda of nvcc (`is_hdl`), its type, its address
-- and the memory in which it and its closures lie.
pub data Functor : Type 0 where
  plain : Bytes → Functor
  extended_lambda : Pointers → LambdaType → ℕ → Cells → Functor

-- The macro `KERNEL_REPLAYER_USE_NVCC_HDL_WORKAROUND` first.
module _ (workaround : Bool) (k : Linker) (h : Host) where
  unfoldable pub replay_functor : Functor → Program → Program
  unfolding forward copy_nvcc_functor
  replay_functor (plain bytes) p = forward k h (copies_functor bytes (length bytes)) p
  replay_functor (extended_lambda pointers type functor m) p = elim workaround [
    | true ↦ copy_nvcc_functor k h pointers type functor m p
    | false ↦ forward k h (copies_functor (load functor (size_of type) m) (size_of type)) p
  ]

  -- What is launched, `none` where the registering throws, and the program before the launch; behind
  -- the answer of the tool.
  unfoldable pub launch :
      CapturedBuild → Policy → Functor → Bool → Program → Option Policy × Program
  unfolding forward replay_functor
  launch built policy functor false p = (some policy, p)
  launch built policy functor true p = elim (register_bounds built policy) [
    | none ↦ (none, p)
    | some e ↦ (some policy, replay_functor functor (forward k h e p))
  ]

  unfoldable pub parallel_for :
      CapturedBuild → Text → Policy → Functor → Program → Option Policy × Program
  unfolding next_invocation_will_dump launch
  parallel_for built label policy functor p =
      let (dumps, p') = next_invocation_will_dump k h (until_null label) p in
      launch built policy functor dumps p'

-- The calls that the captured program makes, those of the compiler plugins included.
pub data Call : Type 0 where
  adds : Text → Text → Call
  launches : Text → Policy → Functor → Call
  clears : Call
  registers : ℕ → Text → Call

module _ (workaround : Bool) (h : Host) (built : CapturedBuild) where
  -- What a call launches, and the program after it.
  unfoldable pub step : Linker → Call → Program → List (Option Policy) × Program
  unfolding add_metadata forward parallel_for
  step k (adds key value) p = ([], add_metadata k h key value p)
  step k (launches label policy functor) p =
      let (launched, p') = parallel_for workaround k h built label policy functor p in
      (launched ∷ [], p')
  step k clears p = ([], forward k h clears_views p)
  step k (registers ptr label) p = ([], forward k h (registers_view ptr label) p)

  -- What the dynamic linker finds may change from call to call.
  unfoldable pub run : List (Linker × Call) → Program → List (Option Policy) × Program
  unfolding step
  run [] p = ([], p)
  run ((k, c) ∷ more) p =
      let (launched, p') = step k c p in let (later, p'') = run more p' in (launched ++ later, p'')
