-- ===== src/Replay/Functor.antt =====
-- `FunctorRestoreGuard` of src/krepe/replay/kernel_replayer.hpp, `init_extended_lambda_host_closure` of
-- src/krepe/replay/kernel_replayer.cpp, and how `replay_functor` uses them.
pub mod Restore
pub mod Closures
pub mod Tests
use krepe.Prelude.{
  ℕ, ◌+◌, ◌-◌, ◌%◌, ◌^◌, Bool, true, false, not, ◌||◌, Option, none, some, List, [], ◌∷◌, ◌++◌,
  Bytes, length, take, drop, ltb, Result, ok, err, ◌==◌, if◌then◌else◌,
}
use krepe.Common.Bytes.{Cells, load, store}
use krepe.Common.Lambdas.{LambdaType, HostBuffer, size_of, Pointers, visit_hdl_host_lambdas}
use krepe.Replay.Error.{Error, closures_of_other_size, closure_exceeds_data}
use krepe.Replay.Store.{init_functor}

-- The type of a functor: that of an extended lambda of nvcc, or another of some size.
pub data FunctorType : Type 0 where
  extended : LambdaType → FunctorType
  other : ℕ → FunctorType

abbrev pub functor_size : FunctorType → ℕ
functor_size (extended type) = size_of type
functor_size (other size) = size

pub record HostClosure : Type 0 where
  pub buffer_ptr : ℕ
  pub buffer : ℕ
  pub original : Bytes

pub record FunctorRestoreGuard : Type 0 where
  pub storage : ℕ
  pub original : Bytes
  pub host_closures : List HostClosure

-- The visitor `save`.
abbrev pub save_closures : List HostBuffer → Cells → List HostClosure
save_closures [] m = []
save_closures (b ∷ bs) m =
    record { buffer_ptr = b.pointer_slot; buffer = b.buffer; original = load b.buffer b.size m }
    ∷ save_closures bs m

abbrev pub host_buffers : Pointers → FunctorType → ℕ → Cells → List HostBuffer
host_buffers p (extended type) functor m = visit_hdl_host_lambdas p type functor m
host_buffers p (other size) functor m = []

unfoldable pub save : Pointers → FunctorType → ℕ → Cells → FunctorRestoreGuard
unfolding visit_hdl_host_lambdas
save p type functor m = record {
  storage = functor;
  original = load functor (functor_size type) m;
  host_closures = save_closures (host_buffers p type functor m) m;
}

-- The bytes that are copied into a closure.
unfoldable pub init_extended_lambda_host_closure : Bytes → ℕ → ℕ → ℕ → Result Error Bytes
init_extended_lambda_host_closure nvcc_inner_lambda_data size offset total_size =
    if not (total_size == length nvcc_inner_lambda_data)
    then err (closures_of_other_size total_size (length nvcc_inner_lambda_data))
    else if ltb total_size offset || ltb (total_size - offset) size
    then err closure_exceeds_data
    else ok (take size (drop offset nvcc_inner_lambda_data))

abbrev pub total_size : List HostClosure → ℕ
total_size [] = 0
total_size (c ∷ cs) = (length c.original + total_size cs) % 2 ^ 64

module _ (p : Pointers) (nvcc_inner_lambda_data : Bytes) where
  -- The second loop of `execute`: what it throws, if anything, and the memory.
  unfoldable pub patch_closures : ℕ → ℕ → List HostClosure → Cells → Option Error × Cells
  unfolding init_extended_lambda_host_closure
  patch_closures total offset [] m = (none, m)
  patch_closures total offset (c ∷ cs) m =
      let linked = store c.buffer_ptr (p.pointer_bytes c.buffer) m in
      let size = length c.original in
      elim (init_extended_lambda_host_closure nvcc_inner_lambda_data size offset total) [
        | err z ↦ (some z, linked)
        | ok bytes ↦
            patch_closures total ((offset + size) % 2 ^ 64) cs (store c.buffer bytes linked)
      ]

  unfoldable pub execute : Bytes → FunctorRestoreGuard → Cells → Option Error × Cells
  unfolding init_functor patch_closures
  execute functor_data g m = elim (init_functor functor_data (length g.original)) [
    | err z ↦ (some z, m)
    | ok bytes ↦
        patch_closures (total_size g.host_closures) 0 g.host_closures (store g.storage bytes m)
  ]

-- The loop of the destructor, from the last closure to the first.
unfoldable pub restore_closures : List HostClosure → Cells → Cells
restore_closures [] m = m
restore_closures (c ∷ cs) m = store c.buffer c.original (restore_closures cs m)

unfoldable pub restore_functor : FunctorRestoreGuard → Cells → Cells
unfolding restore_closures
restore_functor g m = store g.storage g.original (restore_closures g.host_closures m)

-- What the caller gets, and the memory when the temporary copy is destroyed; the copy is at `functor`
-- in the memory `m`, and `copy_construct` makes the returned functor from it.
unfoldable pub replay_functor :
    {V : Type 0}
    → Pointers
    → (Cells → V)
    → Bytes
    → Bytes
    → FunctorType
    → ℕ
    → Cells
    → Result Error V × Cells
unfolding save execute restore_functor
replay_functor p copy_construct nvcc_inner_lambda_data functor_data type functor m =
    let g = save p type functor m in
    let (failure, patched) = execute p nvcc_inner_lambda_data functor_data g m in
    (
      elim failure [ some z ↦ err z | none ↦ ok (copy_construct patched) ],
      restore_functor g patched,
    )
