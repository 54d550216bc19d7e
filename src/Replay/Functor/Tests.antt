-- ===== src/Replay/Functor/Tests.antt =====
-- An extended lambda with one captured number, and the theorems at it.
use krepe.Prelude.{
  ℕ, ◌%◌, ◌^◌, ◌<◌, ◌≡◌, refl, inl, inr, some, [], ◌∷◌, arith, length, ok, err, ◌==◌, if◌then◌else◌,
  get_elem?,
}
use krepe.Common.Bytes.{Cells, load, store}
use krepe.Common.Lambdas.{
  LambdaType, wrapper, no_more, plain, nested, Pointers, visit_hdl_host_lambdas,
}
use krepe.Extract.Closures.{copy_host_closures}
use krepe.Replay.Error.{closures_of_other_size}
use krepe.Replay.Functor.{extended, replay_functor, init_extended_lambda_host_closure}
use krepe.Replay.Functor.Restore.{PointersInside, replay_functor_restores}
use krepe.Replay.Functor.Closures.{placed, replay_functor-copy_host_closures}

-- Small addresses, in the first of eight bytes.
abbrev pointers : Pointers
pointers = record {
  pointer_bytes = λ n. n ∷ 0 ∷ 0 ∷ 0 ∷ 0 ∷ 0 ∷ 0 ∷ 0 ∷ [];
  read_pointer = λ m a. m a;
}

abbrev number_lambda : LambdaType
number_lambda = wrapper 16 8 0 8 (plain 8 8 no_more)

-- A lambda that captures a lambda.
abbrev outer_lambda : LambdaType
outer_lambda = wrapper 24 8 0 16 (nested number_lambda no_more)

-- The wrapper is at 100, its buffer at 200.
abbrev cells : Cells
cells a = if a == 100 then 200 else a % 7

abbrev captured : Cells
captured a = if a == 40 then 60 else a % 5

parent_first :
    get_elem? (visit_hdl_host_lambdas pointers outer_lambda 100 cells) 0
    ≡ some (record { pointer_slot = 100; buffer = 200; size = 16 })
unfolding visit_hdl_host_lambdas
parent_first = refl

other_size : init_extended_lambda_host_closure (1 ∷ 2 ∷ []) 3 0 3 ≡ err (closures_of_other_size 3 2)
unfolding init_extended_lambda_host_closure
other_size = refl

cells-PointersInside : PointersInside pointers (extended number_lambda) 100 cells
unfolding visit_hdl_host_lambdas
cells-PointersInside b a (inl here) h = ground (arith, here)
cells-PointersInside b a (inr there) h = elim there [ ]

-- The functor that is returned holds its first byte.
abbrev first_byte : Cells → ℕ
first_byte m = m 100

replay_functor_restores_example :
    (replay_functor pointers first_byte
        (1 ∷ 2 ∷ 3 ∷ [])
        (load 40 16 captured)
        (extended number_lambda)
        100
        cells).1
      100
    ≡ 200
replay_functor_restores_example =
    replay_functor_restores pointers first_byte (1 ∷ 2 ∷ 3 ∷ []) (load 40 16 captured)
      (extended number_lambda) 100 cells cells-PointersInside 100

small :
    length (copy_host_closures (visit_hdl_host_lambdas pointers number_lambda 40 captured) captured)
    < 2 ^ 64
unfolding visit_hdl_host_lambdas
small = omega arith

replay_functor-copy_host_closures_example :
    let cs = visit_hdl_host_lambdas pointers number_lambda 40 captured in
    let functor_data = load 40 16 captured in
    (replay_functor pointers first_byte
      (copy_host_closures cs captured)
      functor_data
      (extended number_lambda)
      100
      cells).0
    ≡ ok (
        first_byte (
          placed pointers
            (visit_hdl_host_lambdas pointers number_lambda 100 cells)
            cs
            captured
            (store 100 functor_data cells)))
replay_functor-copy_host_closures_example =
    replay_functor-copy_host_closures pointers first_byte number_lambda 40 100 captured cells small
