-- ===== src/Replay/Functor/Closures.antt =====
-- The bytes of an extended lambda that was captured are those that the guard puts into the functor.
use mathlib.Core.List.{append_assoc}
use krepe.Prelude.{
  ap, ℕ, ◌+◌, ◌%◌, ◌^◌, ◌<◌, ◌≡◌, refl, sym, ◌∙◌, Option, none, some, List, [], ◌∷◌, ◌++◌, Bytes,
  arith, length, length-append, take-append, drop-append, take_all, Result, ok, err,
}
use krepe.Common.Bytes.{Cells, load, store, length-load}
use krepe.Common.Lambdas.{
  LambdaType, HostBuffer, size_of, sizes, Pointers, visit_hdl_host_lambdas, visited_sizes,
}
use krepe.Extract.Closures.{copy_host_closures}
use krepe.Replay.Error.{Error}
use krepe.Replay.Store.{init_functor}
use krepe.Replay.Functor.{
  extended, save_closures, save, init_extended_lambda_host_closure, total_size, patch_closures,
  execute, replay_functor,
}

-- The pointers and the captured buffers, put into the replayed buffers one after the other.
abbrev pub placed : Pointers → List HostBuffer → List HostBuffer → Cells → Cells → Cells
placed p (b ∷ bs) (c ∷ cs) captured m = placed p bs cs captured (
    store b.buffer (load c.buffer c.size captured)
      (store b.pointer_slot (p.pointer_bytes b.buffer) m))
placed p _ _ captured m = m

-- In the middle of the captured bytes stands the closure that is due.
slice :
    (before now rest : Bytes) (total : ℕ)
    → total ≡ length (before ++ (now ++ rest))
    → init_extended_lambda_host_closure (before ++ (now ++ rest)) (length now) (length before) total
      ≡ ok now
unfolding init_extended_lambda_host_closure
slice before now rest total e = ground (
  arith,
  length-append before (now ++ rest),
  length-append now rest,
  drop-append (length before) before (now ++ rest) refl,
  take-append (length now) now rest refl,
)

init_whole :
    (content : Bytes) (size : ℕ) → size ≡ length content → init_functor content size ≡ ok content
unfolding init_functor
init_whole content size e = ground (arith, take_all size content (omega arith))

module _ (p : Pointers) (captured old : Cells) where
  patch-copy_host_closures :
      (bs cs : List HostBuffer) (before content : Bytes) (total offset : ℕ) (m : Cells)
      → sizes bs ≡ sizes cs
      → content ≡ before ++ copy_host_closures cs captured
      → total ≡ length content
      → total < 2 ^ 64
      → offset ≡ length before
      → patch_closures p content total offset (save_closures bs old) m
        ≡ (none, placed p bs cs captured m)
  unfolding patch_closures
  patch-copy_host_closures [] cs before content total offset m same e n small o = refl
  patch-copy_host_closures (b ∷ bs) [] before content total offset m same e n small o =
      absurd (ground (arith, same))
  patch-copy_host_closures (b ∷ bs) (c ∷ cs) before content total offset m same e n small o =
      let now = load c.buffer c.size captured in
      let rest = copy_host_closures cs captured in
      let size : b.size ≡ c.size = ground (arith, same) in
      let long : length (load b.buffer b.size old) ≡ length now =
        length-load b.buffer b.size old ∙ size ∙ sym (length-load c.buffer c.size captured) in
      let init : init_extended_lambda_host_closure content (length (load b.buffer b.size old))
            offset total
          ≡ ok now =
        (λ i. init_extended_lambda_host_closure (e i) (long i) (o i) total)
        ∙ slice before now rest total (n ∙ ap length e) in
      let fits : (offset + length (load b.buffer b.size old)) % 2 ^ 64 ≡ length (before ++ now) =
        omega (
          arith,
          length-append before now,
          length-append before (now ++ rest),
          length-append now rest,
          long,
          n,
          ap length e,
        ) in
      rw (init, patch_closures)
        (patch-copy_host_closures bs cs (before ++ now) content total
          ((offset + length (load b.buffer b.size old)) % 2 ^ 64)
          (store b.buffer now (store b.pointer_slot (p.pointer_bytes b.buffer) m))
          (ground (arith, same)) (e ∙ sym (append_assoc before now rest)) n small fits)

total_size-captured :
    (bs cs : List HostBuffer) (captured old : Cells)
    → sizes bs ≡ sizes cs
    → total_size (save_closures bs old) ≡ length (copy_host_closures cs captured) % 2 ^ 64
total_size-captured [] [] captured old same = omega arith
total_size-captured [] (c ∷ cs) captured old same = absurd (ground (arith, same))
total_size-captured (b ∷ bs) [] captured old same = absurd (ground (arith, same))
total_size-captured (b ∷ bs) (c ∷ cs) captured old same =
    let size : b.size ≡ c.size = ground (arith, same) in
    omega (
      arith,
      size,
      length-load b.buffer b.size old,
      length-load c.buffer c.size captured,
      length-append (load c.buffer c.size captured) (copy_host_closures cs captured),
      total_size-captured bs cs captured old (ground (arith, same)),
    )

execute-copy_host_closures :
    (p : Pointers) (type : LambdaType) (captured_functor functor : ℕ) (captured m : Cells)
    → length (copy_host_closures (visit_hdl_host_lambdas p type captured_functor captured) captured)
      < 2 ^ 64
    → let cs = visit_hdl_host_lambdas p type captured_functor captured in
      let functor_data = load captured_functor (size_of type) captured in
      execute p (copy_host_closures cs captured) functor_data (save p (extended type) functor m) m
      ≡ (
        none,
        placed p
            (visit_hdl_host_lambdas p type functor m)
            cs
            captured
            (store functor functor_data m),
      )
unfolding execute save
execute-copy_host_closures p type captured_functor functor captured m small =
    let cs = visit_hdl_host_lambdas p type captured_functor captured in
    let bs = visit_hdl_host_lambdas p type functor m in
    let functor_data = load captured_functor (size_of type) captured in
    let content = copy_host_closures cs captured in
    let same = visited_sizes p type functor captured_functor m captured in
    let total : total_size (save_closures bs m) ≡ length content =
      omega (arith, total_size-captured bs cs captured m same) in
    let size =
      length-load functor (size_of type) m
      ∙ sym (length-load captured_functor (size_of type) captured) in
    rw (init_whole functor_data (length (load functor (size_of type) m)) size, execute)
      (patch-copy_host_closures p captured m bs cs [] content (total_size (save_closures bs m)) 0
        (store functor functor_data m) same refl total (omega (arith, total)) refl)

-- For an extended lambda of the same type, anywhere and whatever it holds, the replay returns, without
-- an error, a functor that was copied from the memory into which the guard put what
-- `copy_nvcc_functor` captures, where the closures have less than 2 ^ 64 bytes: the bytes of the
-- lambda, then for each host closure, in the order of the visits, the pointer to its own buffer and
-- into that buffer the bytes of the same closure in the captured program.
pub replay_functor-copy_host_closures :
    {V : Type 0} (p : Pointers) (copy_construct : Cells → V) (type : LambdaType)
    (captured_functor functor : ℕ) (captured m : Cells)
    → length (copy_host_closures (visit_hdl_host_lambdas p type captured_functor captured) captured)
      < 2 ^ 64
    → let cs = visit_hdl_host_lambdas p type captured_functor captured in
      let functor_data = load captured_functor (size_of type) captured in
      (replay_functor p copy_construct
        (copy_host_closures cs captured)
        functor_data
        (extended type)
        functor
        m).0
      ≡ ok (
          copy_construct (
            placed p
              (visit_hdl_host_lambdas p type functor m)
              cs
              captured
              (store functor functor_data m)))
unfolding replay_functor
replay_functor-copy_host_closures {V} p copy_construct type captured_functor functor captured m
      small =
    ap returned (execute-copy_host_closures p type captured_functor functor captured m small)
  where
    returned : Option Error × Cells → Result Error V
    returned x = elim x.0 [ some z ↦ err z | none ↦ ok (copy_construct x.1) ]
