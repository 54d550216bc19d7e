-- ===== src/Extract/Closures.antt =====
-- `copy_nvcc_functor` of src/krepe/extract/kernel_extractor.hpp: the bytes of an extended lambda and of
-- its host closures.
use krepe.Prelude.{ℕ, List, [], ◌∷◌, ◌++◌, Bytes, length}
use krepe.Common.Bytes.{Cells, load}
use krepe.Common.Lambdas.{LambdaType, HostBuffer, size_of, Pointers, visit_hdl_host_lambdas}
use krepe.Capture.DataSize.{Host}
use krepe.Capture.Hooks.Entries.{copies_nvcc_lambda}
use krepe.Extract.Forward.{Linker, Program, forward}

-- What the visitor `copy_host_closure` appends.
abbrev pub copy_host_closures : List HostBuffer → Cells → Bytes
copy_host_closures [] m = []
copy_host_closures (b ∷ bs) m = load b.buffer b.size m ++ copy_host_closures bs m

unfoldable pub copy_nvcc_functor :
    Linker → Host → Pointers → LambdaType → ℕ → Cells → Program → Program
unfolding forward visit_hdl_host_lambdas
copy_nvcc_functor k h p type functor m program =
    let host_closure_data = copy_host_closures (visit_hdl_host_lambdas p type functor m) m in
    forward k h
      (copies_nvcc_lambda (load functor (size_of type) m) (size_of type) host_closure_data
        (length host_closure_data))
      program
