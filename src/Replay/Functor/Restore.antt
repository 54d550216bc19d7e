-- ===== src/Replay/Functor/Restore.antt =====
-- The temporary functor is as it was when it is destroyed.
use krepe.Prelude.{
  ℕ, ◌+◌, ◌%◌, ◌^◌, ◌≤◌, ◌≡◌, refl, ◌∙◌, inl, inr, Bool, true, false, ◌||◌, List, [], ◌∷◌, Bytes,
  arith, length, drop, length-take, Result, ok, err, All, Bool-cases, any, if◌then◌else◌,
}
use krepe.Prelude.{◌≢◌}
use krepe.Prelude.Dict.{Listed}
use krepe.Common.Bytes.{Cells, in_range, load, store, length-load, store_outside, store-load}
use krepe.Common.Lambdas.{HostBuffer, Pointers}
use krepe.Replay.Error.{Error}
use krepe.Replay.Store.{init_functor}
use krepe.Replay.Functor.{
  FunctorType, functor_size, save_closures, host_buffers, save, init_extended_lambda_host_closure,
  total_size, patch_closures, execute, restore_closures, restore_functor, replay_functor,
}

-- The byte is in one of the buffers.
abbrev pub in_buffers : List HostBuffer → ℕ → Bool
in_buffers bs a = any (λ b. in_range b.buffer b.size a) bs

-- No pointer to a buffer has this byte.
abbrev pub OffPointers : Pointers → List HostBuffer → ℕ → Type 0
OffPointers p bs a =
    All (λ b. in_range b.pointer_slot (length (p.pointer_bytes b.buffer)) a ≡ false) bs

restore_closures_lem :
    (bs : List HostBuffer) (old m : Cells) (a : ℕ)
    → restore_closures (save_closures bs old) m a ≡ (if in_buffers bs a then old a else m a)
unfolding restore_closures
restore_closures_lem [] old m a = refl
restore_closures_lem (b ∷ bs) old m a =
    store-load b.buffer b.size old (restore_closures (save_closures bs old) m) a
    ∙ ground (arith, restore_closures_lem bs old m a)

-- A write of at most `n` bytes.
store_within :
    (start n : ℕ) (bytes : Bytes) (m : Cells) (a : ℕ)
    → length bytes ≤ n
    → in_range start n a ≡ false
    → store start bytes m a ≡ m a
store_within start n bytes m a short out = store_outside start bytes m a (ground arith)

closure_bytes_bound :
    (content : Bytes) (size offset total : ℕ) (bytes : Bytes)
    → init_extended_lambda_host_closure content size offset total ≡ ok bytes
    → length bytes ≤ size
unfolding init_extended_lambda_host_closure
closure_bytes_bound content size offset total bytes e =
    ground (arith, length-take size (drop offset content))

functor_bytes_bound :
    (content : Bytes) (size : ℕ) (bytes : Bytes)
    → init_functor content size ≡ ok bytes
    → length bytes ≤ size
unfolding init_functor
functor_bytes_bound content size bytes e = ground (arith, length-take size content)

module _ (p : Pointers) (content : Bytes) where
  patch_outside :
      (total offset : ℕ) (bs : List HostBuffer) (old m : Cells) (a : ℕ)
      → in_buffers bs a ≡ false
      → OffPointers p bs a
      → (patch_closures p content total offset (save_closures bs old) m).1 a ≡ m a
  unfolding patch_closures
  patch_outside total offset [] old m a out off = refl
  patch_outside total offset (b ∷ bs) old m a out off =
      written (init_extended_lambda_host_closure content (length saved) offset total) refl (λ m'.
        patch_outside total ((offset + length saved) % 2 ^ 64) bs old m' a (ground arith) off.1)
    where
      saved : Bytes
      saved = load b.buffer b.size old

      linked : Cells
      linked = store b.pointer_slot (p.pointer_bytes b.buffer) m

      kept : linked a ≡ m a
      kept = store_outside b.pointer_slot (p.pointer_bytes b.buffer) m a off.0

      written :
          (r : Result Error Bytes)
          → init_extended_lambda_host_closure content (length saved) offset total ≡ r
          → ((m' : Cells)
              → (patch_closures p content total
                    ((offset + length saved) % 2 ^ 64)
                    (save_closures bs old)
                    m').1
                  a
                ≡ m' a)
          → (patch_closures p content total offset (save_closures (b ∷ bs) old) m).1 a ≡ m a
      written (err z) e later = rw (e, patch_closures) kept
      written (ok bytes) e later =
          rw (e, patch_closures)
            (later (store b.buffer bytes linked)
              ∙ store_within b.buffer b.size bytes linked a
                  (omega (
                    arith,
                    closure_bytes_bound content (length saved) offset total bytes e,
                    length-load b.buffer b.size old,
                  ))
                  (ground arith)
              ∙ kept)

-- Each pointer to a host buffer is stored in the functor or in one of the buffers.
abbrev pub PointersInside : Pointers → FunctorType → ℕ → Cells → Type 0
PointersInside p type functor m =
    (b : HostBuffer) (a : ℕ)
    → Listed b (host_buffers p type functor m)
    → in_range b.pointer_slot (length (p.pointer_bytes b.buffer)) a ≡ true
    → (in_range functor (functor_size type) a || in_buffers (host_buffers p type functor m) a)
      ≡ true

off_pointers :
    (p : Pointers) (bs : List HostBuffer) (a : ℕ)
    → ((b : HostBuffer)
        → Listed b bs
        → in_range b.pointer_slot (length (p.pointer_bytes b.buffer)) a ≢ true)
    → OffPointers p bs a
off_pointers p [] a h = tt
off_pointers p (b ∷ bs) a h = (not_true (h b (inl refl)), off_pointers p bs a (λ c l. h c (inr l)))
  where
    not_true : {v : Bool} → v ≢ true → v ≡ false
    not_true {v} n = elim (Bool-cases v) [ inl e ↦ absurd (n e) | inr e ↦ e ]

execute_outside :
    (p : Pointers) (nvcc_inner_lambda_data functor_data : Bytes) (type : FunctorType) (functor : ℕ)
    (old m : Cells) (a : ℕ)
    → in_range functor (functor_size type) a ≡ false
    → in_buffers (host_buffers p type functor old) a ≡ false
    → OffPointers p (host_buffers p type functor old) a
    → (execute p nvcc_inner_lambda_data functor_data (save p type functor old) m).1 a ≡ m a
unfolding execute save
execute_outside p nvcc_inner_lambda_data functor_data type functor old m a out away off =
    copied (init_functor functor_data (length original)) refl
  where
    original : Bytes
    original = load functor (functor_size type) old

    copied :
        (r : Result Error Bytes)
        → init_functor functor_data (length original) ≡ r
        → (execute p nvcc_inner_lambda_data functor_data (save p type functor old) m).1 a ≡ m a
    copied (err z) e = rw (e, execute) refl
    copied (ok bytes) e =
        rw (e, execute)
          (patch_outside p nvcc_inner_lambda_data
              (total_size (save_closures (host_buffers p type functor old) old)) 0
              (host_buffers p type functor old) old (store functor bytes m) a away off
            ∙ store_within functor (functor_size type) bytes m a
                (omega (
                  arith,
                  functor_bytes_bound functor_data (length original) bytes e,
                  length-load functor (functor_size type) old,
                ))
                out)

-- The destructor gives back what the constructor saved.
restore_functor-execute :
    (p : Pointers) (nvcc_inner_lambda_data functor_data : Bytes) (type : FunctorType) (functor : ℕ)
    (m : Cells)
    → PointersInside p type functor m
    → (a : ℕ)
    → let g = save p type functor m in
      restore_functor g (execute p nvcc_inner_lambda_data functor_data g m).1 a ≡ m a
unfolding restore_functor save
restore_functor-execute p nvcc_inner_lambda_data functor_data type functor m inside a =
    let bs = host_buffers p type functor m in
    let after = (execute p nvcc_inner_lambda_data functor_data (save p type functor m) m).1 in
    let closures = restore_closures_lem bs m after a in
    store-load functor (functor_size type) m (restore_closures (save_closures bs m) after) a
    ∙ elim (Bool-cases (in_range functor (functor_size type) a)) [
      | inl here ↦ rw here refl
      | inr out ↦ elim (Bool-cases (in_buffers bs a)) [
        | inl there ↦ ground (arith, closures)
        | inr away ↦
            let off = off_pointers p bs a (λ b l e. ground (arith, inside b a l e)) in
            ground (
              arith,
              closures,
              execute_outside p nvcc_inner_lambda_data functor_data type functor m m a out away off,
            )
      ]
    ]

-- Whatever is patched into the temporary functor, and also where that throws half-way, the whole
-- memory is given back as it was before the functor is destroyed, provided that each pointer to a host
-- buffer is stored in the functor or in one of the buffers.
pub replay_functor_restores :
    {V : Type 0} (p : Pointers) (copy_construct : Cells → V)
    (nvcc_inner_lambda_data functor_data : Bytes) (type : FunctorType) (functor : ℕ) (m : Cells)
    → PointersInside p type functor m
    → (a : ℕ)
    → (replay_functor p copy_construct nvcc_inner_lambda_data functor_data type functor m).1 a ≡ m a
unfolding replay_functor
replay_functor_restores p copy_construct nvcc_inner_lambda_data functor_data type functor m inside
      a =
    restore_functor-execute p nvcc_inner_lambda_data functor_data type functor m inside a
