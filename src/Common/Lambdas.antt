-- ===== src/Common/Lambdas.antt =====
-- src/krepe/common/extended_lambda_utils.hpp: the host closures of an extended lambda of nvcc, and of
-- those that it captures. The sizes, alignments and the offset of the member `data` are the
-- compiler's.
use krepe.Prelude.{ℕ, ◌+◌, ◌-◌, ◌*◌, ◌/◌, ◌≡◌, refl, ap, sym, ◌∙◌, List, [], ◌∷◌, ◌++◌}
use krepe.Common.Bytes.{Cells}

-- The type of a wrapper: its size and alignment, the offset of `data`, the size of the host closure
-- (`host_capture_size`), and the captured types, of which the others have a size and an alignment.
mutual
  pub data LambdaType : Type 0 where
    wrapper : ℕ → ℕ → ℕ → ℕ → CapturedTypes → LambdaType

  pub data CapturedTypes : Type 0 where
    no_more : CapturedTypes
    plain : ℕ → ℕ → CapturedTypes → CapturedTypes
    nested : LambdaType → CapturedTypes → CapturedTypes

-- What a visitor is given: the address of the pointer, the buffer that it points to, and its size.
pub record HostBuffer : Type 0 where
  pub pointer_slot : ℕ
  pub buffer : ℕ
  pub size : ℕ

abbrev pub align_offset : ℕ → ℕ → ℕ
align_offset offset alignment = (offset + alignment - 1) / alignment * alignment

-- The value of a pointer in memory; where its bytes are is given by `pointer_bytes`.
pub record Pointers : Type 0 where
  pub pointer_bytes : ℕ → List ℕ
  pub read_pointer : Cells → ℕ → ℕ

abbrev pub size_of : LambdaType → ℕ
size_of (wrapper size alignment data_offset host_size types) = size

abbrev pub alignment_of : LambdaType → ℕ
alignment_of (wrapper size alignment data_offset host_size types) = alignment

module _ (p : Pointers) where
  -- The parent is visited before what it captures, and its own copies of the captured lambdas before
  -- those of its host closure; the visitors change no memory while the visit goes on.
  unfoldable mutual
    pub visit_hdl_host_lambdas : LambdaType → ℕ → Cells → List HostBuffer
    visit_hdl_host_lambdas (wrapper size alignment data_offset host_size types) f m =
        let buffer = p.read_pointer m (f + data_offset) in
        record { pointer_slot = f + data_offset; buffer = buffer; size = host_size }
        ∷ (visit_hdl_captures types f 0 m ++ visit_hdl_captures types buffer 0 m)

    pub visit_hdl_captures : CapturedTypes → ℕ → ℕ → Cells → List HostBuffer
    visit_hdl_captures no_more storage offset m = []
    visit_hdl_captures (plain size alignment types) storage offset m =
        visit_hdl_captures types storage (align_offset offset alignment + size) m
    visit_hdl_captures (nested type types) storage offset m =
        let at = align_offset offset (alignment_of type) in
        visit_hdl_host_lambdas type (storage + at) m
        ++ visit_hdl_captures types storage (at + size_of type) m

abbrev pub sizes : List HostBuffer → List ℕ
sizes [] = []
sizes (b ∷ bs) = b.size ∷ sizes bs

sizes-append : (xs ys : List HostBuffer) → sizes (xs ++ ys) ≡ (sizes xs ++ sizes ys)
sizes-append [] ys = refl
sizes-append (x ∷ xs) ys = ap (◌∷◌ x.size) (sizes-append xs ys)

-- The sizes of the buffers, and their number and order, are those of the type, wherever the lambda is
-- and whatever the memory holds.
module _ (p : Pointers) where
  mutual
    unfolding visit_hdl_host_lambdas visit_hdl_captures

    pub visited_sizes :
        (type : LambdaType) (f g : ℕ) (m n : Cells)
        → sizes (visit_hdl_host_lambdas p type f m) ≡ sizes (visit_hdl_host_lambdas p type g n)
    visited_sizes (wrapper size alignment data_offset host_size types) f g m n =
        let b = p.read_pointer m (f + data_offset) in
        let c = p.read_pointer n (g + data_offset) in
        ap (◌∷◌ host_size) (
          sizes-append (visit_hdl_captures p types f 0 m) (visit_hdl_captures p types b 0 m)
          ∙ (λ i. captured_sizes types f g 0 m n i ++ captured_sizes types b c 0 m n i)
          ∙ sym
              (sizes-append (visit_hdl_captures p types g 0 n) (visit_hdl_captures p types c 0 n)))

    pub captured_sizes :
        (types : CapturedTypes) (f g offset : ℕ) (m n : Cells)
        → sizes (visit_hdl_captures p types f offset m)
          ≡ sizes (visit_hdl_captures p types g offset n)
    captured_sizes no_more f g offset m n = refl
    captured_sizes (plain size alignment types) f g offset m n =
        captured_sizes types f g (align_offset offset alignment + size) m n
    captured_sizes (nested type types) f g offset m n =
        let at = align_offset offset (alignment_of type) in
        let next = at + size_of type in
        sizes-append (visit_hdl_host_lambdas p type (f + at) m)
          (visit_hdl_captures p types f next m)
        ∙ (λ i. visited_sizes type (f + at) (g + at) m n i ++ captured_sizes types f g next m n i)
        ∙ sym (
            sizes-append (visit_hdl_host_lambdas p type (g + at) n)
              (visit_hdl_captures p types g next n))
