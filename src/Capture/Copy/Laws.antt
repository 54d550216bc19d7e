-- ===== src/Capture/Copy/Laws.antt =====
-- What a copy that is not skipped holds.
use krepe.Prelude.{
  ℕ, ◌≡◌, ◌≢◌, refl, inl, inr, Bool, true, false, Option, none, some, [], Bytes, Text, arith, not,
  ◌&&◌, ◌⊎◌, ◌↔◌, length, Bool-cases, text_eq, text_eq_iff, codes, ap,
}
use krepe.Capture.Tracker.{ActiveAllocation}
use krepe.Capture.Copy.{
  Memory, is_host_accessible_space, is_cuda_device_space, is_hip_device_space, copy_bytes,
  copy_allocation_bytes, resized,
}

-- A copy that succeeded gave `n` bytes.
abbrev pub Gives : ℕ → Option Bytes → Type 0
Gives n none = Unit
Gives n (some bytes) = length bytes ≡ n

-- What the program relies on: a read or a copy of `n` bytes gives `n` bytes.
pub record IsExact (m : Memory) : Type 0 where
  pub host_exact : (a n : ℕ) → length (m.host_bytes a n) ≡ n
  pub cuda_exact : (a n : ℕ) → Gives n (m.cuda_memcpy a n)
  pub hip_exact : (a n : ℕ) → Gives n (m.hip_memcpy a n)

copy_bytes_lem :
    (m : Memory) (host_accessible cuda_device hip_device : Bool) (a n : ℕ) (buffer : Bytes)
    → IsExact m
    → not host_accessible && (not cuda_device && not hip_device) ≡ false
    → let (reason, bytes) = copy_bytes m host_accessible cuda_device hip_device a n buffer in
      (reason ≡ none → length bytes ≡ n) × (reason ≢ none → bytes ≡ [])
unfolding copy_bytes
copy_bytes_lem m true c p a n buffer x supported = (λ e. x.host_exact a n, λ e. absurd (e refl))
copy_bytes_lem m false true p a n buffer x supported =
    let h = x.cuda_exact a n in (λ e. ground arith, λ e. ground arith)
copy_bytes_lem m false false true a n buffer x supported =
    let h = x.hip_exact a n in (λ e. ground arith, λ e. ground arith)
copy_bytes_lem m false false false a n buffer x supported = absurd (ground arith)

-- Where a read of n bytes gives n bytes, and whatever the vector holds at first: without a reason to
-- skip it, the allocation has a known size and the vector holds that many bytes; with one, the
-- vector is empty or holds what it held at first, so that a vector that is passed empty, as the
-- writer of the dump passes it, is left empty.
pub copy_allocation_bytes_lem :
    (m : Memory) (a : ActiveAllocation) (bytes : Bytes)
    → IsExact m
    → let (reason, copied) = copy_allocation_bytes m a bytes in
      (reason ≡ none → (a.recorded.data_size_known ≡ true) × (length copied ≡ a.recorded.size))
      × (reason ≢ none → (copied ≡ []) ⊎ (copied ≡ bytes))
unfolding copy_allocation_bytes
copy_allocation_bytes_lem m a bytes x =
    let r = a.recorded in
    let copy =
      copy_bytes_lem m (is_host_accessible_space r.space) (is_cuda_device_space r.space)
        (is_hip_device_space r.space) r.p_data r.size (resized r.size bytes) x in
    (λ e. ground arith, λ e. ground arith)

unreadable_cuda : is_host_accessible_space (codes "Cuda") ≡ false
unfolding is_host_accessible_space text_eq
unreadable_cuda = refl

unreadable_hip : is_host_accessible_space (codes "HIP") ≡ false
unfolding is_host_accessible_space text_eq
unreadable_hip = refl

-- A space whose memory the host can read is not a device's own.
host_accessible_excludes :
    (space : Text)
    → is_host_accessible_space space ≡ true
    → (is_cuda_device_space space ≡ false) × (is_hip_device_space space ≡ false)
unfolding is_cuda_device_space is_hip_device_space
host_accessible_excludes space h = (cuda, hip)
  where
    not_cuda : space ≡ codes "Cuda" → ⊥
    not_cuda e = cc (unreadable_cuda, ap is_host_accessible_space e, h)

    not_hip : space ≡ codes "HIP" → ⊥
    not_hip e = cc (unreadable_hip, ap is_host_accessible_space e, h)

    cuda : is_cuda_device_space space ≡ false
    cuda = elim (Bool-cases (text_eq space (codes "Cuda"))) [
      | inl e ↦ absurd (not_cuda ((text_eq_iff space (codes "Cuda")).0 e))
      | inr e ↦ e
    ]

    hip : is_hip_device_space space ≡ false
    hip = elim (Bool-cases (text_eq space (codes "HIP"))) [
      | inl e ↦ absurd (not_hip ((text_eq_iff space (codes "HIP")).0 e))
      | inr e ↦ e
    ]

-- Where the bytes of a copy come from.
abbrev pub IsCopyOf : Memory → ActiveAllocation → Bytes → Type 0
IsCopyOf m a copied =
    let r = a.recorded in
    ((is_host_accessible_space r.space ≡ true) × (copied ≡ m.host_bytes r.p_data r.size))
    ⊎ ((r.space ≡ codes "Cuda")
        × (m.cuda_dump ≡ true)
        × (m.cuda_memcpy r.p_data r.size ≡ some copied))
    ⊎ ((r.space ≡ codes "HIP") × (m.hip_dump ≡ true) × (m.hip_memcpy r.p_data r.size ≡ some copied))

copy_bytes_copied :
    (m : Memory) (host_accessible cuda_device hip_device : Bool) (a n : ℕ) (buffer copied : Bytes)
    → (copy_bytes m host_accessible cuda_device hip_device a n buffer ≡ (none, copied)) ↔ (
        ((host_accessible ≡ true) × (copied ≡ m.host_bytes a n))
        ⊎ ((host_accessible ≡ false) × (cuda_device ≡ true) × (m.cuda_memcpy a n ≡ some copied))
        ⊎ ((host_accessible ≡ false)
            × (cuda_device ≡ false)
            × (hip_device ≡ true)
            × (m.hip_memcpy a n ≡ some copied)))
unfolding copy_bytes
copy_bytes_copied m true c p a n buffer copied = ground arith
copy_bytes_copied m false true p a n buffer copied = ground arith
copy_bytes_copied m false false true a n buffer copied = ground arith
copy_bytes_copied m false false false a n buffer copied = ground arith

-- A space is at most one device's own.
device_excludes :
    (space : Text) → is_cuda_device_space space ≡ true → is_hip_device_space space ≡ false
unfolding is_cuda_device_space is_hip_device_space text_eq
device_excludes space e = rw ((text_eq_iff space (codes "Cuda")).0 e) refl

-- An allocation is copied, whatever the vector holds at first, exactly if its size is known and
-- either it is empty and so is the copy, or the buffer can be allocated, the data pointer is not
-- null, and the bytes are those of the host's memory in a space that the host can read, or those that
-- the driver of a device copies in that device's space, where the build has it.
pub copy_allocation_bytes-IsCopyOf :
    (m : Memory) (a : ActiveAllocation) (bytes copied : Bytes)
    → (copy_allocation_bytes m a bytes ≡ (none, copied)) ↔ (
        (a.recorded.data_size_known ≡ true)
        × (((a.recorded.size ≡ 0) × (copied ≡ []))
            ⊎ ((a.recorded.size ≢ 0)
                × (m.can_allocate a.recorded.size ≡ true)
                × (a.recorded.p_data ≢ 0)
                × IsCopyOf m a copied)))
unfolding copy_allocation_bytes is_cuda_device_space is_hip_device_space
copy_allocation_bytes-IsCopyOf m a bytes copied =
    let r = a.recorded in
    ground (
      arith,
      copy_bytes_copied m (is_host_accessible_space r.space) (is_cuda_device_space r.space)
          (is_hip_device_space r.space) r.p_data r.size (resized r.size bytes) copied,
      host_accessible_excludes r.space,
      device_excludes r.space,
      text_eq_iff r.space (codes "Cuda"),
      text_eq_iff r.space (codes "HIP"),
    )
