-- ===== src/Replay/Launch/RoundTrip.antt =====
-- A replay launches the policy that was captured.
use krepe.Prelude.{
  ℕ, ◌≡◌, ◌≢◌, refl, true, false, Option, none, some, List, [], ◌∷◌, map, Text, codes, text_eq,
  length, take, take_all, arith, Bool-cases, inl, inr, ok, All, if◌then◌else◌,
}
use krepe.Prelude.Int.{ℤ, pos, negsuc, minus_one, is_negative, int_eq, FitsSigned, FitsUnsigned}
use krepe.Replay.Policy.{
  IndexType, int8, int16, int32, int64, uint8, uint16, uint32, uint64, Schedule, static, dynamic,
  ExecSpace, serial, openmp, threads, hpx, cuda, hip, Build, get_policy_index_type_from_props,
  get_policy_schedule_from_name, get_policy_exec_space_from_name, iteration_pattern, Iterate,
}
use krepe.Replay.Policy.RoundTrip.{traits_of}
use krepe.Kokkos.{Direction, left, right, unresolved, Scratch, TeamPolicy}
use krepe.Extract.Bounds.{
  index_size, is_signed, index_type_to_u64, to_int64, iteration_pattern_to_string,
  schedule_to_string, int_or_minus_one, scratch_sizes, CapturedBuild,
  supports_querying_scratch_size, answered_scratch,
}
use krepe.Replay.Launch.{width, to_index, or_auto, direction, scratch_of}

-- The number is a value of the index type.
abbrev pub FitsIndex : IndexType → ℤ → Type 0
FitsIndex t z = if is_signed t then FitsSigned (width t) z else FitsUnsigned (width t) z

-- A bound survives the conversion to 64 bits and back.
pub to_index-index_type_to_u64 :
    (t : IndexType) (z : ℤ) → FitsIndex t z → to_index t (index_type_to_u64 t z) ≡ z
unfolding to_index index_type_to_u64
to_index-index_type_to_u64 int8 (pos n) h = ground arith
to_index-index_type_to_u64 int8 (negsuc n) h = ground arith
to_index-index_type_to_u64 int16 (pos n) h = ground arith
to_index-index_type_to_u64 int16 (negsuc n) h = ground arith
to_index-index_type_to_u64 int32 (pos n) h = ground arith
to_index-index_type_to_u64 int32 (negsuc n) h = ground arith
to_index-index_type_to_u64 int64 (pos n) h = ground arith
to_index-index_type_to_u64 int64 (negsuc n) h = ground arith
to_index-index_type_to_u64 uint8 (pos n) h = ground arith
to_index-index_type_to_u64 uint8 (negsuc n) h = absurd h
to_index-index_type_to_u64 uint16 (pos n) h = ground arith
to_index-index_type_to_u64 uint16 (negsuc n) h = absurd h
to_index-index_type_to_u64 uint32 (pos n) h = ground arith
to_index-index_type_to_u64 uint32 (negsuc n) h = absurd h
to_index-index_type_to_u64 uint64 (pos n) h = ground arith
to_index-index_type_to_u64 uint64 (negsuc n) h = absurd h

-- What `ExecSpace::name()` gives.
pub record IsKokkosName (name : ExecSpace → Text) : Type 0 where
  pub serial_name : name serial ≡ codes "Serial"
  pub openmp_name : name openmp ≡ codes "OpenMP"
  pub threads_name : name threads ≡ codes "Threads"
  pub hpx_name : name hpx ≡ codes "HPX"
  pub cuda_name : name cuda ≡ codes "Cuda"
  pub hip_name : name hip ≡ codes "HIP"

props_back : (t : IndexType) → get_policy_index_type_from_props (is_signed t) (index_size t) ≡ ok t
unfolding get_policy_index_type_from_props
props_back int8 = refl
props_back int16 = refl
props_back int32 = refl
props_back int64 = refl
props_back uint8 = refl
props_back uint16 = refl
props_back uint32 = refl
props_back uint64 = refl

pub schedule_back : (s : Schedule) → get_policy_schedule_from_name (schedule_to_string s) ≡ ok s
unfolding get_policy_schedule_from_name text_eq
schedule_back static = refl
schedule_back dynamic = refl

pub space_back :
    (name : ExecSpace → Text) (b : Build) (e : ExecSpace)
    → IsKokkosName name
    → b.enabled e ≡ true
    → get_policy_exec_space_from_name b (name e) ≡ ok e
unfolding get_policy_exec_space_from_name text_eq
space_back name b serial k on = rw k.serial_name (ground arith)
space_back name b openmp k on = rw k.openmp_name (ground arith)
space_back name b threads k on = rw k.threads_name (ground arith)
space_back name b hpx k on = rw k.hpx_name (ground arith)
space_back name b cuda k on = rw k.cuda_name (ground arith)
space_back name b hip k on = rw k.hip_name (ground arith)

pub traits_back :
    (name : ExecSpace → Text) (b : Build) (t : IndexType) (e : ExecSpace) (s : Schedule)
    → IsKokkosName name
    → b.enabled e ≡ true
    → traits_of b
        (record { size = index_size t; is_signed = is_signed t })
        (name e)
        (schedule_to_string s)
      ≡ ok (record { index_type = t; exec_space = e; schedule = s })
traits_back name b t e s k on = rw (props_back t, space_back name b e k on, schedule_back s) refl

pub int64_back : (z : ℤ) → FitsSigned 64 z → to_int64 z ≡ z
int64_back (pos n) h = ground arith
int64_back (negsuc n) h = ground arith

map-int64_back : (zs : List ℤ) → All (FitsSigned 64) zs → map to_int64 zs ≡ zs
map-int64_back [] h = refl
map-int64_back (z ∷ zs) h = rw (int64_back z h.0, map-int64_back zs h.1) refl

-- The numbers of a bound or a tile.
abbrev pub IsBound : ℕ → List ℤ → Type 0
IsBound rank zs = (length zs ≡ rank) × All (FitsSigned 64) zs

pub bound_back :
    (rank : ℕ) (zs : List ℤ) → IsBound rank zs → take rank (take rank (map to_int64 zs)) ≡ zs
bound_back rank zs (n, fits) =
    rw
      (
        map-int64_back zs fits,
        take_all rank zs (omega (arith, n)),
        take_all rank zs (omega (arith, n)),
      )
      refl

abbrev pub IsAutoOrSize : Option ℤ → Type 0
IsAutoOrSize none = Unit
IsAutoOrSize (some n) = is_negative n ≡ false

pub auto_back : (n : Option ℤ) → IsAutoOrSize n → or_auto (int_or_minus_one n) ≡ n
auto_back none h = refl
auto_back (some n) h = rw h refl

-- The scratch sizes that a replay sets: those that could be queried.
abbrev pub queried_scratch : CapturedBuild → TeamPolicy → Option Scratch
queried_scratch built p =
    if supports_querying_scratch_size built p.exec_space
    then some (answered_scratch built p.scratch)
    else none

-- Kokkos answers no first size of -1.
abbrev pub IsScratch : CapturedBuild → TeamPolicy → Type 0
IsScratch built p = int_eq (answered_scratch built p.scratch).team_level_0 minus_one ≡ false

pub scratch_back :
    (built : CapturedBuild) (p : TeamPolicy)
    → IsScratch built p
    → scratch_of (scratch_sizes built p) ≡ queried_scratch built p
unfolding int_eq
scratch_back built p h = elim (Bool-cases (supports_querying_scratch_size built p.exec_space)) [
  | inl can ↦ rw (can, h) refl
  | inr cannot ↦ rw cannot refl
]

-- A direction that Kokkos has resolved is read back.
pub pattern_back :
    (d : Direction)
    → d ≢ unresolved
    → (text : Text) × (it : Iterate) × (iteration_pattern_to_string d ≡ some text)
      × (iteration_pattern text ≡ ok it)
      × (direction it ≡ d)
unfolding iteration_pattern text_eq
pattern_back left h = (codes "left", Iterate.left, refl, refl, refl)
pattern_back right h = (codes "right", Iterate.right, refl, refl, refl)
pattern_back unresolved h = absurd (h refl)
