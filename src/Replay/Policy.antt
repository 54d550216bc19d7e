-- ===== src/Replay/Policy.antt =====
-- `read_policy_from_hdf5` and what it calls (src/krepe/replay/kernel_replayer.cpp), with the
-- descriptions of policies of src/krepe/replay/kernel_replayer.hpp.
pub mod RoundTrip
pub mod Tests
use krepe.Prelude.{
  ℕ, ◌-◌, ◌%◌, Bool, true, false, not, ◌&&◌, ◌||◌, Option, none, some, List, [], ◌∷◌, Bytes, Text,
  codes, text_eq, length, take, Result, ok, err, ◌>>=◌, ◌==◌, if◌then◌else◌,
}
use krepe.Prelude.Int.{ℤ, pos, to_bits, int_eq}
use krepe.Hdf5.{
  Attribute, string_value, uint64_value, int_value, Target, group, byte_dataset, int64_dataset,
}
use krepe.Replay.Attributes.{
  get_hdf5_string_attribute, get_hdf5_int_attribute, get_hdf5_uint64_attribute,
  read_hdf5_int64_dataset,
}
use krepe.Replay.Error.{
  Error, hdf5_failed, unexpected_size, unexpected_schedule, no_execution_space, unexpected_rank,
  unexpected_pattern, unknown_policy,
}

pub data IndexType : Type 0 where
  int8 int16 int32 int64 uint8 uint16 uint32 uint64 : IndexType

pub data Schedule : Type 0 where
  static dynamic : Schedule

pub data ExecSpace : Type 0 where
  serial openmp threads hpx cuda hip : ExecSpace

pub data Iterate : Type 0 where
  left right : Iterate

-- What the three larger descriptions share.
pub record Traits : Type 0 where
  pub index_type : IndexType
  pub exec_space : ExecSpace
  pub schedule : Schedule

pub record MdRange : Type 0 where
  pub begin : List ℤ
  pub end : List ℤ
  pub tile : List ℤ
  pub rank : ℕ
  pub outer_iter_dir : Iterate
  pub inner_iter_dir : Iterate

-- The sizes of a team policy in the order of the source.
pub record Team : Type 0 where
  pub team_size : ℤ
  pub league_size : ℤ
  pub vector_length : ℤ
  pub team_scratch_0 : ℤ
  pub team_scratch_1 : ℤ
  pub thread_scratch_0 : ℤ
  pub thread_scratch_1 : ℤ
  pub chunk_size : ℤ

-- `policy_var_t`
pub data ReplayPolicy : Type 0 where
  monostate : ReplayPolicy
  scalar_policy : ℕ → ReplayPolicy
  range_policy : ℕ → ℕ → ℤ → Traits → ReplayPolicy
  mdrange_policy : MdRange → Traits → ReplayPolicy
  team_policy : Team → Traits → ReplayPolicy

-- The build: the execution spaces that are enabled, and whether Kokkos has `MDRangePolicy` of rank 1.
pub record Build : Type 0 where
  pub enabled : ExecSpace → Bool
  pub has_rank_one : Bool

unfoldable pub get_policy_index_type_from_props : Bool → ℕ → Result Error IndexType
get_policy_index_type_from_props index_type_signed index_type_size =
    if index_type_size == 1
    then ok (if index_type_signed then int8 else uint8)
    else if index_type_size == 2
    then ok (if index_type_signed then int16 else uint16)
    else if index_type_size == 4
    then ok (if index_type_signed then int32 else uint32)
    else if index_type_size == 8
    then ok (if index_type_signed then int64 else uint64)
    else err (unexpected_size index_type_size)

unfoldable pub get_policy_schedule_from_name : Text → Result Error Schedule
get_policy_schedule_from_name schedule =
    if text_eq schedule (codes "static")
    then ok static
    else if text_eq schedule (codes "dynamic")
    then ok dynamic
    else err (unexpected_schedule schedule)

unfoldable pub get_policy_exec_space_from_name : Build → Text → Result Error ExecSpace
get_policy_exec_space_from_name b space =
    if b.enabled serial && text_eq space (codes "Serial")
    then ok serial
    else if b.enabled openmp && text_eq space (codes "OpenMP")
    then ok openmp
    else if b.enabled threads && text_eq space (codes "Threads")
    then ok threads
    else if b.enabled hpx && text_eq space (codes "HPX")
    then ok hpx
    else if b.enabled cuda && text_eq space (codes "Cuda")
    then ok cuda
    else if b.enabled hip && text_eq space (codes "HIP")
    then ok hip
    else err (no_execution_space space)

unfoldable pub policy_rank : Build → ℤ → Result Error ℕ
policy_rank b rank =
    if b.has_rank_one && int_eq rank (pos 1)
    then ok 1
    else if int_eq rank (pos 2)
    then ok 2
    else if int_eq rank (pos 3)
    then ok 3
    else if int_eq rank (pos 4)
    then ok 4
    else if int_eq rank (pos 5)
    then ok 5
    else if int_eq rank (pos 6)
    then ok 6
    else err (unexpected_rank rank)

unfoldable pub iteration_pattern : Text → Result Error Iterate
iteration_pattern name =
    if text_eq name (codes "left")
    then ok left
    else if text_eq name (codes "right")
    then ok right
    else err (unexpected_pattern name)

-- The attributes and the links of the group `policy`.
module _ (attributes : Text → Option Attribute) (links : Text → Option Target) where
  unfoldable pub read_traits : Build → Result Error Traits
  unfolding get_hdf5_int_attribute get_hdf5_string_attribute
  read_traits b =
      get_hdf5_int_attribute attributes (codes "index_type_signed") >>= λ index_type_signed.
      get_hdf5_int_attribute attributes (codes "index_type_size") >>= λ index_type_size.
      get_policy_index_type_from_props (not (int_eq index_type_signed (pos 0)))
        (to_bits 64 index_type_size)
      >>= λ index_type. get_hdf5_string_attribute attributes (codes "space") >>= λ space.
          get_policy_exec_space_from_name b space >>= λ exec_space.
          get_hdf5_string_attribute attributes (codes "schedule") >>= λ name.
          get_policy_schedule_from_name name >>= λ schedule.
          ok (record { index_type = index_type; exec_space = exec_space; schedule = schedule })

  unfoldable pub read_mdrange : Build → Result Error MdRange
  unfolding get_hdf5_int_attribute get_hdf5_string_attribute read_hdf5_int64_dataset
  read_mdrange b = get_hdf5_int_attribute attributes (codes "rank") >>= λ number.
      policy_rank b number >>= λ rank.
      get_hdf5_string_attribute attributes (codes "outer_dir") >>= λ outer_name.
      iteration_pattern outer_name >>= λ outer.
      get_hdf5_string_attribute attributes (codes "inner_dir") >>= λ inner_name.
      iteration_pattern inner_name >>= λ inner.
      read_hdf5_int64_dataset links (codes "begin") >>= λ begin.
      read_hdf5_int64_dataset links (codes "end") >>= λ end.
      read_hdf5_int64_dataset links (codes "tile") >>= λ tile. ok (record {
        begin = begin;
        end = end;
        tile = tile;
        rank = rank;
        outer_iter_dir = outer;
        inner_iter_dir = inner;
      })

  unfoldable pub read_team : Result Error Team
  unfolding get_hdf5_int_attribute
  read_team = get_hdf5_int_attribute attributes (codes "team_size") >>= λ team_size.
      get_hdf5_int_attribute attributes (codes "league_size") >>= λ league_size.
      get_hdf5_int_attribute attributes (codes "vector_length") >>= λ vector_length.
      get_hdf5_int_attribute attributes (codes "team_scratch_0") >>= λ team_scratch_0.
      get_hdf5_int_attribute attributes (codes "team_scratch_1") >>= λ team_scratch_1.
      get_hdf5_int_attribute attributes (codes "thread_scratch_0") >>= λ thread_scratch_0.
      get_hdf5_int_attribute attributes (codes "thread_scratch_1") >>= λ thread_scratch_1.
      get_hdf5_int_attribute attributes (codes "chunk_size") >>= λ chunk_size. ok (record {
        team_size = team_size;
        league_size = league_size;
        vector_length = vector_length;
        team_scratch_0 = team_scratch_0;
        team_scratch_1 = team_scratch_1;
        thread_scratch_0 = thread_scratch_0;
        thread_scratch_1 = thread_scratch_1;
        chunk_size = chunk_size;
      })

  unfoldable pub read_range : Traits → Result Error ReplayPolicy
  unfolding get_hdf5_int_attribute get_hdf5_uint64_attribute
  read_range traits = get_hdf5_uint64_attribute attributes (codes "begin") >>= λ begin.
      get_hdf5_uint64_attribute attributes (codes "end") >>= λ end.
      get_hdf5_int_attribute attributes (codes "chunk_size") >>= λ chunk_size.
      ok (range_policy begin end chunk_size traits)

  unfoldable pub read_kind : Build → Text → Traits → Result Error ReplayPolicy
  unfolding read_range read_mdrange read_team
  read_kind b type_name traits =
      if text_eq type_name (codes "range")
      then read_range traits
      else if text_eq type_name (codes "mdrange")
      then (read_mdrange b >>= λ p. ok (mdrange_policy p traits))
      else if text_eq type_name (codes "team")
      then (read_team >>= λ p. ok (team_policy p traits))
      else err (unknown_policy type_name)

  unfoldable pub read_policy_from_hdf5 : Build → Result Error ReplayPolicy
  unfolding get_hdf5_string_attribute get_hdf5_uint64_attribute read_traits read_kind
  read_policy_from_hdf5 b = get_hdf5_string_attribute attributes (codes "type") >>= λ type_name.
      (if text_eq type_name (codes "none")
        then ok monostate
        else if text_eq type_name (codes "scalar")
        then (get_hdf5_uint64_attribute attributes (codes "end") >>= λ n. ok (scalar_policy n))
        else (read_traits b >>= λ traits. read_kind b type_name traits))
