-- ===== src/Extract/Bounds.antt =====
-- `register_bounds` and what it calls (src/krepe/extract/kernel_extractor.hpp): the call of the tool
-- that describes a policy.
use krepe.Prelude.{ℕ, Bool, true, false, Option, none, some, map, Text, codes, if◌then◌else◌}
use krepe.Prelude.Int.{ℤ, minus_one, to_bits, of_bits}
use krepe.Replay.Policy.{
  IndexType, int8, int16, int32, int64, uint8, uint16, uint32, uint64, Schedule, static, dynamic,
  ExecSpace, serial, openmp, threads, hpx, cuda, hip,
}
use krepe.Kokkos.{
  Direction, left, right, unresolved, Scratch, TeamPolicy, Policy, number, range, mdrange, team,
}
use krepe.Capture.Hooks.Entries.{
  Entry, registers_scalar, registers_range, registers_mdrange, registers_team,
}

-- `sizeof` and `std::is_signed_v`
abbrev pub index_size : IndexType → ℕ
index_size int8 = 1
index_size uint8 = 1
index_size int16 = 2
index_size uint16 = 2
index_size int32 = 4
index_size uint32 = 4
index_size int64 = 8
index_size uint64 = 8

abbrev pub is_signed : IndexType → Bool
is_signed int8 = true
is_signed int16 = true
is_signed int32 = true
is_signed int64 = true
is_signed uint8 = false
is_signed uint16 = false
is_signed uint32 = false
is_signed uint64 = false

abbrev pub get_index_type_props : IndexType → ℕ × Bool
get_index_type_props t = (index_size t, is_signed t)

-- A signed index goes through `std::int64_t`.
unfoldable pub index_type_to_u64 : IndexType → ℤ → ℕ
index_type_to_u64 t n = if is_signed t then to_bits 64 (of_bits 64 (to_bits 64 n)) else to_bits 64 n

-- `none` for the exception.
abbrev pub iteration_pattern_to_string : Direction → Option Text
iteration_pattern_to_string left = some (codes "left")
iteration_pattern_to_string right = some (codes "right")
iteration_pattern_to_string unresolved = none

abbrev pub schedule_to_string : Schedule → Text
schedule_to_string static = codes "static"
schedule_to_string dynamic = codes "dynamic"

abbrev pub to_int64 : ℤ → ℤ
to_int64 n = of_bits 64 (to_bits 64 n)

abbrev pub int_or_minus_one : Option ℤ → ℤ
int_or_minus_one none = minus_one
int_or_minus_one (some n) = n

-- The build of the captured program: `ExecSpace::name()`, whether Kokkos is of version 5.3 or later,
-- the backends that decide which sizes can be queried, and what `team_scratch_size` and
-- `thread_scratch_size` answer where no sizes were set.
pub record CapturedBuild : Type 0 where
  pub name : ExecSpace → Text
  pub since_5_3 : Bool
  pub has_cuda : Bool
  pub has_hip : Bool
  pub unset_scratch : Scratch

abbrev pub is_cuda : ExecSpace → Bool
is_cuda cuda = true
is_cuda serial = false
is_cuda openmp = false
is_cuda threads = false
is_cuda hpx = false
is_cuda hip = false

abbrev pub is_hip : ExecSpace → Bool
is_hip hip = true
is_hip serial = false
is_hip openmp = false
is_hip threads = false
is_hip hpx = false
is_hip cuda = false

-- With another backend, SYCL included, the answer is no for each of the spaces.
abbrev pub supports_querying_scratch_size : CapturedBuild → ExecSpace → Bool
supports_querying_scratch_size built space =
    if built.since_5_3
    then true
    else if built.has_cuda
    then is_cuda space
    else if built.has_hip
    then is_hip space
    else false

-- What the members of the policy answer.
abbrev pub answered_scratch : CapturedBuild → Option Scratch → Scratch
answered_scratch built none = built.unset_scratch
answered_scratch built (some s) = s

abbrev pub scratch_sizes : CapturedBuild → TeamPolicy → Scratch
scratch_sizes built p =
    if supports_querying_scratch_size built p.exec_space
    then answered_scratch built p.scratch
    else record {
      team_level_0 = minus_one;
      team_level_1 = minus_one;
      thread_level_0 = minus_one;
      thread_level_1 = minus_one;
    }

-- The overloads for a number and the three kinds of policies; `none` stands for an exception.
module _ (built : CapturedBuild) where
  unfoldable pub register_bounds : Policy → Option Entry
  unfolding index_type_to_u64
  register_bounds (number upper_bound) = some (registers_scalar upper_bound)
  register_bounds (range p) =
      let (idx_type_size, idx_type_signed) = get_index_type_props p.index_type in
      let begin = index_type_to_u64 p.index_type p.begin in
      let end = index_type_to_u64 p.index_type p.end in
      some (
        registers_range (built.name p.exec_space) (schedule_to_string p.schedule) idx_type_size
          idx_type_signed begin end p.chunk_size)
  register_bounds (mdrange p) =
      let (idx_type_size, idx_type_signed) = get_index_type_props p.index_type in
      elim (iteration_pattern_to_string p.outer_direction) [
        | none ↦ none
        | some outer_dir ↦ elim (iteration_pattern_to_string p.inner_direction) [
          | none ↦ none
          | some inner_dir ↦ some (
              registers_mdrange (built.name p.exec_space) (schedule_to_string p.schedule) p.rank
                outer_dir inner_dir idx_type_size idx_type_signed (map to_int64 p.lower)
                (map to_int64 p.upper) (map to_int64 p.tile))
        ]
      ]
  register_bounds (team p) =
      let (idx_type_size, idx_type_signed) = get_index_type_props p.index_type in
      let scratch = scratch_sizes built p in
      some (
        registers_team (built.name p.exec_space) (schedule_to_string p.schedule) idx_type_size
          idx_type_signed (int_or_minus_one p.team_size) p.league_size
          (int_or_minus_one p.vector_length) scratch.team_level_0 scratch.team_level_1
          scratch.thread_level_0 scratch.thread_level_1 p.chunk_size)
