-- ===== src/Replay/Launch.antt =====
-- The policy that a replay launches: `get_range_policy`, `get_mdrange_policy`, `get_team_policy`,
-- `ParallelForVisitor` and `parallel_for` of src/krepe/replay/kernel_replayer.hpp.
pub mod RoundTrip
pub mod Captured
pub mod Tests
use krepe.Prelude.{
  ℕ, ◌*◌, ◌%◌, ◌^◌, Bool, not, Option, none, some, List, Text, take, Result, ok, err, ◌>>=◌,
  if◌then◌else◌,
}
use krepe.Prelude.Int.{ℤ, pos, minus_one, is_negative, int_eq, to_bits, of_bits}
use krepe.Replay.Error.{Error, no_policy_in_dump}
use krepe.Replay.Policy.{
  IndexType, Schedule, ExecSpace, Iterate, left, right, Traits, MdRange, Team, ReplayPolicy,
  monostate, scalar_policy, range_policy, mdrange_policy, team_policy,
}
use krepe.Extract.Bounds.{index_size, is_signed}
use krepe.Kokkos
use krepe.Kokkos.{Direction, no_extras, Scratch, Policy, number, range, mdrange, team}

-- What a functor can be called with, as the compiler finds it: a number of indices, or the team
-- member of a policy.
pub record Callable : Type 0 where
  pub supports_n_args : ℕ → Bool
  pub is_team_functor : Traits → Bool

-- The width of an index type in bits.
abbrev pub width : IndexType → ℕ
width t = 8 * index_size t

-- The conversion of a stored bound to an index type, through `std::int64_t` where it is signed.
unfoldable pub to_index : IndexType → ℕ → ℤ
to_index t n =
    if is_signed t
    then of_bits (width t) (to_bits (width t) (of_bits 64 n))
    else pos (n % 2 ^ width t)

unfoldable pub get_range_policy : Traits → ℤ → ℤ → ℤ → Policy
get_range_policy t start end chunk_size = range (record {
  extras = no_extras;
  index_type = t.index_type;
  exec_space = t.exec_space;
  schedule = t.schedule;
  begin = start;
  end = end;
  chunk_size = chunk_size;
})

-- The loops copy `rank` numbers.
unfoldable pub get_mdrange_policy :
    Traits → ℕ → Direction → Direction → List ℤ → List ℤ → List ℤ → Policy
get_mdrange_policy t rank outer_dir inner_dir start end tile = mdrange (record {
  extras = no_extras;
  index_type = t.index_type;
  exec_space = t.exec_space;
  schedule = t.schedule;
  rank = rank;
  outer_direction = outer_dir;
  inner_direction = inner_dir;
  lower = take rank start;
  upper = take rank end;
  tile = take rank tile;
})

-- A negative size stands for `Kokkos::AUTO`.
abbrev pub or_auto : ℤ → Option ℤ
or_auto n = if is_negative n then none else some n

-- The sizes of the two levels are set unless the first one is -1.
abbrev pub scratch_of : Scratch → Option Scratch
scratch_of s = if not (int_eq s.team_level_0 minus_one) then some s else none

unfoldable pub get_team_policy : Traits → Team → Policy
unfolding int_eq
get_team_policy t p = team (record {
  extras = no_extras;
  index_type = t.index_type;
  exec_space = t.exec_space;
  schedule = t.schedule;
  league_size = p.league_size;
  team_size = or_auto p.team_size;
  vector_length = or_auto p.vector_length;
  scratch = scratch_of (record {
    team_level_0 = p.team_scratch_0;
    team_level_1 = p.team_scratch_1;
    thread_level_0 = p.thread_scratch_0;
    thread_level_1 = p.thread_scratch_1;
  });
  chunk_size = p.chunk_size;
})

abbrev pub direction : Iterate → Direction
direction left = Kokkos.left
direction right = Kokkos.right

-- The policy that is launched; `none` where the functor cannot be called with it, and nothing is.
unfoldable pub visit : Callable → ReplayPolicy → Result Error (Option Policy)
unfolding to_index get_range_policy get_mdrange_policy get_team_policy
visit c monostate = err no_policy_in_dump
visit c (scalar_policy n) = ok (if c.supports_n_args 1 then some (number n) else none)
visit c (range_policy begin end chunk_size t) = ok (
    if c.supports_n_args 1
    then some
        (get_range_policy t (to_index t.index_type begin) (to_index t.index_type end) chunk_size)
    else none)
visit c (mdrange_policy p t) = ok (
    if c.supports_n_args p.rank
    then some (
        get_mdrange_policy t p.rank (direction p.outer_iter_dir) (direction p.inner_iter_dir)
          p.begin p.end p.tile)
    else none)
visit c (team_policy p t) = ok (if c.is_team_functor t then some (get_team_policy t p) else none)

-- A policy that the program forces takes the place of the dump's.
unfoldable pub parallel_for : Callable → Option Policy → ReplayPolicy → Result Error (Option Policy)
unfolding visit
parallel_for c (some forced) replay_policy = ok (some forced)
parallel_for c none replay_policy = visit c replay_policy
