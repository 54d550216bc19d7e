-- ===== src/Kokkos.antt =====
-- What both sides see of an execution policy of Kokkos: its template arguments, with what its members
-- answer to the extractor, or what the replayer passes to its constructor. The types of index
-- types, schedules and spaces are those that the replayer knows.
use krepe.Prelude.{ℕ, Option, none, List, Text}
use krepe.Prelude.Int.{ℤ}
use krepe.Replay.Policy.{IndexType, Schedule, ExecSpace}

-- `Kokkos::Iterate`
pub data Direction : Type 0 where
  left right unresolved : Direction

-- Template arguments that the types of the replayer have no place for: the name of a `WorkTag`, the
-- two numbers of `LaunchBounds`.
pub record Extras : Type 0 where
  pub work_tag : Option Text
  pub launch_bounds : Option (ℕ × ℕ)

abbrev pub no_extras : Extras
no_extras = record { work_tag = none; launch_bounds = none }

pub record RangePolicy : Type 0 where
  pub extras : Extras
  pub index_type : IndexType
  pub exec_space : ExecSpace
  pub schedule : Schedule
  pub begin : ℤ
  pub end : ℤ
  pub chunk_size : ℤ

pub record MdRangePolicy : Type 0 where
  pub extras : Extras
  pub index_type : IndexType
  pub exec_space : ExecSpace
  pub schedule : Schedule
  pub rank : ℕ
  pub outer_direction : Direction
  pub inner_direction : Direction
  pub lower : List ℤ
  pub upper : List ℤ
  pub tile : List ℤ

pub record Scratch : Type 0 where
  pub team_level_0 : ℤ
  pub team_level_1 : ℤ
  pub thread_level_0 : ℤ
  pub thread_level_1 : ℤ

-- `none` for `Kokkos::AUTO`, and for scratch sizes that are not set.
pub record TeamPolicy : Type 0 where
  pub extras : Extras
  pub index_type : IndexType
  pub exec_space : ExecSpace
  pub schedule : Schedule
  pub league_size : ℤ
  pub team_size : Option ℤ
  pub vector_length : Option ℤ
  pub scratch : Option Scratch
  pub chunk_size : ℤ

pub data Policy : Type 0 where
  number : ℕ → Policy
  range : RangePolicy → Policy
  mdrange : MdRangePolicy → Policy
  team : TeamPolicy → Policy
