-- ===== src/Replay/Launch/Tests.antt =====
-- Launches of concrete policies, and the theorem at one.
use krepe.Prelude.{
  ◌≡◌, refl, true, false, Option, none, some, [], ◌∷◌, Text, codes, ok, err, arith, ◌>>=◌,
}
use krepe.Prelude.Int.{pos, negsuc}
use krepe.Hdf5.Actions.{perform_all}
use krepe.Hdf5.Store.{
  Tables, memory_file, memory_file-IsLawful, memory_disk, memory_disk-IsReliable, empty_file,
}
use krepe.Capture.DataSize.Tests.{linux_host}
use krepe.Capture.Copy.{Memory}
use krepe.Capture.Dump.{Source, write_dump}
use krepe.Capture.Dump.Tests.{memory_dump_ok, memory_dump_opens}
use krepe.Capture.Hooks.{KernelDump, initial_tool}
use krepe.Capture.Hooks.Entries.{Entry, registers_range, enter}
use krepe.Replay.Error.{no_policy_in_dump}
use krepe.Replay.Policy.{
  Build, ExecSpace, serial, openmp, threads, hpx, cuda, hip, int32, static, monostate,
  read_policy_from_hdf5,
}
use krepe.Kokkos.{TeamPolicy, team, no_extras, RangePolicy, range}
use krepe.Extract.Bounds.{CapturedBuild, register_bounds}
use krepe.Replay.Launch.{Callable, visit}
use krepe.Replay.Launch.RoundTrip.{IsKokkosName}
use krepe.Replay.Launch.Captured.{Replayable, restored, visit-register_bounds}

abbrev kokkos_name : ExecSpace → Text
kokkos_name serial = codes "Serial"
kokkos_name openmp = codes "OpenMP"
kokkos_name threads = codes "Threads"
kokkos_name hpx = codes "HPX"
kokkos_name cuda = codes "Cuda"
kokkos_name hip = codes "HIP"

kokkos_name-IsKokkosName : IsKokkosName kokkos_name
kokkos_name-IsKokkosName = record {
  serial_name = refl;
  openmp_name = refl;
  threads_name = refl;
  hpx_name = refl;
  cuda_name = refl;
  hip_name = refl;
}

abbrev build : Build
build = record { enabled = λ e. true; has_rank_one = true }

abbrev callable : Callable
callable = record { supports_n_args = λ n. true; is_team_functor = λ t. true }

abbrev captured_build : CapturedBuild
captured_build = record {
  name = kokkos_name;
  since_5_3 = false;
  has_cuda = false;
  has_hip = false;
  unset_scratch = record {
    team_level_0 = pos 0;
    team_level_1 = pos 0;
    thread_level_0 = pos 0;
    thread_level_1 = pos 0;
  };
}

-- An index that runs below 0.
abbrev below_zero : RangePolicy
below_zero = record {
  extras = record { work_tag = some (codes "Tag"); launch_bounds = none };
  index_type = int32;
  exec_space = serial;
  schedule = static;
  begin = negsuc 4;
  end = pos 10;
  chunk_size = pos 1;
}

abbrev call : Entry
call = registers_range (codes "Serial") (codes "static") 4 true 18446744073709551611 10 (pos 1)

called : register_bounds captured_build (range below_zero) ≡ some call
unfolding register_bounds
called = refl

below_zero-Replayable : Replayable captured_build build callable (range below_zero)
below_zero-Replayable = (refl, refl, omega arith, omega arith)

-- Sizes that cannot be queried are lost.
abbrev team_with_scratch : TeamPolicy
team_with_scratch = record {
  extras = no_extras;
  index_type = int32;
  exec_space = serial;
  schedule = static;
  league_size = pos 8;
  team_size = none;
  vector_length = none;
  scratch = some (record {
    team_level_0 = pos 64;
    team_level_1 = pos 0;
    thread_level_0 = pos 16;
    thread_level_1 = pos 0;
  });
  chunk_size = pos 1;
}

scratch_lost :
    restored captured_build (team team_with_scratch)
    ≡ team (record team_with_scratch { scratch = none })
scratch_lost = refl

scratch_kept :
    restored (record captured_build { since_5_3 = true }) (team team_with_scratch)
    ≡ team team_with_scratch
scratch_kept = refl

nothing_recorded : visit callable monostate ≡ err no_policy_in_dump
unfolding visit
nothing_recorded = refl

abbrev no_memory : Memory
no_memory = record {
  cuda_dump = true;
  hip_dump = true;
  host_bytes = λ a n. [];
  cuda_memcpy = λ a n. none;
  hip_memcpy = λ a n. none;
  can_allocate = λ n. true;
}

abbrev source : Source
source = record { memory = no_memory; pointer_to_string = λ n. n ∷ []; message = λ r. [] }

abbrev dump : KernelDump
dump = record {
  input_snapshot = record { allocations = []; active_bytes = 0 };
  functor_data = [];
  nvcc_inner_lambda_data = [];
  metadata = [];
  policy = (enter linux_host call initial_tool).policy;
  label = codes "k";
  kernel_id = 1;
  kernel_invocation = 1;
}

abbrev blank_disk : Text → Option Tables
blank_disk path = none

abbrev written : Tables
written = (perform_all memory_file (write_dump source dump) empty_file).1

visit-register_bounds_example :
    (read_policy_from_hdf5
        (memory_file.get_attribute written (codes "policy" ∷ []))
        (memory_file.get_link written (codes "policy" ∷ []))
        build
      >>= visit callable)
    ≡ ok (some (range (record below_zero { extras = no_extras })))
visit-register_bounds_example =
    visit-register_bounds memory_file memory_disk source captured_build build callable linux_host
      initial_tool (range below_zero) dump blank_disk written memory_file-IsLawful
      memory_disk-IsReliable kokkos_name-IsKokkosName below_zero-Replayable call called refl
      (memory_dump_ok source dump blank_disk) (memory_dump_opens source dump blank_disk)
