-- ===== src/Replay/Session/Tests.antt =====
-- A program that replays a dump of two allocations, and the theorems at it.
use krepe.Prelude.{
  ◌≡◌, ◌↔◌, refl, true, false, none, some, [], ◌∷◌, codes, text_eq, has_prefix, ok, err,
}
use krepe.Prelude.Dict.{text_instance}
use krepe.Replay.Error.{already_initialized, guard_owned_by_user}
use krepe.Replay.Space.{memory_space_type_from_string}
use krepe.Replay.Ranges.{compute_allocations, align_range, insert_range, get_allocation_address}
use krepe.Replay.Cli.{find_cli_flag, find_cli_option}
use krepe.Replay.Dump.{
  check_byte_dataset, get_hdf5_dataset_alloc_info, locations, allocate_hdf5_dataset,
}
use krepe.Replay.Dump.Tests.{cpu, entries}
use krepe.Replay.Load.{
  copy_data, restore_input, visit_input, restore_inputs, restore_outputs, visit_output,
  allocate_output,
}
use krepe.Replay.Session.{
  Session, Machine, ScopeGuard, DumpFile, user, initialize, finalize, construct, open_file, load,
  restore, reserve, reserve_device, read_globals, read_outputs, read_arguments, publish,
}
use krepe.Replay.Session.Guards.{IsSession}
use krepe.Replay.Session.Finalize.{finalize_lem}
use krepe.Replay.Session.Once.{
  initializes, finalizes, constructs, resets, run, run-IsSession, run_once,
}

abbrev dump : DumpFile
dump = record {
  inputs = entries;
  metadata = (codes "n", codes "3") ∷ [];
  functor = some (1 ∷ 2 ∷ []);
  policy_error = none;
  outputs = some entries;
}

abbrev machine : Machine
machine = record {
  platform = cpu;
  open_dump = λ name. some dump;
  device_init = true;
  can_reserve = λ space r. true;
  fresh = λ info. 70000;
}

abbrev start : Session
start = record {
  krepe_is_initialized = false;
  input_reset_enabled = false;
  initialize_internal_scope_guard = none;
  user_guard = none;
  scope_guard = none;
  replay_allocations = none;
  metadata = [];
  functor_data = [];
  memory = λ s a. 0;
  arguments = record { argc = 2; argv = codes "prog" ∷ codes "--kernel-replayer-dump=f.h5" ∷ [] };
}

start-IsSession : IsSession start
start-IsSession = record { same_guard = refl; alive = (refl, refl) }

abbrev active : Session
active = (initialize machine start).1

loaded : (initialize machine start).0 ≡ ok tt
unfolding initialize construct open_file load restore reserve_device reserve read_globals
    read_outputs read_arguments locations get_hdf5_dataset_alloc_info check_byte_dataset
    allocate_hdf5_dataset memory_space_type_from_string restore_inputs visit_input restore_input
    copy_data restore_outputs visit_output allocate_output find_cli_flag find_cli_option text_eq
    has_prefix get_allocation_address compute_allocations insert_range align_range
loaded = refl

active_initialized : active.krepe_is_initialized ≡ true
unfolding initialize construct open_file load restore reserve_device reserve read_globals
    read_outputs read_arguments locations get_hdf5_dataset_alloc_info check_byte_dataset
    allocate_hdf5_dataset memory_space_type_from_string restore_inputs visit_input restore_input
    copy_data restore_outputs visit_output allocate_output find_cli_flag find_cli_option text_eq
    has_prefix publish get_allocation_address compute_allocations insert_range align_range
active_initialized = refl

run-IsSession_example :
    IsSession (run machine (initializes ∷ resets true ∷ finalizes ∷ constructs ∷ []) start)
run-IsSession_example =
    run-IsSession machine (initializes ∷ resets true ∷ finalizes ∷ constructs ∷ []) start
      start-IsSession

run_once_example :
    let u = run machine (finalizes ∷ []) active in
    (initialize machine u ≡ (err already_initialized, u))
    × (construct machine user u ≡ (err already_initialized, u))
run_once_example = run_once machine (finalizes ∷ []) active active_initialized

finalize_lem_example :
    (((finalize start).0 ≡ ok tt) ↔ ((false ≡ true) × ((g : ScopeGuard) × (none ≡ some g))))
    × ((finalize start).0 ≡ ok tt
        → ((finalize start).1.scope_guard ≡ none)
          × ((finalize start).1.replay_allocations ≡ none)
          × ((finalize start).1.initialize_internal_scope_guard ≡ none))
    × ((finalize start).1.user_guard ≡ none)
    × ((finalize start).0 ≡ err guard_owned_by_user → none ≡ some user)
finalize_lem_example = finalize_lem start start-IsSession
