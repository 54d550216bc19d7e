-- ===== src/Replay/Session.antt =====
-- The life of a replay: the constructor and the destructor of `ScopeGuard`, `initialize`,
-- `finalize`, `reset_inputs` and `get_metadata` of src/krepe/replay/kernel_replayer.cpp.
pub mod Guards
pub mod Finalize
pub mod Once
pub mod Tests
use krepe.Prelude.{
  ℕ, Bool, true, false, not, ◌&&◌, ◌||◌, Option, none, some, List, [], ◌∷◌, Bytes, Text, codes,
  Result, ok, err, if◌then◌else◌,
}
use krepe.Prelude.Dict.{Key, text_instance, lookup, insert}
use krepe.Replay.Error.{
  Error, hdf5_failed, device_failed, reservation_failed, no_device_space, already_initialized,
  dump_flag_expected, not_initialized, guard_owned_by_user, already_finalized, reset_disabled,
  outside_kokkos,
}
use krepe.Replay.Space.{MemorySpaceType, host, device, is_host, Platform}
use krepe.Replay.Ranges.{Range}
use krepe.Replay.Cli.{Arguments, OptionSearch, find_cli_flag, find_cli_option}
use krepe.Replay.Dump.{SnapshotAllocation, Entry, locations}
use krepe.Replay.Store.{ReplayAllocations}
use krepe.Replay.Load.{Memory, InputSnapshot, Restored, restore_inputs, restore_outputs, reset_loop}

-- A dump as the HDF5 library shows it: the groups of `in/views`, the attributes of `metadata`, the
-- dataset of the functor, what the reading of the policy throws, and the groups of `out/views` if
-- there are any.
pub record DumpFile : Type 0 where
  pub inputs : List Entry
  pub metadata : List (Text × Text)
  pub functor : Option Bytes
  pub policy_error : Option Error
  pub outputs : Option (List Entry)

-- The machine: which dumps can be opened, whether `device_init` succeeds, which ranges can be
-- reserved (`mmap` or the driver of the device gives exactly that range), and the address of the
-- copy of an output.
pub record Machine : Type 0 where
  pub platform : Platform
  pub open_dump : Text → Option DumpFile
  pub device_init : Bool
  pub can_reserve : MemorySpaceType → Range → Bool
  pub fresh : SnapshotAllocation → ℕ

pub record ScopeGuard : Type 0 where
  pub host_raw_allocations : List Range
  pub device_raw_allocations : List Range
  pub input_snapshots : List InputSnapshot
  pub replay_allocations : ReplayAllocations

-- Who owns a guard: `initialize_internal_scope_guard`, or the user.
pub data Owner : Type 0 where
  internal user : Owner

-- The global variables, with the guards that exist; `replay_allocations` and `scope_guard` point to
-- the guard of that owner or are null.
pub record Session : Type 0 where
  pub krepe_is_initialized : Bool
  pub input_reset_enabled : Bool
  pub initialize_internal_scope_guard : Option ScopeGuard
  pub user_guard : Option ScopeGuard
  pub scope_guard : Option Owner
  pub replay_allocations : Option Owner
  pub metadata : List (Text × Text)
  pub functor_data : Bytes
  pub memory : Memory
  pub arguments : Arguments

unfoldable pub reserve_all : Machine → MemorySpaceType → List Range → Bool
reserve_all x space [] = true
reserve_all x space (r ∷ rs) = x.can_reserve space r && reserve_all x space rs

-- The ranges of a space, reserved. `allocate` throws for a device with no device space.
unfoldable pub reserve : Machine → MemorySpaceType → List Entry → Result Error (List Range)
unfolding reserve_all
reserve x space es = elim (locations x.platform space es) [
  | err z ↦ err z
  | ok rs ↦ if reserve_all x space rs then ok rs else err reservation_failed
]

-- The device is initialized behind the reservations on the host.
unfoldable pub reserve_device : Machine → List Entry → Result Error (List Range)
unfolding reserve
reserve_device x es = if x.device_init then reserve x device es else err device_failed

-- `metadata.insert`, which keeps the value of a key that is there.
unfoldable pub read_metadata : List (Text × Text) → List (Text × Text) → List (Text × Text)
unfolding lookup insert
read_metadata [] known = known
read_metadata ((key, value) ∷ more) known =
    read_metadata more (elim (lookup key known) [ none ↦ insert key value known | some v ↦ known ])

-- The constructor up to the inputs: the reservations are given back when it throws.
unfoldable pub restore : Machine → DumpFile → Session → Result Error (ScopeGuard × Memory)
unfolding reserve reserve_device
restore x f t = elim (reserve x host f.inputs) [
  | err z ↦ err z
  | ok on_host ↦ elim (reserve_device x f.inputs) [
    | err z ↦ err z
    | ok on_device ↦
        elim (restore_inputs x.platform t.input_reset_enabled f.inputs
          (record { input_snapshots = []; replay_allocations = []; memory = t.memory })) [
            | err z ↦ err z
            | ok r ↦ ok (
              record {
                host_raw_allocations = on_host;
                device_raw_allocations = on_device;
                input_snapshots = r.input_snapshots;
                replay_allocations = r.replay_allocations;
              },
              r.memory,
            )
          ]
  ]
]

-- From the inputs to the outputs: what it throws, if anything, and the global variables.
unfoldable pub read_globals : DumpFile → Session → Option Error × Session
read_globals f t =
    let t' = record t { metadata = read_metadata f.metadata t.metadata } in
    elim f.functor [
      | none ↦ (some hdf5_failed, t')
      | some bytes ↦ (f.policy_error, record t' { functor_data = bytes })
    ]

unfoldable pub read_outputs : Machine → DumpFile → ScopeGuard → Result Error ScopeGuard
read_outputs x f g = elim f.outputs [
  | none ↦ ok g
  | some es ↦ elim (restore_outputs x.platform x.fresh es g.replay_allocations) [
    | err z ↦ err z
    | ok all ↦ ok (record g { replay_allocations = all })
  ]
]

-- The constructor, once the file is open.
unfoldable pub load : Machine → DumpFile → Session → Result Error ScopeGuard × Session
unfolding read_globals
load x f t = elim (restore x f t) [
  | err z ↦ (err z, t)
  | ok (g, m) ↦
      let (failure, t') = read_globals f (record t { memory = m }) in
      elim failure [ some z ↦ (err z, t') | none ↦ (read_outputs x f g, t') ]
]

abbrev pub reset_flag : Text
reset_flag = codes "--kernel-replayer-enable-input-reset"

abbrev pub dump_flag : Text
dump_flag = codes "--kernel-replayer-dump"

-- The constructor's arguments are taken out of the command line before anything can fail.
unfoldable pub read_arguments : Session → Option Text × Session
read_arguments t =
    let (reset, a) = find_cli_flag t.arguments reset_flag in
    let found = find_cli_option a dump_flag in
    (found.argument, record t { input_reset_enabled = reset; arguments = found.left })

unfoldable pub set_guard : Owner → Option ScopeGuard → Session → Session
set_guard internal g t = record t { initialize_internal_scope_guard = g }
set_guard user g t = record t { user_guard = g }

-- The end of the constructor.
unfoldable pub publish : Owner → ScopeGuard → Session → Session
unfolding set_guard
publish o g t = record (set_guard o (some g) t) {
  replay_allocations = some o;
  krepe_is_initialized = true;
  scope_guard = some o;
}

unfoldable pub open_file : Machine → Owner → Text → Session → Result Error (Unit {0}) × Session
open_file x o filename t = elim (x.open_dump filename) [
  | none ↦ (err hdf5_failed, t)
  | some f ↦
      let (loaded, t') = load x f t in
      elim loaded [ err z ↦ (err z, t') | ok g ↦ (ok tt, publish o g t') ]
]

unfoldable pub construct : Machine → Owner → Session → Result Error (Unit {0}) × Session
construct x o t =
    let (filename, t') = read_arguments t in
    if t.krepe_is_initialized
    then (err already_initialized, t)
    else elim filename [ none ↦ (err dump_flag_expected, t') | some name ↦ open_file x o name t' ]

abbrev pub same_owner : Owner → Owner → Bool
same_owner internal internal = true
same_owner user user = true
same_owner _ _ = false

-- The pointer, unless it points to the guard of this owner.
abbrev pub unless_owned : Owner → Option Owner → Option Owner
unless_owned o none = none
unless_owned o (some p) = if same_owner p o then none else some p

-- The destructor of the guard of this owner.
unfoldable pub destroy : Owner → Session → Session
unfolding set_guard
destroy o t = record (set_guard o none t) {
  replay_allocations = unless_owned o t.replay_allocations;
  scope_guard = none;
}

unfoldable pub initialize : Machine → Session → Result Error (Unit {0}) × Session
initialize x t =
    if t.krepe_is_initialized then (err already_initialized, t) else construct x internal t

unfoldable pub finalize : Session → Result Error (Unit {0}) × Session
finalize t =
    if not t.krepe_is_initialized
    then (err not_initialized, t)
    else elim t.initialize_internal_scope_guard [
      | some g ↦ (ok tt, destroy internal t)
      | none ↦ elim t.scope_guard [
        | some o ↦ (err guard_owned_by_user, t)
        | none ↦ (err already_finalized, t)
      ]
    ]

abbrev pub guard_of : Owner → Session → Option ScopeGuard
guard_of internal t = t.initialize_internal_scope_guard
guard_of user t = t.user_guard

-- `reset_inputs` of the guard; whether Kokkos is running is asked of Kokkos.
unfoldable pub reset_guard :
    Platform → Bool → ScopeGuard → Session → Result Error (Unit {0}) × Session
reset_guard p kokkos_runs g t =
    if not t.input_reset_enabled
    then (err reset_disabled, t)
    else if not kokkos_runs
    then (err outside_kokkos, t)
    else elim (reset_loop p g.input_snapshots t.memory) [
      | err z ↦ (err z, t)
      | ok m ↦ (ok tt, record t { memory = m })
    ]

-- Where the guard that is pointed to does not exist, the call is treated like one with a null pointer.
unfoldable pub reset_inputs : Platform → Bool → Session → Result Error (Unit {0}) × Session
reset_inputs p kokkos_runs t = elim t.scope_guard [
  | none ↦ (err not_initialized, t)
  | some o ↦ elim (guard_of o t) [
    | none ↦ (err not_initialized, t)
    | some g ↦ reset_guard p kokkos_runs g t
  ]
]

unfoldable pub get_metadata : Text → Session → Option Text
get_metadata key t = lookup key t.metadata
