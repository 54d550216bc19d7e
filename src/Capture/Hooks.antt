-- ===== src/Capture/Hooks.antt =====
-- The state of the tool and its entry points: src/krepe/capture/kokkos_hooks.cpp. What is written
-- to the log is left out.
pub mod Entries
pub mod Kernels
pub mod Runs
pub mod Pairs
pub mod Once
pub mod Tests
use krepe.Prelude.{
  ℕ, zero, suc, ◌+◌, ◌%◌, ◌^◌, ◌≡◌, Bool, true, false, not, ◌&&◌, Option, none, some, List, [], ◌∷◌,
  Bytes, Text, codes, text_eq, has_prefix, length, drop, take, ◌==◌, if◌then◌else◌,
}
use krepe.Prelude.Int.{ℤ}
use krepe.Prelude.Dict.{Key, nat_eq, text_instance, lookup, insert, erase}
use krepe.Prelude.Decimal.{from_chars}
use krepe.Capture.Names.{label_or_unknown, is_internal_label, bounded_string}
use krepe.Capture.DataSize.{Host, allocation_data_pointer, allocation_data_size}
use krepe.Capture.Tracker.{
  AllocationTracker, AllocationSnapshot, empty_tracker, record_allocation, record_deallocation,
  record_used_allocation, clear_used_allocations, snapshot,
}
use krepe.Capture.Policy.{
  PolicyDesc, no_policy, scalar, range, mdrange, team, RangePolicyDesc, MdRangePolicyDesc,
  TeamPolicyDesc,
}

pub record KernelState : Type 0 where
  pub device_id : ℕ
  pub invocation : ℕ
  pub dump_path : Text

-- The global variables.
pub record Tool : Type 0 where
  pub next_kernel_id : ℕ
  pub kernel_states : List (ℕ × KernelState)
  pub kernel_invocations : List (Text × ℕ)
  pub tool_fence : Bool
  pub allocation_tracker : AllocationTracker
  pub functor_data : Bytes
  pub nvcc_inner_lambda_data : Bytes
  pub metadata : List (Text × Text)
  pub policy : PolicyDesc
  pub dump_kernel_label : Text
  pub dump_kernel_invocation : Option ℕ

abbrev pub initial_tool : Tool
initial_tool = record {
  next_kernel_id = 1;
  kernel_states = [];
  kernel_invocations = [];
  tool_fence = false;
  allocation_tracker = empty_tracker;
  functor_data = [];
  nvcc_inner_lambda_data = [];
  metadata = [];
  policy = no_policy;
  dump_kernel_label = [];
  dump_kernel_invocation = some 1;
}

pub record ViewDumpResult : Type 0 where
  pub is_ok : Bool
  pub filename : Text

-- What a dump of the input is made from.
pub record KernelDump : Type 0 where
  pub input_snapshot : AllocationSnapshot
  pub functor_data : Bytes
  pub nvcc_inner_lambda_data : Bytes
  pub metadata : List (Text × Text)
  pub policy : PolicyDesc
  pub label : Text
  pub kernel_id : ℕ
  pub kernel_invocation : ℕ

-- The writer of the dumps (src/krepe/capture/view_dump.cpp) and Kokkos' fence, over the files and
-- devices that they change.
pub record Dumper : Type 1 where
  pub World : Type 0
  pub create_kernel_dump : KernelDump → World → ViewDumpResult × World
  pub append_kernel_output : AllocationSnapshot → Text → World → ViewDumpResult × World
  pub fence : ℕ → World → World

-- `kernel_invocations[label]`
abbrev pub invocations : Text → Tool → ℕ
invocations label t = elim (lookup label t.kernel_invocations) [ none ↦ 0 | some n ↦ n ]

unfoldable pub should_dump_views_for_label : Text → Tool → Bool
should_dump_views_for_label label t =
    not (text_eq t.dump_kernel_label []) && text_eq label t.dump_kernel_label

unfoldable pub should_dump_views_for_invocation : Text → ℕ → Tool → Bool
unfolding should_dump_views_for_label
should_dump_views_for_invocation label invocation t = elim t.dump_kernel_invocation [
  | none ↦ false
  | some selected ↦ should_dump_views_for_label label t && invocation == selected
]

-- The part of `begin_kernel` under the first lock, with the increment of the atomic before it: the
-- kernel's id, its invocation, and whether it is dumped.
pub record Begun : Type 0 where
  pub id : ℕ
  pub invocation : ℕ
  pub dump_this_kernel : Bool
  pub tool : Tool

unfoldable pub register_kernel : Text → ℕ → Tool → Begun
unfolding lookup insert
register_kernel kernel_label device_id t =
    let id = t.next_kernel_id in
    let invocation = (invocations kernel_label t + 1) % 2 ^ 64 in
    record {
      id = id;
      invocation = invocation;
      dump_this_kernel = should_dump_views_for_invocation kernel_label invocation t;
      tool = record t {
        next_kernel_id = (id + 1) % 2 ^ 64;
        kernel_invocations = insert kernel_label invocation t.kernel_invocations;
        kernel_states =
            insert id (record { device_id = device_id; invocation = invocation; dump_path = [] })
              t.kernel_states;
      };
    }

-- The path is kept with the kernel, if it is still running and the dump was written.
unfoldable pub set_dump_path : ℕ → ViewDumpResult → Tool → Tool
unfolding lookup insert
set_dump_path id result t = elim (lookup id t.kernel_states) [
  | none ↦ t
  | some k ↦
      if result.is_ok
      then record t {
        kernel_states = insert id (record k { dump_path = result.filename }) t.kernel_states;
      }
      else t
]

-- What `end_kernel` takes from the state under the lock.
abbrev pub idle_kernel : KernelState
idle_kernel = record { device_id = 0; invocation = 0; dump_path = [] }

unfoldable pub forget_kernel : ℕ → Tool → KernelState × Tool
unfolding lookup erase
forget_kernel kernel_id t = elim (lookup kernel_id t.kernel_states) [
  | none ↦ (idle_kernel, t)
  | some k ↦ (k, record t { kernel_states = erase kernel_id t.kernel_states })
]

module _ (plugins : Bool) (d : Dumper) where
  open d use {World, create_kernel_dump, append_kernel_output, fence}

  unfoldable pub dump_input_views : Text → ℕ → ℕ → Tool → World → ViewDumpResult × Tool × World
  dump_input_views label kernel_id invocation t w =
      let (taken, tracker) = snapshot plugins t.allocation_tracker in
      let (result, w') =
        create_kernel_dump
          (record {
            input_snapshot = taken;
            functor_data = t.functor_data;
            nvcc_inner_lambda_data = t.nvcc_inner_lambda_data;
            metadata = t.metadata;
            policy = t.policy;
            label = label;
            kernel_id = kernel_id;
            kernel_invocation = invocation;
          })
          w in
      (result, record t { allocation_tracker = tracker }, w')

  unfoldable pub dump_output_views : Text → Tool → World → Tool × World
  dump_output_views dump_path t w =
      let (taken, tracker) = snapshot plugins t.allocation_tracker in
      let (result, w') = append_kernel_output taken dump_path w in
      (record t { allocation_tracker = tracker }, w')

  -- The dump of the input, for a kernel that was selected.
  unfoldable pub start_dump : Text → ℕ → ℕ → ℕ → Tool → World → Tool × World
  start_dump kernel_label device_id id invocation t w =
      let fenced = if t.tool_fence then fence device_id w else w in
      let (result, t', w') = dump_input_views kernel_label id invocation t fenced in
      (set_dump_path id result t', w')

  -- `begin_kernel`, which gives the kernel's id to Kokkos.
  unfoldable pub begin_kernel : Option Text → ℕ → Tool → World → ℕ × Tool × World
  begin_kernel label device_id t w =
      let kernel_label = label_or_unknown label in
      let b = register_kernel kernel_label device_id t in
      if b.dump_this_kernel
      then (let (t', w') = start_dump kernel_label device_id b.id b.invocation b.tool w in
          (b.id, t', w'))
      else (b.id, b.tool, w)

  unfoldable pub end_kernel : ℕ → Tool → World → Tool × World
  end_kernel kernel_id t w =
      let (k, t') = forget_kernel kernel_id t in
      if text_eq k.dump_path []
      then (t', w)
      else dump_output_views k.dump_path t' (if t.tool_fence then fence k.device_id w else w)
