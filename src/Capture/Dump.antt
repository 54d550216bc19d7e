-- ===== src/Capture/Dump.antt =====
-- What goes into a dump: `write_allocation_group`, `write_snapshot`, and the writes of
-- `create_kernel_dump` and `append_kernel_output` (src/krepe/capture/view_dump.cpp), as sequences of
-- writes to a file.
pub mod Elsewhere
pub mod Snapshot
pub mod Views
pub mod Groups
pub mod Files
pub mod Tests
use krepe.Prelude.{
  ℕ, suc, ◌+◌, Bool, true, false, Option, none, some, List, [], ◌∷◌, ◌++◌, Bytes, Text, codes,
  length,
}
use krepe.Prelude.Int.{pos}
use krepe.Hdf5.{GroupPath, uint64_value, group, byte_dataset}
use krepe.Hdf5.Write.{Command, attribute, link}
use krepe.Hdf5.Actions.{Action, below}
use krepe.Capture.Names.{group_name}
use krepe.Capture.Tracker.{ActiveAllocation, AllocationSnapshot}
use krepe.Capture.Copy.{Memory, SkipReason, Copied, copy_allocation_bytes}
use krepe.Capture.Policy.Write.{
  write_string_attribute, write_uint64_attribute, write_int_attribute, write_policy,
}
use krepe.Capture.Hooks.{KernelDump}

-- The memory that is copied, how an output stream prints a pointer (`pointer_to_string`), and the
-- texts of the reasons to skip an allocation.
pub record Source : Type 0 where
  pub memory : Memory
  pub pointer_to_string : ℕ → Text
  pub message : SkipReason → Text

-- `write_dataset` of bytes
abbrev pub write_bytes : Text → Bytes → Command
write_bytes name bytes = link name (byte_dataset bytes)

abbrev pub views_of : Text → GroupPath
views_of name = name ∷ codes "views" ∷ []

-- The attributes and the group below the snapshot's group.
abbrev pub snapshot_commands : AllocationSnapshot → List Command
snapshot_commands snapshot =
    write_uint64_attribute (codes "active_allocations") (length snapshot.allocations)
    ∷ write_uint64_attribute (codes "active_bytes") snapshot.active_bytes
    ∷ link (codes "views") group
    ∷ []

unfoldable pub write_metadata : List (Text × Text) → List Command
write_metadata [] = []
write_metadata ((key, value) ∷ more) = write_string_attribute key value ∷ write_metadata more

-- A group below the file's root, and what it holds.
abbrev pub in_group : Text → List Command → List Action
in_group name commands = ([], link name group) ∷ below (name ∷ []) commands

abbrev pub root_commands : KernelDump → List Command
root_commands d =
    write_string_attribute (codes "kernel_label") d.label
    ∷ write_uint64_attribute (codes "kernel_id") d.kernel_id
    ∷ write_uint64_attribute (codes "kernel_invocation") d.kernel_invocation
    ∷ []

abbrev pub functor_commands : KernelDump → List Command
functor_commands d =
    write_bytes (codes "functor") d.functor_data
    ∷ write_bytes (codes "nvcc_inner_lambda") d.nvcc_inner_lambda_data
    ∷ []

-- What follows the snapshot of the input.
abbrev pub write_rest : KernelDump → List Action
write_rest d =
    in_group (codes "metadata") (write_metadata d.metadata)
    ++ (in_group (codes "policy") (write_policy d.policy)
        ++ in_group (codes "functor") (functor_commands d))

module _ (s : Source) where
  -- The attributes of a group up to the copy.
  abbrev pub describe : ActiveAllocation → List Command
  describe a =
      write_string_attribute (codes "label") a.recorded.label
      ∷ write_string_attribute (codes "space") a.recorded.space
      ∷ write_string_attribute (codes "ptr") (s.pointer_to_string a.ptr)
      ∷ write_string_attribute (codes "p_data") (s.pointer_to_string a.recorded.p_data)
      ∷ write_uint64_attribute (codes "size") a.recorded.size
      ∷ write_uint64_attribute (codes "reported_size") a.recorded.reported_size
      ∷ []

  -- The rest of the group, by what the copy gave.
  abbrev pub write_copy : Copied → List Command
  write_copy (none, bytes) =
      write_int_attribute (codes "bytes_dumped") (pos 1) ∷ write_bytes (codes "bytes") bytes ∷ []
  write_copy (some reason, bytes) =
      write_int_attribute (codes "bytes_dumped") (pos 0)
      ∷ write_string_attribute (codes "skip_reason") (s.message reason)
      ∷ []

  unfoldable pub group_commands : ActiveAllocation → List Command
  group_commands a = describe a ++ write_copy (copy_allocation_bytes s.memory a [])

  unfoldable pub write_allocation_group : GroupPath → ActiveAllocation → ℕ → List Action
  write_allocation_group views_group a index =
      let name = group_name index a.recorded.label in
      (views_group, link name group) ∷ below (views_group ++ name ∷ []) (group_commands a)

  -- The loop of `write_snapshot`, with its variable `i`.
  unfoldable pub write_allocations : GroupPath → ℕ → List ActiveAllocation → List Action
  write_allocations views_group i [] = []
  write_allocations views_group i (a ∷ allocations) =
      write_allocation_group views_group a i ++ write_allocations views_group (suc i) allocations

  unfoldable pub write_snapshot : Text → AllocationSnapshot → List Action
  write_snapshot name snapshot =
      (([], link name group) ∷ below (name ∷ []) (snapshot_commands snapshot))
      ++ write_allocations (views_of name) 0 snapshot.allocations

  -- What `create_kernel_dump` writes to the new file.
  unfoldable pub write_dump : KernelDump → List Action
  write_dump d =
      below [] (root_commands d) ++ (write_snapshot (codes "in") d.input_snapshot ++ write_rest d)
