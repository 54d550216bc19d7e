-- ===== src/Replay/Reader/Restored.antt =====
-- The replayer's memory after a dump of the tool.
use krepe.Prelude.{
  ℕ, ◌+◌, ◌^◌, ◌<◌, ◌≡◌, ◌≢◌, Bool, true, ◌||◌, none, some, List, [], Text, codes, length, ok, All,
}
use krepe.Prelude.Dict.{Listed}
use krepe.Hdf5.{Hdf5, IsLawful}
use krepe.Hdf5.Disk.{Disk, IsReliable}
use krepe.Capture.Tracker.{ActiveAllocation}
use krepe.Capture.Copy.{copy_allocation_bytes}
use krepe.Capture.Copy.Laws.{IsExact}
use krepe.Capture.Dump.{Source, views_of}
use krepe.Capture.Dump.Files.{create_kernel_dump}
use krepe.Capture.Hooks.{KernelDump}
use krepe.Replay.Space.{
  MemorySpaceType, Platform, same_space, is_host, memory_space_type_from_string,
}
use krepe.Replay.Ranges.{Range, granularity, Contained, Separated, Aligned, word}
use krepe.Replay.Dump.{Entry, locations}
use krepe.Replay.Load.{Memory, Restored, restore_inputs}
use krepe.Replay.Reader.{Stoull, read_entries}
use krepe.Replay.Reader.Names.{ListsLinks}
use krepe.Replay.Reader.Group.{ReadsPointers, FitsPointers}
use krepe.Replay.Reader.Restore.{Once, Distinct, CopiedFrom, restore_snapshot}
use krepe.Replay.Reader.Reserve.{space_of_view, reserve_snapshot}
use krepe.Replay.Reader.RoundTrip.{create_kernel_dump-IsWritten}

module _ (h : Hdf5) (k : Disk h) (s : Source) (l : IsLawful h) (r : IsReliable h k) where
  -- Where `create_kernel_dump` reported success, every allocation of the snapshot was copied from the
  -- memory `mem`, the replayer has a way to copy to its space, no two of them have the same address
  -- and space, and the links are listed once each in any order: the replayer restores the inputs
  -- without an error, whatever its own memory held, and then each byte of each allocation has the
  -- value that it had in `mem`, at the same address.
  pub restore_inputs-create_kernel_dump :
      (d : KernelDump) (w : k.World) (f : h.File) (stoull : Stoull) (names : List Text)
      (p : Platform) (reset : Bool) (mem now : Memory)
      → (create_kernel_dump h k s d w).0.is_ok ≡ true
      → k.open_file (create_kernel_dump h k s d w).0.filename (create_kernel_dump h k s d w).1
        ≡ some f
      → ReadsPointers s stoull
      → length d.input_snapshot.allocations < 2 ^ 64
      → All FitsPointers d.input_snapshot.allocations
      → ListsLinks h f (views_of (codes "in")) names
      → Once names
      → Distinct d.input_snapshot.allocations
      → IsExact s.memory
      → ((a : ActiveAllocation)
          → Listed a d.input_snapshot.allocations
          → CopiedFrom s mem a
            × ((is_host (memory_space_type_from_string a.recorded.space) || p.has_device) ≡ true))
      → (es : List Entry) × (read_entries h f stoull (views_of (codes "in")) names ≡ ok es)
        × ((x : Restored) × (restore_inputs p reset es
                (record { input_snapshots = []; replay_allocations = []; memory = now })
              ≡ ok x)
            × ((a : ActiveAllocation) (i : ℕ)
                → Listed a d.input_snapshot.allocations
                → i < a.recorded.size
                → let space = memory_space_type_from_string a.recorded.space in
                  x.memory space (a.recorded.p_data + i) ≡ mem space (a.recorded.p_data + i)))
  restore_inputs-create_kernel_dump d w f stoull names p reset mem now done opened back small fits
        lists once distinct exact copied =
      let written = create_kernel_dump-IsWritten h k s l r d w f done opened in
      restore_snapshot h s (codes "in") d.input_snapshot f stoull names p reset mem now
        (written.snapshot_of small) back fits lists once distinct exact copied

  -- Where `create_kernel_dump` reported success and every allocation of one space was copied and ends
  -- at least a page before the end of the address space, the replayer computes its reservations in
  -- that space from the file without an error: disjoint ranges of whole pages, in ascending order,
  -- one of which holds the whole allocation wherever it is not empty.
  pub locations-create_kernel_dump :
      (d : KernelDump) (w : k.World) (f : h.File) (stoull : Stoull) (names : List Text)
      (p : Platform) (target : MemorySpaceType) (g : ℕ)
      → (create_kernel_dump h k s d w).0.is_ok ≡ true
      → k.open_file (create_kernel_dump h k s d w).0.filename (create_kernel_dump h k s d w).1
        ≡ some f
      → ReadsPointers s stoull
      → length d.input_snapshot.allocations < 2 ^ 64
      → All FitsPointers d.input_snapshot.allocations
      → ListsLinks h f (views_of (codes "in")) names
      → IsExact s.memory
      → granularity p target ≡ ok g
      → 0 < g
      → ((a : ActiveAllocation)
          → Listed a d.input_snapshot.allocations
          → same_space (space_of_view a) target ≡ true
          → ((copy_allocation_bytes s.memory a []).0 ≡ none)
            × (a.recorded.p_data + a.recorded.size + g < word))
      → (es : List Entry) × (read_entries h f stoull (views_of (codes "in")) names ≡ ok es)
        × ((rs : List Range) × (locations p target es ≡ ok rs)
            × Separated 0 rs
            × Aligned g rs
            × ((a : ActiveAllocation)
                → Listed a d.input_snapshot.allocations
                → same_space (space_of_view a) target ≡ true
                → a.recorded.size ≢ 0
                → Contained a.recorded.p_data (a.recorded.p_data + a.recorded.size) rs))
  locations-create_kernel_dump d w f stoull names p target g done opened back small fits lists exact
        page positive here =
      let written = create_kernel_dump-IsWritten h k s l r d w f done opened in
      reserve_snapshot h s (codes "in") d.input_snapshot f stoull names p target g
        (written.snapshot_of small) back fits lists exact page positive here
