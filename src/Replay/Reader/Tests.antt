-- ===== src/Replay/Reader/Tests.antt =====
-- A dump with one allocation of the host, written to a file in memory and read from it.
use krepe.Prelude.{
  ℕ, ◌+◌, ◌<◌, ◌≡◌, ◌≢◌, ◌↔◌, refl, inl, inr, true, ◌||◌, none, some, List, [], ◌∷◌, Text, codes,
  arith, ok,
}
use krepe.Prelude.Dict.{Listed}
use krepe.Hdf5.Store.{memory_file, memory_file-IsLawful}
use krepe.Capture.Tracker.{ActiveAllocation}
use krepe.Capture.Copy.{copy_allocation_bytes}
use krepe.Capture.Dump.{views_of}
use krepe.Hdf5.Store.{memory_disk, memory_disk-IsReliable}
use krepe.Replay.Space.{host, memory_space_type_from_string, is_host, same_space}
use krepe.Replay.Ranges.{Range, granularity, Contained, Separated, Aligned, word}
use krepe.Replay.Dump.{Entry, locations}
use krepe.Prelude.{text_eq_iff}
use krepe.Prelude.Dict.{lookup, text_instance}
use krepe.Replay.Dump.Tests.{cpu}
use krepe.Replay.Policy.{Build, read_policy_from_hdf5}
use krepe.Replay.Policy.RoundTrip.{policy_of}
use krepe.Replay.Reader.{read_metadata_values, read_functor_from_hdf5}
use krepe.Replay.Reader.Names.{All2}
use krepe.Replay.Reader.RoundTrip.{
  read_entries-create_kernel_dump, read_entries-append_kernel_output,
  read_policy-create_kernel_dump, read_functor-create_kernel_dump,
}
use krepe.Replay.Reader.Metadata.{HasValue, read_metadata-create_kernel_dump}
use krepe.Replay.Reader.Restored.{restore_inputs-create_kernel_dump, locations-create_kernel_dump}
use krepe.Replay.Load.{Memory, Restored, restore_inputs}
use krepe.Replay.Reader.{read_entries}
use krepe.Replay.Reader.Inputs.{IsEntryOf}
use krepe.Replay.Reader.Restore.{CopiedFrom}
use krepe.Replay.Reader.Reserve.{space_of_view}
use krepe.Replay.Reader.Fixture.{
  pattern, captured, captured-IsExact, source, zeroed_source, parse, parse_back, view, dump, names,
  blank_disk, written, created_ok, created_opens, output, with_output, appended_ok, appended_opens,
  only_view, view-CopiedFrom, view_CanCopy, written_lists, output_lists_in, output_lists_out,
}

read_entries-create_kernel_dump_example :
    (es : List Entry) × (read_entries memory_file written parse (views_of (codes "in")) names
      ≡ ok es)
    × ((e : Entry) → Listed e es ↔ IsEntryOf source dump.input_snapshot e)
read_entries-create_kernel_dump_example =
    read_entries-create_kernel_dump memory_file memory_disk source memory_file-IsLawful
      memory_disk-IsReliable dump blank_disk written parse names created_ok created_opens parse_back
      (omega arith) ((omega arith, omega arith), tt) written_lists

read_entries-append_kernel_output_example :
    ((es : List Entry) × (read_entries memory_file with_output parse (views_of (codes "in")) names
        ≡ ok es)
      × ((e : Entry) → Listed e es ↔ IsEntryOf source dump.input_snapshot e))
    × ((es : List Entry) × (read_entries memory_file with_output parse
            (views_of (codes "out"))
            names
          ≡ ok es)
        × ((e : Entry) → Listed e es ↔ IsEntryOf zeroed_source output e))
read_entries-append_kernel_output_example =
    read_entries-append_kernel_output memory_file memory_disk source memory_file-IsLawful
      memory_disk-IsReliable zeroed_source dump output blank_disk written with_output parse names
      names created_ok created_opens appended_ok appended_opens parse_back parse_back (omega arith)
      ((omega arith, omega arith), tt) (omega arith) ((omega arith, omega arith), tt)
      output_lists_in output_lists_out

abbrev cpu_build : Build
cpu_build = record { enabled = λ e. true; has_rank_one = true }

read_policy-create_kernel_dump_example :
    read_policy_from_hdf5
      (memory_file.get_attribute written (codes "policy" ∷ []))
      (memory_file.get_link written (codes "policy" ∷ []))
      cpu_build
    ≡ policy_of cpu_build dump.policy
read_policy-create_kernel_dump_example =
    read_policy-create_kernel_dump memory_file memory_disk source memory_file-IsLawful
      memory_disk-IsReliable dump blank_disk written cpu_build created_ok created_opens
      (omega arith)

read_functor-create_kernel_dump_example :
    (read_functor_from_hdf5 memory_file written (codes "functor") ≡ some (1 ∷ 2 ∷ []))
    × (read_functor_from_hdf5 memory_file written (codes "nvcc_inner_lambda") ≡ some [])
read_functor-create_kernel_dump_example =
    read_functor-create_kernel_dump memory_file memory_disk source memory_file-IsLawful
      memory_disk-IsReliable dump blank_disk written created_ok created_opens

known_key : (name : Text) → Listed name (codes "n" ∷ []) → lookup name dump.metadata ≢ none
unfolding lookup
known_key name (inl here) missing = absurd (ground (arith, text_eq_iff (codes "n") name, here))
known_key name (inr there) missing = there

read_metadata-create_kernel_dump_example :
    (out : List (Text × Text)) × (read_metadata_values memory_file written (codes "n" ∷ [])
      ≡ ok out)
    × All2 (HasValue dump.metadata) (codes "n" ∷ []) out
unfolding lookup
read_metadata-create_kernel_dump_example =
    read_metadata-create_kernel_dump memory_file memory_disk source memory_file-IsLawful
      memory_disk-IsReliable dump blank_disk written (codes "n" ∷ []) created_ok created_opens
      (refl, tt) known_key

abbrev zeroed : Memory
zeroed s a = 0

restore_inputs-create_kernel_dump_example :
    (es : List Entry) × (read_entries memory_file written parse (views_of (codes "in")) names
      ≡ ok es)
    × ((r : Restored) × (restore_inputs cpu true es
            (record { input_snapshots = []; replay_allocations = []; memory = zeroed })
          ≡ ok r)
        × ((a : ActiveAllocation) (i : ℕ)
            → Listed a (view ∷ [])
            → i < a.recorded.size
            → let space = memory_space_type_from_string a.recorded.space in
              r.memory space (a.recorded.p_data + i) ≡ pattern space (a.recorded.p_data + i)))
restore_inputs-create_kernel_dump_example =
    restore_inputs-create_kernel_dump memory_file memory_disk source memory_file-IsLawful
      memory_disk-IsReliable dump blank_disk written parse names cpu true pattern zeroed created_ok
      created_opens parse_back (omega arith) ((omega arith, omega arith), tt) written_lists
      (λ l. l, tt) (λ b l. elim l [ ], tt) captured-IsExact
      (only_view
        (λ a.
          CopiedFrom source pattern a
          × ((is_host (memory_space_type_from_string a.recorded.space) || cpu.has_device) ≡ true))
        (view-CopiedFrom, view_CanCopy))

locations-create_kernel_dump_example :
    (es : List Entry) × (read_entries memory_file written parse (views_of (codes "in")) names
      ≡ ok es)
    × ((rs : List Range) × (locations cpu host es ≡ ok rs)
        × Separated 0 rs
        × Aligned 4096 rs
        × ((a : ActiveAllocation)
            → Listed a (view ∷ [])
            → same_space (space_of_view a) host ≡ true
            → a.recorded.size ≢ 0
            → Contained a.recorded.p_data (a.recorded.p_data + a.recorded.size) rs))
unfolding granularity
locations-create_kernel_dump_example =
    locations-create_kernel_dump memory_file memory_disk source memory_file-IsLawful
      memory_disk-IsReliable dump blank_disk written parse names cpu host 4096 created_ok
      created_opens parse_back (omega arith) ((omega arith, omega arith), tt) written_lists
      captured-IsExact refl (omega arith)
      (only_view
        (λ a.
          same_space (space_of_view a) host ≡ true
          → ((copy_allocation_bytes captured a []).0 ≡ none)
            × (a.recorded.p_data + a.recorded.size + 4096 < word))
        (λ here. (view-CopiedFrom.0, omega arith)))
