-- ===== src/Capture/Dump/Tests.antt =====
-- Writes of a dump at concrete allocations, and on a disk in memory.
use krepe.Prelude.{◌≡◌, refl, true, false, Option, none, some, List, [], ◌∷◌, Text, codes}
use krepe.Prelude.Int.{pos}
use krepe.Hdf5.{string_value, int_value, uint64_value}
use krepe.Hdf5.Write.{attribute, link}
use krepe.Hdf5.Actions.{Action, perform_all}
use krepe.Hdf5.Disk.{Disk, write_file}
use krepe.Hdf5.Store.{Tables, memory_file, memory_disk, empty_file, reopened}
use krepe.Capture.Names.{dump_filename}
use krepe.Capture.Tracker.{ActiveAllocation}
use krepe.Capture.Policy.{no_policy}
use krepe.Capture.Copy.{Memory, copy_allocation_bytes}
use krepe.Capture.Dump.{Source, group_commands, write_dump}
use krepe.Capture.Dump.Files.{create_kernel_dump, append_kernel_output}
use krepe.Capture.Hooks.{KernelDump}

abbrev no_memory : Memory
no_memory = record {
  cuda_dump = false;
  hip_dump = false;
  host_bytes = λ a n. [];
  cuda_memcpy = λ a n. none;
  hip_memcpy = λ a n. none;
  can_allocate = λ n. true;
}

abbrev source : Source
source = record { memory = no_memory; pointer_to_string = λ n. n ∷ []; message = λ r. codes "why" }

-- An allocation of unknown size.
abbrev unbounded_view : ActiveAllocation
unbounded_view = record {
  ptr = 7;
  recorded = record {
    label = codes "x";
    space = codes "Host";
    p_data = 9;
    size = 0;
    reported_size = 40;
    data_size_known = false;
  };
}

skipped :
    group_commands source unbounded_view
    ≡ attribute (codes "label") (string_value (b'x' ∷ 0 ∷ []))
      ∷ attribute (codes "space") (string_value (b'H' ∷ b'o' ∷ b's' ∷ b't' ∷ 0 ∷ []))
      ∷ attribute (codes "ptr") (string_value (7 ∷ 0 ∷ []))
      ∷ attribute (codes "p_data") (string_value (9 ∷ 0 ∷ []))
      ∷ attribute (codes "size") (uint64_value 0)
      ∷ attribute (codes "reported_size") (uint64_value 40)
      ∷ attribute (codes "bytes_dumped") (int_value (pos 0))
      ∷ attribute (codes "skip_reason") (string_value (b'w' ∷ b'h' ∷ b'y' ∷ 0 ∷ []))
      ∷ []
unfolding group_commands copy_allocation_bytes
skipped = refl

abbrev empty_dump : KernelDump
empty_dump = record {
  input_snapshot = record { allocations = []; active_bytes = 0 };
  functor_data = [];
  nvcc_inner_lambda_data = [];
  metadata = [];
  policy = no_policy;
  label = codes "k";
  kernel_id = 1;
  kernel_invocation = 1;
}

abbrev full_disk : Disk memory_file
full_disk = record memory_disk { create_file = λ path w. none }

not_created :
    (create_kernel_dump memory_file full_disk source empty_dump (λ path. none)).0.is_ok ≡ false
unfolding create_kernel_dump
not_created = refl

nothing_to_append :
    (append_kernel_output memory_file memory_disk source empty_dump.input_snapshot
      (codes "k.h5")
      (λ path. none)).0.is_ok
    ≡ false
unfolding append_kernel_output
nothing_to_append = refl

pub always_done : (xs : List Action) (f : Tables) → (perform_all memory_file xs f).0 ≡ true
unfolding perform_all
always_done [] f = refl
always_done ((p, attribute n v) ∷ xs) f = always_done xs _
always_done ((p, link n v) ∷ xs) f = always_done xs _

-- On the disk in memory every dump is written.
pub memory_dump_ok :
    (s : Source) (d : KernelDump) (w : Text → Option Tables)
    → (create_kernel_dump memory_file memory_disk s d w).0.is_ok ≡ true
unfolding create_kernel_dump write_file
memory_dump_ok s d w = rw (always_done (write_dump s d) empty_file) refl

pub memory_dump_opens :
    (s : Source) (d : KernelDump) (w : Text → Option Tables)
    → memory_disk.open_file
        (create_kernel_dump memory_file memory_disk s d w).0.filename
        (create_kernel_dump memory_file memory_disk s d w).1
      ≡ some (perform_all memory_file (write_dump s d) empty_file).1
unfolding create_kernel_dump write_file
memory_dump_opens s d w = rw (always_done (write_dump s d) empty_file) (
    reopened (dump_filename d.label d.kernel_id)
      (perform_all memory_file (write_dump s d) empty_file).1 w)
