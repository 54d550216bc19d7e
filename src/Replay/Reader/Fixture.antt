-- ===== src/Replay/Reader/Fixture.antt =====
-- A dump with one allocation of the host, written to a file in memory.
use mathlib.Core.Path.{subst}
use krepe.Prelude.{
  ℕ, zero, suc, ◌+◌, ◌%◌, ◌≡◌, refl, sym, ap, inl, inr, true, false, ◌||◌, Option, none, some, List,
  [], ◌∷◌, Bytes, Text, codes, text_eq, arith, length, get_elem?,
}
use krepe.Prelude.Dict.{Listed}
use krepe.Prelude.Decimal.{to_string, from_chars, from_chars-to_string}
use krepe.Hdf5.Actions.{perform_all}
use krepe.Hdf5.Store.{Tables, memory_file, memory_file-IsLawful, empty_file, reopened}
use krepe.Capture.Names.{group_name}
use krepe.Capture.Tracker.{ActiveAllocation, AllocationSnapshot}
use krepe.Prelude.Int.{pos}
use krepe.Capture.Policy.{range}
use krepe.Capture.Copy.{
  Memory as CapturedMemory, zeros, copy_allocation_bytes, is_host_accessible_space, Copied,
}
use krepe.Capture.Copy.Laws.{IsExact, copy_allocation_bytes-IsCopyOf}
use krepe.Capture.Dump.{Source, write_dump, write_snapshot, views_of}
use krepe.Capture.Hooks.{KernelDump, ViewDumpResult}
use krepe.Capture.Dump.Files.{create_kernel_dump, append_kernel_output}
use krepe.Hdf5.Disk.{write_file}
use krepe.Hdf5.Store.{memory_disk, memory_disk-IsReliable}
use krepe.Capture.Dump.Tests.{always_done, memory_dump_ok, memory_dump_opens}
use krepe.Replay.Space.{host, memory_space_type_from_string, is_host}
use krepe.Prelude.Dict.{text_instance}
use krepe.Replay.Dump.Tests.{cpu}
use krepe.Replay.Reader.Writes.{HoldsSnapshot-kept, write_snapshot-HoldsSnapshot}
use krepe.Replay.Reader.RoundTrip.{IsWritten, create_kernel_dump-IsWritten}
use krepe.Replay.Load.{Memory}
use krepe.Replay.Reader.{Stoull}
use krepe.Replay.Reader.Names.{ListsLinks}
use krepe.Replay.Reader.Inputs.{HoldsSnapshot}
use krepe.Replay.Reader.Group.{ReadsPointers}
use krepe.Replay.Reader.Restore.{CopiedFrom}

-- A memory with the low byte of its own address at each address.
abbrev pub pattern : Memory
pattern s a = a % 256

abbrev pattern_bytes : ℕ → ℕ → Bytes
pattern_bytes a zero = []
pattern_bytes a (suc n) = a % 256 ∷ pattern_bytes (suc a) n

length-pattern_bytes : (a n : ℕ) → length (pattern_bytes a n) ≡ n
length-pattern_bytes a zero = refl
length-pattern_bytes a (suc n) = omega (arith, length-pattern_bytes (suc a) n)

get_elem?-pattern_bytes :
    (a n i b : ℕ) → get_elem? (pattern_bytes a n) i ≡ some b → b ≡ (a + i) % 256
get_elem?-pattern_bytes a zero i b e = absurd (ground arith)
get_elem?-pattern_bytes a (suc n) zero b e = ground arith
get_elem?-pattern_bytes a (suc n) (suc i) b e =
    ground (arith, get_elem?-pattern_bytes (suc a) n i b e)

abbrev pub captured : CapturedMemory
captured = record {
  cuda_dump = false;
  hip_dump = false;
  host_bytes = pattern_bytes;
  cuda_memcpy = λ a n. none;
  hip_memcpy = λ a n. none;
  can_allocate = λ n. true;
}

pub captured-IsExact : IsExact captured
captured-IsExact = record {
  host_exact = length-pattern_bytes;
  cuda_exact = λ a n. tt;
  hip_exact = λ a n. tt;
}

abbrev pub source : Source
source = record { memory = captured; pointer_to_string = to_string; message = λ r. codes "skipped" }

-- The kernel has set every byte to 0.
abbrev pub zeroed_source : Source
zeroed_source = record source { memory = record captured { host_bytes = λ a n. zeros n } }

abbrev pub parse : Stoull
parse t = elim (from_chars t) [ none ↦ none | some (n, rest) ↦ some n ]

pub parse_back : ReadsPointers source parse
parse_back n h = rw (from_chars-to_string n h, parse) refl

abbrev pub view : ActiveAllocation
view = record {
  ptr = 4900;
  recorded = record {
    label = codes "x";
    space = codes "Host";
    p_data = 5000;
    size = 300;
    reported_size = 400;
    data_size_known = true;
  };
}

abbrev pub dump : KernelDump
dump = record {
  input_snapshot = record { allocations = view ∷ []; active_bytes = 300 };
  functor_data = 1 ∷ 2 ∷ [];
  nvcc_inner_lambda_data = [];
  metadata = (codes "n", codes "10") ∷ [];
  policy = range (record {
    index_type_desc = record { size = 8; is_signed = false };
    space = codes "Serial";
    schedule = codes "static";
    begin = 2;
    end = 20;
    chunk_size = pos 4;
  });
  label = codes "k";
  kernel_id = 1;
  kernel_invocation = 1;
}

abbrev pub names : List Text
names = group_name 0 (codes "x") ∷ []

abbrev pub blank_disk : Text → Option Tables
blank_disk path = none

abbrev created : ViewDumpResult × (Text → Option Tables)
created = create_kernel_dump memory_file memory_disk source dump blank_disk

abbrev pub written : Tables
written = (perform_all memory_file (write_dump source dump) empty_file).1

pub created_ok : created.0.is_ok ≡ true
created_ok = memory_dump_ok source dump blank_disk

pub created_opens : memory_disk.open_file created.0.filename created.1 ≡ some written
created_opens = memory_dump_opens source dump blank_disk

abbrev pub output : AllocationSnapshot
output = record { allocations = view ∷ []; active_bytes = 300 }

abbrev appended : ViewDumpResult × (Text → Option Tables)
appended =
    append_kernel_output memory_file memory_disk zeroed_source output created.0.filename created.1

abbrev pub with_output : Tables
with_output =
    (perform_all memory_file (write_snapshot zeroed_source (codes "out") output) written).1

pub appended_ok : appended.0.is_ok ≡ true
unfolding append_kernel_output write_file
appended_ok =
    rw (created_opens, append_kernel_output)
      (rw (always_done (write_snapshot zeroed_source (codes "out") output) written) refl)

pub appended_opens : memory_disk.open_file created.0.filename appended.1 ≡ some with_output
unfolding append_kernel_output write_file
appended_opens =
    rw (created_opens, append_kernel_output)
      (rw (always_done (write_snapshot zeroed_source (codes "out") output) written)
        (reopened created.0.filename with_output created.1))

names_listed :
    (s : Source) (name : Text) (f : Tables)
    → HoldsSnapshot memory_file s name output f
    → ListsLinks memory_file f (views_of name) names
names_listed s name f held m =
    let links = held.views_of_allocations m in (λ listed. links.1 listed, λ found. links.0 found)

readable : is_host_accessible_space (codes "Host") ≡ true
unfolding is_host_accessible_space text_eq
readable = refl

view_copied : copy_allocation_bytes captured view [] ≡ (none, pattern_bytes 5000 300)
view_copied =
    (copy_allocation_bytes-IsCopyOf captured view [] (pattern_bytes 5000 300)).1
      (refl, inr (omega arith, refl, omega arith, inl (readable, refl)))

pub only_view :
    (P : ActiveAllocation → Type 0) → P view → (a : ActiveAllocation) → Listed a (view ∷ []) → P a
only_view P holds a (inl here) = subst P (sym here) holds
only_view P holds a (inr there) = elim there [ ]

pub view-CopiedFrom : CopiedFrom source pattern view
view-CopiedFrom = (
  ap (λ (c : Copied). c.0) view_copied,
  λ i b found.
      get_elem?-pattern_bytes 5000 300 i b
        (subst (λ (c : Copied). get_elem? c.1 i ≡ some b) view_copied found),
)

on_host : memory_space_type_from_string (codes "Host") ≡ host
unfolding memory_space_type_from_string text_eq
on_host = refl

pub view_CanCopy : (is_host (memory_space_type_from_string (codes "Host")) || cpu.has_device) ≡ true
view_CanCopy = rw on_host refl

abbrev TheDump : (f : Tables) → Type 0
TheDump f =
    IsWritten memory_file memory_disk source memory_file-IsLawful memory_disk-IsReliable dump f

written-IsWritten : TheDump written
written-IsWritten =
    create_kernel_dump-IsWritten memory_file memory_disk source memory_file-IsLawful
      memory_disk-IsReliable dump blank_disk written created_ok created_opens

pub written_lists : ListsLinks memory_file written (views_of (codes "in")) names
written_lists =
    names_listed source (codes "in") written (written-IsWritten.snapshot_of (omega arith))

different : text_eq (codes "out") (codes "in") ≡ false
unfolding text_eq
different = refl

pub output_lists_in : ListsLinks memory_file with_output (views_of (codes "in")) names
output_lists_in = names_listed source (codes "in") with_output (
    HoldsSnapshot-kept memory_file memory_file-IsLawful source zeroed_source (codes "in")
      (codes "out") output output written different (written-IsWritten.snapshot_of (omega arith))
      (always_done (write_snapshot zeroed_source (codes "out") output) written))

pub output_lists_out : ListsLinks memory_file with_output (views_of (codes "out")) names
output_lists_out = names_listed zeroed_source (codes "out") with_output (
    write_snapshot-HoldsSnapshot memory_file memory_file-IsLawful zeroed_source (codes "out") output
      written written-IsWritten.fresh
      (always_done (write_snapshot zeroed_source (codes "out") output) written) (omega arith))
