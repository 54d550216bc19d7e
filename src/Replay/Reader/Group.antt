-- ===== src/Replay/Reader/Group.antt =====
-- What the replayer reads of one allocation's group.
use krepe.Prelude.{
  ℕ, ◌-◌, ◌^◌, ◌<◌, ◌≡◌, refl, Bool, true, false, Option, none, some, [], ◌∷◌, ◌++◌, Text, codes,
  text_eq, arith, length, take, take-append, length-append, ok,
}
use krepe.Capture.Tracker.{ActiveAllocation}
use krepe.Capture.Copy.{Copied, copy_allocation_bytes}
use krepe.Capture.Dump.{Source, group_commands}
use krepe.Hdf5.Write.{attribute_of, link_of}
use krepe.Replay.Dump.{ByteDataset, Entry}
use krepe.Replay.Reader.{Stoull, dataset_of, read_allocation_info}
use krepe.Prelude.Int.{int_eq}

-- A copy stands in the group as a dataset, a reason to skip it as none.
abbrev pub dataset_of_copy : Copied → Option ByteDataset
dataset_of_copy (none, bytes) =
    some (record { rank = 1; is_integer = true; datatype_size = 1; bytes = bytes })
dataset_of_copy (some reason, bytes) = none

abbrev pub is_copied : Copied → Bool
is_copied (none, bytes) = true
is_copied (some reason, bytes) = false

-- What the replayer should find of an allocation.
unfoldable pub entry_of : Source → ActiveAllocation → Entry
entry_of s a = record {
  info = record {
    label = a.recorded.label;
    space = a.recorded.space;
    allocation_id = a.ptr;
    address = a.recorded.p_data;
    size = a.recorded.size;
    bytes_dumped = is_copied (copy_allocation_bytes s.memory a []);
  };
  dataset = dataset_of_copy (copy_allocation_bytes s.memory a []);
}

-- A pointer that was printed is read back.
abbrev pub ReadsPointers : Source → Stoull → Type 0
ReadsPointers s stoull = (n : ℕ) → n < 2 ^ 64 → stoull (s.pointer_to_string n) ≡ some n

-- The pointers are of 64 bits.
abbrev pub FitsPointers : ActiveAllocation → Type 0
FitsPointers a = (a.ptr < 2 ^ 64) × (a.recorded.p_data < 2 ^ 64)

without_null : (s : Text) → take (length (s ++ 0 ∷ []) - 1) (s ++ 0 ∷ []) ≡ s
without_null s = take-append _ s (0 ∷ []) (omega (arith, length-append s (0 ∷ [])))

-- The group's commands alone give the entry.
pub group_entry :
    (s : Source) (stoull : Stoull) (a : ActiveAllocation) (c : Copied)
    → copy_allocation_bytes s.memory a [] ≡ c
    → ReadsPointers s stoull
    → FitsPointers a
    → read_allocation_info (λ m. attribute_of m (group_commands s a) none) stoull
      ≡ ok (entry_of s a).info
unfolding read_allocation_info group_commands entry_of text_eq int_eq
group_entry s stoull a (none, bytes) e back fits =
    rw
      (
        e,
        without_null a.recorded.label,
        without_null a.recorded.space,
        without_null (s.pointer_to_string a.ptr),
        back a.ptr fits.0,
        without_null (s.pointer_to_string a.recorded.p_data),
        back a.recorded.p_data fits.1,
      )
      refl
group_entry s stoull a (some reason, bytes) e back fits =
    rw
      (
        e,
        without_null a.recorded.label,
        without_null a.recorded.space,
        without_null (s.pointer_to_string a.ptr),
        back a.ptr fits.0,
        without_null (s.pointer_to_string a.recorded.p_data),
        back a.recorded.p_data fits.1,
      )
      refl

pub group_dataset :
    (s : Source) (a : ActiveAllocation) (c : Copied)
    → copy_allocation_bytes s.memory a [] ≡ c
    → dataset_of (link_of (codes "bytes") (group_commands s a) none) ≡ (entry_of s a).dataset
unfolding group_commands entry_of text_eq
group_dataset s a (none, bytes) e = rw e refl
group_dataset s a (some reason, bytes) e = rw e refl
