-- ===== src/Replay/Reader.antt =====
-- The reading of a dump's groups in src/krepe/replay/kernel_replayer.cpp: `read_allocation_info` and
-- the objects that `check_byte_dataset`, `read_functor_from_hdf5` and `read_hdf5_metadata` look at.
-- The names that an iteration of the HDF5 library visits are given, in its order.
pub mod Names
pub mod Group
pub mod Inputs
pub mod Writes
pub mod Restore
pub mod Reserve
pub mod RoundTrip
pub mod Metadata
pub mod Restored
pub mod Fixture
pub mod Tests
use krepe.Prelude.{
  ℕ, Bool, true, false, not, Option, none, some, List, [], ◌∷◌, ◌++◌, Bytes, Text, codes, Result,
  ok, err, ◌>>=◌,
}
use krepe.Prelude.Int.{pos, int_eq}
use krepe.Hdf5.{Hdf5, GroupPath, Attribute, Target, group, byte_dataset, int64_dataset}
use krepe.Replay.Attributes.{
  get_hdf5_string_attribute, get_hdf5_int_attribute, get_hdf5_uint64_attribute,
}
use krepe.Replay.Error.{Error, hdf5_failed, invalid_pointer}
use krepe.Replay.Dump.{SnapshotAllocation, ByteDataset, Entry}
use krepe.Replay.Policy.{Build, ReplayPolicy, read_policy_from_hdf5}

-- What `std::stoull` with base 16 gives of a text; `none` where it throws.
abbrev pub Stoull : Type 0
Stoull = Text → Option ℕ

module _ (attributes : Text → Option Attribute) where
  unfoldable pub pointer_attribute : Stoull → Text → Result Error ℕ
  unfolding get_hdf5_string_attribute
  pointer_attribute stoull name = get_hdf5_string_attribute attributes name >>= λ text.
      elim (stoull text) [ none ↦ err invalid_pointer | some address ↦ ok address ]

  unfoldable pub read_allocation_info : Stoull → Result Error SnapshotAllocation
  unfolding get_hdf5_string_attribute get_hdf5_int_attribute get_hdf5_uint64_attribute
      pointer_attribute
  read_allocation_info stoull = get_hdf5_uint64_attribute attributes (codes "size") >>= λ size.
      get_hdf5_string_attribute attributes (codes "label") >>= λ label.
      get_hdf5_string_attribute attributes (codes "space") >>= λ space.
      pointer_attribute stoull (codes "ptr") >>= λ allocation_id.
      pointer_attribute stoull (codes "p_data") >>= λ address.
      get_hdf5_int_attribute attributes (codes "bytes_dumped") >>= λ bytes_dumped. ok (record {
        label = label;
        space = space;
        allocation_id = allocation_id;
        address = address;
        size = size;
        bytes_dumped = not (int_eq bytes_dumped (pos 0));
      })

-- The shape and type of the dataset `bytes`. The bytes of a dataset of another type are not read.
abbrev pub dataset_of : Option Target → Option ByteDataset
dataset_of none = none
dataset_of (some group) = none
dataset_of (some (byte_dataset bytes)) =
    some (record { rank = 1; is_integer = true; datatype_size = 1; bytes = bytes })
dataset_of (some (int64_dataset numbers)) =
    some (record { rank = 1; is_integer = true; datatype_size = 8; bytes = [] })

module _ (h : Hdf5) (f : h.File) where
  unfoldable pub read_entry : Stoull → GroupPath → Result Error Entry
  unfolding read_allocation_info
  read_entry stoull path = read_allocation_info (h.get_attribute f path) stoull >>= λ info.
      ok (record { info = info; dataset = dataset_of (h.get_link f path (codes "bytes")) })

  -- The groups that `iterate_allocations` visits below a path.
  unfoldable pub read_entries : Stoull → GroupPath → List Text → Result Error (List Entry)
  unfolding read_entry
  read_entries stoull path [] = ok []
  read_entries stoull path (name ∷ names) =
      let rest = read_entries stoull path names in
      read_entry stoull (path ++ name ∷ []) >>= λ e. rest >>= λ es. ok (e ∷ es)

  -- One call of `read_hdf5_metadata` for each name.
  unfoldable pub read_metadata_values : List Text → Result Error (List (Text × Text))
  unfolding get_hdf5_string_attribute
  read_metadata_values [] = ok []
  read_metadata_values (name ∷ names) =
      let rest = read_metadata_values names in
      get_hdf5_string_attribute (h.get_attribute f (codes "metadata" ∷ [])) name >>= λ attr.
      rest >>= λ more. ok ((name, attr) ∷ more)

  -- A dataset of the group `functor`: `functor`, and `nvcc_inner_lambda` in a build that uses it.
  unfoldable pub read_functor_from_hdf5 : Text → Option Bytes
  read_functor_from_hdf5 name = elim (h.get_link f (codes "functor" ∷ []) name) [
    | some (byte_dataset bytes) ↦ some bytes
    | _ ↦ none
  ]
