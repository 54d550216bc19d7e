-- ===== src/Replay/Attributes.antt =====
-- The reading of attributes and of datasets of numbers in src/krepe/replay/kernel_replayer.cpp: the
-- `get_hdf5_*_attribute` functions and `read_hdf5_int64_dataset`. A missing object makes a call of the
-- HDF5 library fail; the assertions exclude one of another kind.
use krepe.Prelude.{ℕ, ◌-◌, Option, some, List, Text, length, take, Result, ok, err}
use krepe.Prelude.Int.{ℤ}
use krepe.Hdf5.{Attribute, string_value, uint64_value, int_value, Target, int64_dataset}
use krepe.Replay.Error.{Error, hdf5_failed}

module _ (attributes : Text → Option Attribute) where
  -- The null byte at the end is removed.
  unfoldable pub get_hdf5_string_attribute : Text → Result Error Text
  get_hdf5_string_attribute name = elim (attributes name) [
    | some (string_value bytes) ↦ ok (take (length bytes - 1) bytes)
    | _ ↦ err hdf5_failed
  ]

  unfoldable pub get_hdf5_int_attribute : Text → Result Error ℤ
  get_hdf5_int_attribute name = elim (attributes name) [
    | some (int_value value) ↦ ok value
    | _ ↦ err hdf5_failed
  ]

  unfoldable pub get_hdf5_uint64_attribute : Text → Result Error ℕ
  get_hdf5_uint64_attribute name = elim (attributes name) [
    | some (uint64_value value) ↦ ok value
    | _ ↦ err hdf5_failed
  ]

module _ (links : Text → Option Target) where
  unfoldable pub read_hdf5_int64_dataset : Text → Result Error (List ℤ)
  read_hdf5_int64_dataset name = elim (links name) [
    | some (int64_dataset numbers) ↦ ok numbers
    | _ ↦ err hdf5_failed
  ]
