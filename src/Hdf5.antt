-- ===== src/Hdf5.antt =====
-- The HDF5 library as both sides of the program use it: an interface over an unknown type of files.
-- One operation stands for the calls that create, write and close one object, one for those that
-- open, read and close it (src/krepe/common/hdf5_utils.hpp checks each of them).
pub mod Write
pub mod Actions
pub mod Disk
pub mod Store
use krepe.Prelude.{
  ℕ, ◌≡◌, Bool, true, false, ◌&&◌, Option, none, some, List, [], ◌∷◌, ◌++◌, Bytes, Text, text_eq,
  text_eq_iff, ◌↔◌, arith, if◌then◌else◌,
}
use krepe.Prelude.Int.{ℤ}

-- The names of the groups from the root on.
abbrev pub GroupPath : Type 0
GroupPath = List Text

unfoldable pub path_eq : GroupPath → GroupPath → Bool
path_eq [] [] = true
path_eq (n ∷ p) (m ∷ q) = text_eq n m && path_eq p q
path_eq _ _ = false

pub path_eq_iff : (p q : GroupPath) → (path_eq p q ≡ true) ↔ (p ≡ q)
unfolding path_eq
path_eq_iff [] [] = ground arith
path_eq_iff [] (m ∷ q) = ground arith
path_eq_iff (n ∷ p) [] = ground arith
path_eq_iff (n ∷ p) (m ∷ q) = ground (arith, text_eq_iff n m, path_eq_iff p q)

-- An attribute: a string type's size with the bytes of that size, or a number.
pub data Attribute : Type 0 where
  string_value : Bytes → Attribute
  uint64_value : ℕ → Attribute
  int_value : ℤ → Attribute

-- What a link of a group leads to: a group, or a one-dimensional dataset.
pub data Target : Type 0 where
  group : Target
  byte_dataset : Bytes → Target
  int64_dataset : List ℤ → Target

-- A call that writes reports whether it succeeded. A call that reads gives `none` where the object is
-- not there, and on any error.
pub record Hdf5 : Type 1 where
  pub File : Type 0
  pub put_attribute : GroupPath → Text → Attribute → File → Bool × File
  pub put_link : GroupPath → Text → Target → File → Bool × File
  pub get_attribute : File → GroupPath → Text → Option Attribute
  pub get_link : File → GroupPath → Text → Option Target

-- What is relied on: what was written is read back, and what was there before is as it was.
pub record IsLawful (h : Hdf5) : Type 0 where
  pub get_attribute-put :
      (p q : GroupPath) (n m : Text) (v : Attribute) (f : h.File)
      → (h.put_attribute p n v f).0 ≡ true
      → h.get_attribute (h.put_attribute p n v f).1 q m
        ≡ (if path_eq p q && text_eq n m then some v else h.get_attribute f q m)
  pub get_attribute-put_link :
      (p q : GroupPath) (n m : Text) (v : Target) (f : h.File)
      → (h.put_link p n v f).0 ≡ true
      → h.get_attribute (h.put_link p n v f).1 q m ≡ h.get_attribute f q m
  pub get_link-put :
      (p q : GroupPath) (n m : Text) (v : Target) (f : h.File)
      → (h.put_link p n v f).0 ≡ true
      → h.get_link (h.put_link p n v f).1 q m
        ≡ (if path_eq p q && text_eq n m then some v else h.get_link f q m)
  pub get_link-put_attribute :
      (p q : GroupPath) (n m : Text) (v : Attribute) (f : h.File)
      → (h.put_attribute p n v f).0 ≡ true
      → h.get_link (h.put_attribute p n v f).1 q m ≡ h.get_link f q m
