-- ===== src/Hdf5/Store.antt =====
-- A file in memory, which shows that the laws of the interface can hold.
use mathlib.Core.Path.{subst}
use krepe.Prelude.{
  ◌≡◌, refl, true, ◌&&◌, Option, none, some, Text, text_eq, text_eq_iff, arith, if◌then◌else◌,
}
use krepe.Hdf5.Disk.{Disk, IsReliable, IsEmpty}
use krepe.Hdf5.{Hdf5, IsLawful, GroupPath, path_eq, Attribute, Target}

pub record Tables : Type 0 where
  pub attributes : GroupPath → Text → Option Attribute
  pub links : GroupPath → Text → Option Target

abbrev pub empty_file : Tables
empty_file = record { attributes = λ q m. none; links = λ q m. none }

abbrev pub memory_file : Hdf5
memory_file = record {
  File = Tables;
  put_attribute = λ p n v f. (
    true,
    record f {
      attributes = λ q m. if path_eq p q && text_eq n m then some v else f.attributes q m;
    },
  );
  put_link = λ p n v f. (
    true,
    record f { links = λ q m. if path_eq p q && text_eq n m then some v else f.links q m },
  );
  get_attribute = λ f p n. f.attributes p n;
  get_link = λ f p n. f.links p n;
}

pub memory_file-IsLawful : IsLawful memory_file
memory_file-IsLawful = record {
  get_attribute-put = λ p q n m v f done. refl;
  get_attribute-put_link = λ p q n m v f done. refl;
  get_link-put = λ p q n m v f done. refl;
  get_link-put_attribute = λ p q n m v f done. refl;
}

-- A disk in memory that holds every file under its name.
abbrev pub memory_disk : Disk memory_file
memory_disk = record {
  World = Text → Option Tables;
  absolute = λ path w. some path;
  create_file = λ path w. some empty_file;
  open_file = λ path w. w path;
  close_file = λ path f w. (true, λ other. if text_eq path other then some f else w other);
}

pub reopened :
    (path : Text) (f : Tables) (w : Text → Option Tables)
    → (if text_eq path path then some f else w path) ≡ some f
reopened path f w = rw ((text_eq_iff path path).1 refl) refl

empty_file-IsEmpty :
    (path : Text) (w : Text → Option Tables) (f : Tables)
    → ◌≡◌ {A = Option Tables} (some empty_file) (some f)
    → IsEmpty memory_file f
empty_file-IsEmpty path w f e q m =
    let same : empty_file ≡ f = ground arith in
    subst (λ (g : Tables). IsEmpty memory_file g) same (λ q' m'. (refl, refl)) q m

pub memory_disk-IsReliable : IsReliable memory_file memory_disk
memory_disk-IsReliable = record {
  create_file-IsEmpty = empty_file-IsEmpty;
  open_file-close_file = λ path f w done. reopened path f w;
}
