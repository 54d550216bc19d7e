-- ===== src/Hdf5/Disk.antt =====
-- The files of the disk, as both sides use them.
use krepe.Prelude.{◌≡◌, Bool, true, false, Option, none, some, List, Text, if◌then◌else◌}
use krepe.Hdf5.{Hdf5, GroupPath}
use krepe.Hdf5.Actions.{Action, perform_all}

-- The file has no attribute and no link.
abbrev pub IsEmpty : (h : Hdf5) → h.File → Type 0
IsEmpty h f =
    (q : GroupPath) (m : Text) → (h.get_attribute f q m ≡ none) × (h.get_link f q m ≡ none)

-- `std::filesystem::absolute`; `H5Fcreate` with the flag to truncate; `H5Fopen`, which gives what the
-- disk holds; and `H5Fclose`, which brings what was written to the disk. `none` and `false` stand for
-- a failure.
pub record Disk (h : Hdf5) : Type 1 where
  pub World : Type 0
  pub absolute : Text → World → Option Text
  pub create_file : Text → World → Option h.File
  pub open_file : Text → World → Option h.File
  pub close_file : Text → h.File → World → Bool × World

-- What is relied on.
pub record IsReliable (h : Hdf5) (k : Disk h) : Type 0 where
  pub create_file-IsEmpty :
      (path : Text) (w : k.World) (f : h.File) → k.create_file path w ≡ some f → IsEmpty h f
  pub open_file-close_file :
      (path : Text) (f : h.File) (w : k.World)
      → (k.close_file path f w).0 ≡ true
      → k.open_file path (k.close_file path f w).1 ≡ some f

module _ (h : Hdf5) (k : Disk h) where
  -- Writes to an open file, and its `close_checked`. When a write throws, the handle's destructor
  -- closes the file; when the close throws, the destructor closes it once more.
  unfoldable pub write_file : Text → List Action → h.File → k.World → Bool × k.World
  unfolding perform_all
  write_file path actions f w =
      let (written, f') = perform_all h actions f in
      let (closed, w') = k.close_file path f' w in
      if written
      then (if closed then (true, w') else (false, (k.close_file path f' w').1))
      else (false, w')
