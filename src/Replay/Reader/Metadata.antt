-- ===== src/Replay/Reader/Metadata.antt =====
-- The metadata of a dump.
use krepe.Prelude.{
  ◌≡◌, ◌≢◌, refl, ◌∙◌, inl, inr, true, Option, none, some, List, [], ◌∷◌, ◌++◌, Text, codes,
  text_eq, text_eq_iff, arith, ok, Bool-cases, Option-cases,
}
use krepe.Prelude.Dict.{Listed, NodupKeys, lookup, text_instance}
use krepe.Hdf5.{Hdf5, IsLawful, Attribute, string_value}
use krepe.Hdf5.Actions.{attribute_reading}
use krepe.Hdf5.Write.{attribute_of}
use krepe.Hdf5.Disk.{Disk, IsReliable}
use krepe.Capture.Dump.{Source, write_metadata}
use krepe.Capture.Dump.Files.{create_kernel_dump}
use krepe.Capture.Dump.Groups.{metadata_read}
use krepe.Capture.Hooks.{KernelDump}
use krepe.Replay.Attributes.{get_hdf5_string_attribute}
use krepe.Replay.Policy.RoundTrip.{without_null}
use krepe.Replay.Reader.{read_metadata_values}
use krepe.Replay.Reader.Names.{All2}
use krepe.Replay.Reader.RoundTrip.{create_kernel_dump-IsWritten}

abbrev stored_value : Option Text → Option Attribute → Option Attribute
stored_value none old = old
stored_value (some value) old = some (string_value (value ++ 0 ∷ []))

metadata_attribute :
    (metadata : List (Text × Text)) (m : Text) (old : Option Attribute)
    → NodupKeys metadata
    → attribute_of m (write_metadata metadata) old ≡ stored_value (lookup m metadata) old
unfolding write_metadata lookup
metadata_attribute [] m old nodup = refl
metadata_attribute ((key, value) ∷ more) m old nodup = elim (Bool-cases (text_eq key m)) [
  | inl here ↦
      let none_left : lookup m more ≡ none = ground (arith, text_eq_iff key m, nodup.0) in
      rw here (
        metadata_attribute more m (some (string_value (value ++ 0 ∷ []))) nodup.1
        ∙ rw (none_left, stored_value) refl)
  | inr other ↦ rw other (metadata_attribute more m old nodup.1)
]

-- A value is read for each name, and is that of the key.
abbrev pub HasValue : List (Text × Text) → Text → Text × Text → Type 0
HasValue metadata name e = (e.0 ≡ name) × (lookup name metadata ≡ some e.1)

module _ (h : Hdf5) (k : Disk h) (s : Source) (l : IsLawful h) (r : IsReliable h k) where
  -- Where `create_kernel_dump` reported success and no two entries of the metadata have the same key,
  -- the replayer reads for each key, in whatever order the library visits them, the value that was
  -- added.
  pub read_metadata-create_kernel_dump :
      (d : KernelDump) (w : k.World) (f : h.File) (names : List Text)
      → (create_kernel_dump h k s d w).0.is_ok ≡ true
      → k.open_file (create_kernel_dump h k s d w).0.filename (create_kernel_dump h k s d w).1
        ≡ some f
      → NodupKeys d.metadata
      → ((name : Text) → Listed name names → lookup name d.metadata ≢ none)
      → (out : List (Text × Text)) × (read_metadata_values h f names ≡ ok out)
        × All2 (HasValue d.metadata) names out
  unfolding read_metadata_values get_hdf5_string_attribute
  read_metadata-create_kernel_dump d w f [] done opened nodup known = ([], refl, tt)
  read_metadata-create_kernel_dump d w f (name ∷ names) done opened nodup known =
      let written = create_kernel_dump-IsWritten h k s l r d w f done opened in
      let (out, read, values) =
        read_metadata-create_kernel_dump d w f names done opened nodup
          (λ n there. known n (inr there)) in
      elim (Option-cases (lookup name d.metadata)) [
        | inl missing ↦ absurd (known name (inl refl) missing)
        | inr (value, found) ↦
            let stored : h.get_attribute f (codes "metadata" ∷ []) name
                ≡ some (string_value (value ++ 0 ∷ [])) =
              written.attributes_of (codes "metadata" ∷ []) name
              ∙ metadata_read attribute_reading s d name none
              ∙ metadata_attribute d.metadata name none nodup
              ∙ rw (found, stored_value) refl in
            (
              (name, value) ∷ out,
              rw (stored, without_null value, read, read_metadata_values, get_hdf5_string_attribute)
                  refl,
              ((refl, found), values),
            )
      ]
