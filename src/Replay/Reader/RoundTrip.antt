-- ===== src/Replay/Reader/RoundTrip.antt =====
-- A dump on the disk gives the replayer what the tool captured.
use mathlib.Core.Path.{fun_ext, subst}
use krepe.Prelude.{
  ap, ◌^◌, ◌<◌, ◌≡◌, ◌↔◌, refl, ◌∙◌, true, none, some, List, [], ◌∷◌, Text, codes, text_eq, arith,
  length, ok, All,
}
use krepe.Prelude.Dict.{Listed, text_instance}
use krepe.Hdf5.{Hdf5, IsLawful, GroupPath}
use krepe.Hdf5.Actions.{
  perform_all, attribute_reading, link_reading, attribute_at, link_at, get_attribute-perform_all,
  get_link-perform_all,
}
use krepe.Hdf5.Write.{attribute_of, link_of}
use krepe.Hdf5.Disk.{Disk, IsReliable}
use krepe.Capture.Tracker.{AllocationSnapshot}
use krepe.Capture.Policy.Write.{write_policy}
use krepe.Capture.Dump.{Source, write_dump, write_snapshot, views_of}
use krepe.Capture.Dump.Files.{
  create_kernel_dump, append_kernel_output, create_kernel_dump_ok, append_kernel_output_ok,
}
use krepe.Capture.Dump.Groups.{policy_read, functor_read}
use krepe.Capture.Hooks.{KernelDump}
use krepe.Replay.Dump.{Entry}
use krepe.Replay.Policy.{Build, read_policy_from_hdf5}
use krepe.Replay.Policy.RoundTrip.{FitsInt, policy_of, read_policy-write_policy}
use krepe.Replay.Reader.{Stoull, read_entries, read_functor_from_hdf5}
use krepe.Replay.Reader.Names.{ListsLinks}
use krepe.Replay.Reader.Inputs.{HoldsSnapshot, IsEntryOf, read_snapshot}
use krepe.Replay.Reader.Group.{ReadsPointers, FitsPointers}
use krepe.Replay.Reader.Writes.{
  write_dump-HoldsSnapshot, write_dump-IsFreshBelow, write_snapshot-HoldsSnapshot,
  HoldsSnapshot-kept, IsFreshBelow,
}

module _ (h : Hdf5) (k : Disk h) (s : Source) (l : IsLawful h) (r : IsReliable h k) where
  -- What a dump that is reported as written holds, wherever its file is read.
  pub record IsWritten (d : KernelDump) (f : h.File) : Type 0 where
    pub attributes_of :
        (q : GroupPath) (m : Text) → h.get_attribute f q m ≡ attribute_at q m (write_dump s d) none
    pub links_of : (q : GroupPath) (m : Text) → h.get_link f q m ≡ link_at q m (write_dump s d) none
    pub snapshot_of :
        length d.input_snapshot.allocations < 2 ^ 64
        → HoldsSnapshot h s (codes "in") d.input_snapshot f
    pub fresh : IsFreshBelow h (codes "out") f

  pub create_kernel_dump-IsWritten :
      (d : KernelDump) (w : k.World) (f : h.File)
      → (create_kernel_dump h k s d w).0.is_ok ≡ true
      → k.open_file (create_kernel_dump h k s d w).0.filename (create_kernel_dump h k s d w).1
        ≡ some f
      → IsWritten d f
  create_kernel_dump-IsWritten d w f done opened =
      let (f', empty, written, there) = create_kernel_dump_ok h k r s d w done in
      let same : (perform_all h (write_dump s d) f').1 ≡ f = ground (arith, there, opened) in
      subst (IsWritten d) same (record {
        attributes_of = λ q m.
            get_attribute-perform_all h l (write_dump s d) f' q m written
            ∙ ap (attribute_at q m (write_dump s d)) (empty q m).0;
        links_of = λ q m.
            get_link-perform_all h l (write_dump s d) f' q m written
            ∙ ap (link_at q m (write_dump s d)) (empty q m).1;
        snapshot_of = λ small. write_dump-HoldsSnapshot h l s d f' empty written small;
        fresh = write_dump-IsFreshBelow h l s d f' empty written;
      })

  -- Where `create_kernel_dump` reported success, the printed pointers are read back, and the snapshot
  -- has fewer than 2 ^ 64 allocations with pointers of 64 bits, the replayer reads the groups of the
  -- input from that file without an error, in whatever order the library visits them, and finds
  -- exactly the entries of the snapshot's allocations: label, space, both addresses, size, and the
  -- bytes that the copy gave, or none for an allocation that was skipped.
  pub read_entries-create_kernel_dump :
      (d : KernelDump) (w : k.World) (f : h.File) (stoull : Stoull) (names : List Text)
      → (create_kernel_dump h k s d w).0.is_ok ≡ true
      → k.open_file (create_kernel_dump h k s d w).0.filename (create_kernel_dump h k s d w).1
        ≡ some f
      → ReadsPointers s stoull
      → length d.input_snapshot.allocations < 2 ^ 64
      → All FitsPointers d.input_snapshot.allocations
      → ListsLinks h f (views_of (codes "in")) names
      → (es : List Entry) × (read_entries h f stoull (views_of (codes "in")) names ≡ ok es)
        × ((e : Entry) → Listed e es ↔ IsEntryOf s d.input_snapshot e)
  read_entries-create_kernel_dump d w f stoull names done opened back small fits lists =
      let written = create_kernel_dump-IsWritten d w f done opened in
      read_snapshot h s (codes "in") d.input_snapshot f stoull names (written.snapshot_of small)
        back fits lists

  -- Where `create_kernel_dump` reported success, and so did `append_kernel_output` for that file with
  -- the memory that the kernel left, the pointers that each of them printed are read back, and both
  -- snapshots have fewer than 2 ^ 64 allocations with pointers of 64 bits, the replayer reads the
  -- groups of the file without an error, in whatever order the library visits them: below `in`
  -- exactly the entries of the input's allocations, with the bytes from before the kernel, and below
  -- `out` exactly the entries of the output's allocations, with the bytes from after it.
  pub read_entries-append_kernel_output :
      (s' : Source) (d : KernelDump) (output : AllocationSnapshot) (w : k.World) (f f' : h.File)
      (stoull : Stoull) (names names' : List Text)
      → (create_kernel_dump h k s d w).0.is_ok ≡ true
      → let (dump, w') = create_kernel_dump h k s d w in
        k.open_file dump.filename w' ≡ some f
        → (append_kernel_output h k s' output dump.filename w').0.is_ok ≡ true
        → k.open_file dump.filename (append_kernel_output h k s' output dump.filename w').1
          ≡ some f'
        → ReadsPointers s stoull
        → ReadsPointers s' stoull
        → length d.input_snapshot.allocations < 2 ^ 64
        → All FitsPointers d.input_snapshot.allocations
        → length output.allocations < 2 ^ 64
        → All FitsPointers output.allocations
        → ListsLinks h f' (views_of (codes "in")) names
        → ListsLinks h f' (views_of (codes "out")) names'
        → ((es : List Entry) × (read_entries h f' stoull (views_of (codes "in")) names ≡ ok es)
            × ((e : Entry) → Listed e es ↔ IsEntryOf s d.input_snapshot e))
          × ((es : List Entry) × (read_entries h f' stoull (views_of (codes "out")) names' ≡ ok es)
              × ((e : Entry) → Listed e es ↔ IsEntryOf s' output e))
  unfolding text_eq
  read_entries-append_kernel_output s' d output w f f' stoull names names' done opened added
        reopened back back' small fits small' fits' lists lists' =
      let (dump, w') = create_kernel_dump h k s d w in
      let written = create_kernel_dump-IsWritten d w f done opened in
      let (appended, there) =
        append_kernel_output_ok h k r s' output dump.filename w' f opened added in
      let same : (perform_all h (write_snapshot s' (codes "out") output) f).1 ≡ f' =
        ground (arith, there, reopened) in
      let kept = subst (HoldsSnapshot h s (codes "in") d.input_snapshot) same (
        HoldsSnapshot-kept h l s s' (codes "in") (codes "out") d.input_snapshot output f refl
          (written.snapshot_of small) appended) in
      let new = subst (HoldsSnapshot h s' (codes "out") output) same (
        write_snapshot-HoldsSnapshot h l s' (codes "out") output f written.fresh appended small') in
      (
        read_snapshot h s (codes "in") d.input_snapshot f' stoull names kept back fits lists,
        read_snapshot h s' (codes "out") output f' stoull names' new back' fits' lists',
      )

  -- Where `create_kernel_dump` reported success and the sizes fit into an `int`, what the replayer
  -- reads of the policy is what the captured description stands for; a description that the replayer
  -- does not support is refused.
  pub read_policy-create_kernel_dump :
      (d : KernelDump) (w : k.World) (f : h.File) (b : Build)
      → (create_kernel_dump h k s d w).0.is_ok ≡ true
      → k.open_file (create_kernel_dump h k s d w).0.filename (create_kernel_dump h k s d w).1
        ≡ some f
      → FitsInt d.policy
      → read_policy_from_hdf5
          (h.get_attribute f (codes "policy" ∷ []))
          (h.get_link f (codes "policy" ∷ []))
          b
        ≡ policy_of b d.policy
  read_policy-create_kernel_dump d w f b done opened fits =
      let written = create_kernel_dump-IsWritten d w f done opened in
      let q = codes "policy" ∷ [] in
      let attributes : h.get_attribute f q ≡ (λ m. attribute_of m (write_policy d.policy) none) =
        fun_ext (λ m. written.attributes_of q m ∙ policy_read attribute_reading s d m none) in
      let links : h.get_link f q ≡ (λ m. link_of m (write_policy d.policy) none) =
        fun_ext (λ m. written.links_of q m ∙ policy_read link_reading s d m none) in
      (λ j. read_policy_from_hdf5 (attributes j) (links j) b)
      ∙ read_policy-write_policy b d.policy fits

  -- Where `create_kernel_dump` reported success, the replayer reads the bytes of the functor and of
  -- the inner lambda that were captured.
  pub read_functor-create_kernel_dump :
      (d : KernelDump) (w : k.World) (f : h.File)
      → (create_kernel_dump h k s d w).0.is_ok ≡ true
      → k.open_file (create_kernel_dump h k s d w).0.filename (create_kernel_dump h k s d w).1
        ≡ some f
      → (read_functor_from_hdf5 h f (codes "functor") ≡ some d.functor_data)
        × (read_functor_from_hdf5 h f (codes "nvcc_inner_lambda") ≡ some d.nvcc_inner_lambda_data)
  unfolding read_functor_from_hdf5 text_eq
  read_functor-create_kernel_dump d w f done opened =
      let written = create_kernel_dump-IsWritten d w f done opened in
      let q = codes "functor" ∷ [] in
      let link = λ (m : Text). written.links_of q m ∙ functor_read link_reading s d m none in
      (
        rw (link (codes "functor"), read_functor_from_hdf5) refl,
        rw (link (codes "nvcc_inner_lambda"), read_functor_from_hdf5) refl,
      )
