-- ===== src/Capture/Dump/Files.antt =====
-- `create_kernel_dump` and `append_kernel_output` of src/krepe/capture/view_dump.cpp. The error's text
-- is left out.
use krepe.Prelude.{
  ap, ℕ, ◌≡◌, ◌⊎◌, refl, sym, ◌∙◌, inl, inr, true, false, none, some, List, Text, codes, arith,
  Option-cases,
}
use krepe.Hdf5.{Hdf5}
use krepe.Hdf5.Actions.{Action, perform_all}
use krepe.Hdf5.Disk.{Disk, IsReliable, IsEmpty, write_file}
use krepe.Capture.Names.{dump_filename}
use krepe.Capture.Tracker.{AllocationSnapshot}
use krepe.Capture.Dump.{Source, write_dump, write_snapshot}
use krepe.Capture.Hooks.{KernelDump, ViewDumpResult, Dumper}

module _ (h : Hdf5) (k : Disk h) (s : Source) where
  unfoldable pub create_kernel_dump : KernelDump → k.World → ViewDumpResult × k.World
  unfolding write_file
  create_kernel_dump d w =
      let filename = dump_filename d.label d.kernel_id in
      elim (k.absolute filename w) [
        | none ↦ (record { is_ok = false; filename = filename }, w)
        | some dump_path ↦ elim (k.create_file dump_path w) [
          | none ↦ (record { is_ok = false; filename = dump_path }, w)
          | some file ↦
              let (done, w') = write_file h k dump_path (write_dump s d) file w in
              (record { is_ok = done; filename = dump_path }, w')
        ]
      ]

  unfoldable pub append_kernel_output :
      AllocationSnapshot → Text → k.World → ViewDumpResult × k.World
  unfolding write_file
  append_kernel_output output_snapshot filename w = elim (k.open_file filename w) [
    | none ↦ (record { is_ok = false; filename = filename }, w)
    | some file ↦
        let (done, w') =
          write_file h k filename (write_snapshot s (codes "out") output_snapshot) file w in
        (record { is_ok = done; filename = filename }, w')
  ]

-- The writer of the dumps as the hooks use it: each dump copies the memory as it is when it is
-- written.
abbrev pub dumper : (h : Hdf5) (k : Disk h) → (k.World → Source) → (ℕ → k.World → k.World) → Dumper
dumper h k source fence = record {
  World = k.World;
  create_kernel_dump = λ d w. create_kernel_dump h k (source w) d w;
  append_kernel_output = λ snapshot path w. append_kernel_output h k (source w) snapshot path w;
  fence = fence;
}

module _ (h : Hdf5) (k : Disk h) (r : IsReliable h k) where
  write_file_lem :
      (path : Text) (actions : List Action) (f : h.File) (w : k.World)
      → (write_file h k path actions f w).0 ≡ true
      → ((perform_all h actions f).0 ≡ true)
        × (k.open_file path (write_file h k path actions f w).1 ≡ some (perform_all h actions f).1)
  unfolding write_file
  write_file_lem path actions f w e =
      ground (arith, r.open_file-close_file path (perform_all h actions f).1 w)

  created :
      (s : Source) (d : KernelDump) (w : k.World) (path : Text) (f : h.File)
      → k.absolute (dump_filename d.label d.kernel_id) w ≡ some path
      → k.create_file path w ≡ some f
      → let (done, w') = write_file h k path (write_dump s d) f w in
        create_kernel_dump h k s d w ≡ (record { is_ok = done; filename = path }, w')
  unfolding create_kernel_dump
  created s d w path f found made = rw (found, made, create_kernel_dump) refl

  not_created :
      (s : Source) (d : KernelDump) (w : k.World)
      → (k.absolute (dump_filename d.label d.kernel_id) w ≡ none)
        ⊎ ((path : Text) × (k.absolute (dump_filename d.label d.kernel_id) w ≡ some path)
            × (k.create_file path w ≡ none))
      → (create_kernel_dump h k s d w).0.is_ok ≡ false
  unfolding create_kernel_dump
  not_created s d w (inl lost) = rw (lost, create_kernel_dump) refl
  not_created s d w (inr (path, found, refused)) = rw (found, refused, create_kernel_dump) refl

  -- What a dump that is reported as written left on the disk.
  pub create_kernel_dump_ok :
      (s : Source) (d : KernelDump) (w : k.World)
      → (create_kernel_dump h k s d w).0.is_ok ≡ true
      → (f : h.File) × IsEmpty h f
        × ((perform_all h (write_dump s d) f).0 ≡ true)
        × (k.open_file (create_kernel_dump h k s d w).0.filename (create_kernel_dump h k s d w).1
            ≡ some (perform_all h (write_dump s d) f).1)
  create_kernel_dump_ok s d w e =
      elim (Option-cases (k.absolute (dump_filename d.label d.kernel_id) w)) [
        | inl lost ↦ absurd (cc (not_created s d w (inl lost), e))
        | inr (path, found) ↦ elim (Option-cases (k.create_file path w)) [
          | inl refused ↦ absurd (cc (not_created s d w (inr (path, found, refused)), e))
          | inr (f, made) ↦
              let out = created s d w path f found made in
              let (written, opened) =
                write_file_lem path (write_dump s d) f w
                  (sym (ap (λ (x : ViewDumpResult × k.World). x.0.is_ok) out) ∙ e) in
              (f, r.create_file-IsEmpty path w f made, written, rw out opened)
        ]
      ]

  appended :
      (s : Source) (snapshot : AllocationSnapshot) (filename : Text) (w : k.World) (f : h.File)
      → k.open_file filename w ≡ some f
      → let (done, w') = write_file h k filename (write_snapshot s (codes "out") snapshot) f w in
        append_kernel_output h k s snapshot filename w
        ≡ (record { is_ok = done; filename = filename }, w')
  unfolding append_kernel_output
  appended s snapshot filename w f there = rw (there, append_kernel_output) refl

  -- What an output that is reported as appended left on the disk.
  pub append_kernel_output_ok :
      (s : Source) (snapshot : AllocationSnapshot) (filename : Text) (w : k.World) (f : h.File)
      → k.open_file filename w ≡ some f
      → (append_kernel_output h k s snapshot filename w).0.is_ok ≡ true
      → ((perform_all h (write_snapshot s (codes "out") snapshot) f).0 ≡ true)
        × (k.open_file filename (append_kernel_output h k s snapshot filename w).1
            ≡ some (perform_all h (write_snapshot s (codes "out") snapshot) f).1)
  append_kernel_output_ok s snapshot filename w f there e =
      let out = appended s snapshot filename w f there in
      let (written, opened) =
        write_file_lem filename (write_snapshot s (codes "out") snapshot) f w
          (sym (ap (λ (x : ViewDumpResult × k.World). x.0.is_ok) out) ∙ e) in
      (written, rw out opened)
