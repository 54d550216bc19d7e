-- ===== src/Replay/Reader/Writes.antt =====
-- What is read of a dump that was written, before and after the output is appended.
use krepe.Prelude.{
  ap, ◌^◌, ◌<◌, ◌≡◌, refl, ◌∙◌, true, false, none, List, [], ◌∷◌, ◌++◌, Text, codes, text_eq,
  length,
}
use krepe.Hdf5.{Hdf5, IsLawful, GroupPath, path_eq}
use krepe.Hdf5.Disk.{IsEmpty}
use krepe.Hdf5.Actions.{
  Action, below, attribute_reading, link_reading, Elsewhere, Elsewhere-append, Elsewhere-below,
  perform_all, get_attribute-perform_all, get_link-perform_all, attribute_at-Elsewhere,
  link_at-Elsewhere,
}
use krepe.Capture.Tracker.{AllocationSnapshot}
use krepe.Capture.Names.{group_name}
use krepe.Hdf5.Write.{attribute_of, link_of}
use krepe.Capture.Dump.{
  Source, group_commands, write_dump, write_snapshot, write_rest, root_commands, views_of,
}
use krepe.Capture.Dump.Snapshot.{
  view_path, write_dump_read, write_snapshot_read, write_snapshot-Elsewhere, write_rest-Elsewhere,
}
use krepe.Capture.Dump.Views.{snapshot_links, dump_links}
use krepe.Capture.Hooks.{KernelDump}
use krepe.Replay.Reader.Inputs.{HoldsSnapshot}

-- The file has no attribute and no link, below one of the root's groups or anywhere.
abbrev pub IsFreshBelow : (h : Hdf5) → Text → h.File → Type 0
IsFreshBelow h name f =
    (q : GroupPath) (m : Text)
    → (h.get_attribute f (name ∷ q) m ≡ none) × (h.get_link f (name ∷ q) m ≡ none)

module _ (h : Hdf5) (l : IsLawful h) (s : Source) where
  -- What actions elsewhere leave alone.
  kept_attribute :
      (xs : List Action) (f : h.File) (q : GroupPath) (m : Text)
      → (perform_all h xs f).0 ≡ true
      → Elsewhere q xs
      → h.get_attribute (perform_all h xs f).1 q m ≡ h.get_attribute f q m
  kept_attribute xs f q m done e =
      get_attribute-perform_all h l xs f q m done
      ∙ attribute_at-Elsewhere q m xs (h.get_attribute f q m) e

  kept_link :
      (xs : List Action) (f : h.File) (q : GroupPath) (m : Text)
      → (perform_all h xs f).0 ≡ true
      → Elsewhere q xs
      → h.get_link (perform_all h xs f).1 q m ≡ h.get_link f q m
  kept_link xs f q m done e =
      get_link-perform_all h l xs f q m done ∙ link_at-Elsewhere q m xs (h.get_link f q m) e

  pub write_dump-HoldsSnapshot :
      (d : KernelDump) (f : h.File)
      → IsEmpty h f
      → (perform_all h (write_dump s d) f).0 ≡ true
      → length d.input_snapshot.allocations < 2 ^ 64
      → HoldsSnapshot h s (codes "in") d.input_snapshot (perform_all h (write_dump s d) f).1
  write_dump-HoldsSnapshot d f empty done small = record {
    attributes_of = λ k a m e.
        get_attribute-perform_all h l (write_dump s d) f (view_path (codes "in") k a) m done
        ∙ write_dump_read s attribute_reading d k a m _ small e
        ∙ ap (attribute_of m (group_commands s a)) (empty (view_path (codes "in") k a) m).0;
    links_of = λ k a m e.
        get_link-perform_all h l (write_dump s d) f (view_path (codes "in") k a) m done
        ∙ write_dump_read s link_reading d k a m _ small e
        ∙ ap (link_of m (group_commands s a)) (empty (view_path (codes "in") k a) m).1;
    views_of_allocations = λ m.
        rw
          (
            get_link-perform_all h l (write_dump s d) f (views_of (codes "in")) m done,
            (empty (views_of (codes "in")) m).1,
            dump_links s d m,
          )
          (snapshot_links s (codes "in") d.input_snapshot m);
  }

  pub write_snapshot-HoldsSnapshot :
      (name : Text) (snapshot : AllocationSnapshot) (f : h.File)
      → IsFreshBelow h name f
      → (perform_all h (write_snapshot s name snapshot) f).0 ≡ true
      → length snapshot.allocations < 2 ^ 64
      → HoldsSnapshot h s name snapshot (perform_all h (write_snapshot s name snapshot) f).1
  write_snapshot-HoldsSnapshot name snapshot f fresh done small = record {
    attributes_of = λ k a m e.
        get_attribute-perform_all h l (write_snapshot s name snapshot) f (view_path name k a) m done
        ∙ write_snapshot_read s attribute_reading name snapshot k a m _ small e
        ∙ ap (attribute_of m (group_commands s a))
            (fresh (codes "views" ∷ group_name k a.recorded.label ∷ []) m).0;
    links_of = λ k a m e.
        get_link-perform_all h l (write_snapshot s name snapshot) f (view_path name k a) m done
        ∙ write_snapshot_read s link_reading name snapshot k a m _ small e
        ∙ ap (link_of m (group_commands s a))
            (fresh (codes "views" ∷ group_name k a.recorded.label ∷ []) m).1;
    views_of_allocations = λ m.
        rw
          (
            get_link-perform_all h l (write_snapshot s name snapshot) f (views_of name) m done,
            (fresh (codes "views" ∷ []) m).1,
          )
          (snapshot_links s name snapshot m);
  }

  -- A snapshot under another name is kept, whatever memory that one was taken of.
  pub HoldsSnapshot-kept :
      (s' : Source) (name other : Text) (held added : AllocationSnapshot) (f : h.File)
      → text_eq other name ≡ false
      → HoldsSnapshot h s name held f
      → (perform_all h (write_snapshot s' other added) f).0 ≡ true
      → HoldsSnapshot h s name held (perform_all h (write_snapshot s' other added) f).1
  HoldsSnapshot-kept s' name other held added f ne w done =
      let away = λ (q : GroupPath). write_snapshot-Elsewhere s' other name q added ne in
      record {
        attributes_of = λ k a m e.
            kept_attribute (write_snapshot s' other added) f (view_path name k a) m done (away _)
            ∙ w.attributes_of k a m e;
        links_of = λ k a m e.
            kept_link (write_snapshot s' other added) f (view_path name k a) m done (away _)
            ∙ w.links_of k a m e;
        views_of_allocations = λ m.
            rw
              (kept_link (write_snapshot s' other added) f (views_of name) m done
                (away (codes "views" ∷ [])))
              (w.views_of_allocations m);
      }

  -- A dump has nothing below the group of the output.
  write_dump-Elsewhere :
      (d : KernelDump) (q : GroupPath) → Elsewhere (codes "out" ∷ q) (write_dump s d)
  unfolding write_dump path_eq text_eq
  write_dump-Elsewhere d q =
      Elsewhere-append (codes "out" ∷ q) (below [] (root_commands d))
        (write_snapshot s (codes "in") d.input_snapshot ++ write_rest d)
        (Elsewhere-below [] (codes "out" ∷ q) (root_commands d) refl)
        (Elsewhere-append (codes "out" ∷ q) (write_snapshot s (codes "in") d.input_snapshot)
          (write_rest d)
          (write_snapshot-Elsewhere s (codes "in") (codes "out") q d.input_snapshot refl)
          (write_rest-Elsewhere d (codes "out" ∷ q) refl refl refl refl))

  pub write_dump-IsFreshBelow :
      (d : KernelDump) (f : h.File)
      → IsEmpty h f
      → (perform_all h (write_dump s d) f).0 ≡ true
      → IsFreshBelow h (codes "out") (perform_all h (write_dump s d) f).1
  write_dump-IsFreshBelow d f empty done q m = (
    kept_attribute (write_dump s d) f (codes "out" ∷ q) m done (write_dump-Elsewhere d q)
        ∙ (empty (codes "out" ∷ q) m).0,
    kept_link (write_dump s d) f (codes "out" ∷ q) m done (write_dump-Elsewhere d q)
        ∙ (empty (codes "out" ∷ q) m).1,
  )
