-- ===== src/Capture/Dump/Groups.antt =====
-- What the other groups of a dump hold: `metadata`, `policy` and `functor`.
use krepe.Prelude.{ap, ◌≡◌, refl, ◌∙◌, false, List, [], ◌∷◌, ◌++◌, Text, codes, text_eq}
use krepe.Hdf5.{group, GroupPath, path_eq}
use krepe.Hdf5.Write.{Command, link}
use krepe.Hdf5.Actions.{Action, Reading, below, Elsewhere, Elsewhere-below, Elsewhere-append}
use krepe.Capture.Policy.Write.{write_policy}
use krepe.Capture.Dump.{
  Source, write_snapshot, write_metadata, in_group, root_commands, functor_commands, write_rest,
  write_dump,
}
use krepe.Capture.Dump.Snapshot.{write_snapshot-Elsewhere}
use krepe.Capture.Hooks.{KernelDump}

in_group-Elsewhere :
    (name n : Text) (commands : List Command)
    → text_eq name n ≡ false
    → Elsewhere (n ∷ []) (in_group name commands)
unfolding path_eq
in_group-Elsewhere name n commands e =
    (refl, Elsewhere-below (name ∷ []) (n ∷ []) commands (rw e refl))

module _ {X : Type 0} (r : Reading X) where
  open r use {at, of, at-append, at-Elsewhere, at-below}

  skip :
      (q : GroupPath) (m : Text) (xs ys : List Action) (o : X)
      → Elsewhere q xs
      → at q m (xs ++ ys) o ≡ at q m ys o
  skip q m xs ys o e = at-append q m xs ys o ∙ ap (at q m ys) (at-Elsewhere q m xs o e)

  first :
      (q : GroupPath) (m : Text) (xs ys : List Action) (o : X)
      → Elsewhere q ys
      → at q m (xs ++ ys) o ≡ at q m xs o
  first q m xs ys o e = at-append q m xs ys o ∙ at-Elsewhere q m ys _ e

  in_group_read :
      (name m : Text) (commands : List Command) (o : X)
      → at (name ∷ []) m (in_group name commands) o ≡ of m commands o
  unfolding path_eq
  in_group_read name m commands o =
      skip (name ∷ []) m (([], link name group) ∷ []) (below (name ∷ []) commands) o (refl, tt)
      ∙ at-below (name ∷ []) m commands o

  -- The groups behind the snapshot.
  rest_read :
      (s : Source) (d : KernelDump) (n m : Text) (o : X)
      → text_eq (codes "in") n ≡ false
      → at (n ∷ []) m (write_dump s d) o ≡ at (n ∷ []) m (write_rest d) o
  unfolding write_dump path_eq
  rest_read s d n m o e =
      skip (n ∷ []) m (below [] (root_commands d))
        (write_snapshot s (codes "in") d.input_snapshot ++ write_rest d) o
        (Elsewhere-below [] (n ∷ []) (root_commands d) refl)
      ∙ skip (n ∷ []) m (write_snapshot s (codes "in") d.input_snapshot) (write_rest d) o
          (write_snapshot-Elsewhere s (codes "in") n [] d.input_snapshot e)

  pub metadata_read :
      (s : Source) (d : KernelDump) (m : Text) (o : X)
      → at (codes "metadata" ∷ []) m (write_dump s d) o ≡ of m (write_metadata d.metadata) o
  unfolding text_eq
  metadata_read s d m o =
      let name = codes "metadata" in
      let policy = in_group (codes "policy") (write_policy d.policy) in
      let functor = in_group (codes "functor") (functor_commands d) in
      rest_read s d name m o refl
      ∙ first (name ∷ []) m (in_group name (write_metadata d.metadata)) (policy ++ functor) o (
          Elsewhere-append (name ∷ []) policy functor
            (in_group-Elsewhere (codes "policy") name (write_policy d.policy) refl)
            (in_group-Elsewhere (codes "functor") name (functor_commands d) refl))
      ∙ in_group_read name m (write_metadata d.metadata) o

  pub policy_read :
      (s : Source) (d : KernelDump) (m : Text) (o : X)
      → at (codes "policy" ∷ []) m (write_dump s d) o ≡ of m (write_policy d.policy) o
  unfolding text_eq
  policy_read s d m o =
      let name = codes "policy" in
      let metadata = in_group (codes "metadata") (write_metadata d.metadata) in
      let functor = in_group (codes "functor") (functor_commands d) in
      rest_read s d name m o refl
      ∙ skip (name ∷ []) m metadata (in_group name (write_policy d.policy) ++ functor) o
          (in_group-Elsewhere (codes "metadata") name (write_metadata d.metadata) refl)
      ∙ first (name ∷ []) m (in_group name (write_policy d.policy)) functor o
          (in_group-Elsewhere (codes "functor") name (functor_commands d) refl)
      ∙ in_group_read name m (write_policy d.policy) o

  pub functor_read :
      (s : Source) (d : KernelDump) (m : Text) (o : X)
      → at (codes "functor" ∷ []) m (write_dump s d) o ≡ of m (functor_commands d) o
  unfolding text_eq
  functor_read s d m o =
      let name = codes "functor" in
      let metadata = in_group (codes "metadata") (write_metadata d.metadata) in
      let policy = in_group (codes "policy") (write_policy d.policy) in
      rest_read s d name m o refl
      ∙ skip (name ∷ []) m metadata (policy ++ in_group name (functor_commands d)) o
          (in_group-Elsewhere (codes "metadata") name (write_metadata d.metadata) refl)
      ∙ skip (name ∷ []) m policy (in_group name (functor_commands d)) o
          (in_group-Elsewhere (codes "policy") name (write_policy d.policy) refl)
      ∙ in_group_read name m (functor_commands d) o
