-- ===== src/Replay/Reader/Names.antt =====
-- The names that an iteration visits, and the entries read for them.
use mathlib.Core.Path.{subst}
use krepe.Prelude.{
  ℕ, suc, ◌≡◌, ◌≢◌, ◌↔◌, ◌⊎◌, refl, sym, inl, inr, none, List, [], ◌∷◌, ◌++◌, Text, ok,
}
use krepe.Prelude.Dict.{Listed}
use krepe.Hdf5.{Hdf5, GroupPath}
use krepe.Capture.Names.{group_name}
use krepe.Capture.Tracker.{ActiveAllocation}
use krepe.Replay.Dump.{Entry}
use krepe.Replay.Reader.{Stoull, read_entry, read_entries}

-- The names of a group's links, in any order.
abbrev pub ListsLinks : (h : Hdf5) → h.File → GroupPath → List Text → Type 0
ListsLinks h f p names = (m : Text) → Listed m names ↔ (h.get_link f p m ≢ none)

-- The name of the group of that allocation.
abbrev pub NamedOf : ℕ → List ActiveAllocation → Text → ActiveAllocation → Type 0
NamedOf i [] m a = ⊥
NamedOf i (x ∷ xs) m a = ((m ≡ group_name i x.recorded.label) × (a ≡ x)) ⊎ NamedOf (suc i) xs m a

pub NamedOf-Listed :
    (i : ℕ) (xs : List ActiveAllocation) (m : Text) (a : ActiveAllocation)
    → NamedOf i xs m a
    → Listed a xs
NamedOf-Listed i [] m a named = named
NamedOf-Listed i (x ∷ xs) m a (inl here) = inl here.1
NamedOf-Listed i (x ∷ xs) m a (inr later) = inr (NamedOf-Listed (suc i) xs m a later)

-- Related element by element.
abbrev pub All2 : {A B : Type 0} → (A → B → Type 0) → List A → List B → Type 0
All2 P [] [] = Unit
All2 P (m ∷ ms) (e ∷ es) = P m e × All2 P ms es
All2 P _ _ = ⊥

module _ {A B : Type 0} (P : A → B → Type 0) where
  pub All2-left :
      (ms : List A) (es : List B) (e : B)
      → All2 P ms es
      → Listed e es
      → (m : A) × Listed m ms × P m e
  All2-left [] [] e all l = elim l [ ]
  All2-left [] (x ∷ es) e all l = elim all [ ]
  All2-left (m ∷ ms) [] e all l = elim l [ ]
  All2-left (m ∷ ms) (x ∷ es) e all (inl here) = (m, inl refl, subst (P m) (sym here) all.0)
  All2-left (m ∷ ms) (x ∷ es) e all (inr there) =
      let (n, listed, holds) = All2-left ms es e all.1 there in (n, inr listed, holds)

  pub All2-right :
      (ms : List A) (es : List B) (m : A)
      → All2 P ms es
      → Listed m ms
      → (e : B) × Listed e es × P m e
  All2-right [] es m all l = elim l [ ]
  All2-right (n ∷ ms) [] m all l = elim all [ ]
  All2-right (n ∷ ms) (x ∷ es) m all (inl here) =
      (x, inl refl, subst (λ (k : A). P k x) (sym here) all.0)
  All2-right (n ∷ ms) (x ∷ es) m all (inr there) =
      let (e, listed, holds) = All2-right ms es m all.1 there in (e, inr listed, holds)

-- What an iteration over names gives, when each name has an entry.
pub read_names :
    (h : Hdf5) (f : h.File) (stoull : Stoull) (p : GroupPath) (P : Text → Entry → Type 0)
    (names : List Text)
    → ((m : Text)
        → Listed m names
        → (e : Entry) × P m e × (read_entry h f stoull (p ++ m ∷ []) ≡ ok e))
    → (es : List Entry) × (read_entries h f stoull p names ≡ ok es) × All2 P names es
unfolding read_entries
read_names h f stoull p P [] reads = ([], refl, tt)
read_names h f stoull p P (m ∷ names) reads =
    let (e, holds, read) = reads m (inl refl) in
    let (es, done, all) = read_names h f stoull p P names (λ n l. reads n (inr l)) in
    (e ∷ es, rw (read, done) refl, (holds, all))
