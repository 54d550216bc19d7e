-- ===== src/Hdf5/Actions.antt =====
-- Writes to several groups, in one sequence.
use krepe.Prelude.{
  ◌≡◌, refl, Bool, true, false, ◌&&◌, Option, some, List, [], ◌∷◌, ◌++◌, Text, text_eq, arith,
  if◌then◌else◌,
}
use krepe.Hdf5.{Hdf5, IsLawful, GroupPath, path_eq, path_eq_iff, Attribute, Target}
use krepe.Hdf5.Write.{Command, attribute, link, attribute_of, link_of}

abbrev pub Action : Type 0
Action = GroupPath × Command

-- The commands below one group.
abbrev pub below : GroupPath → List Command → List Action
below p [] = []
below p (c ∷ cs) = (p, c) ∷ below p cs

-- What the actions give an attribute of the group `q`, a link.
abbrev pub attribute_at : GroupPath → Text → List Action → Option Attribute → Option Attribute
attribute_at q m [] old = old
attribute_at q m ((p, attribute n v) ∷ xs) old =
    attribute_at q m xs (if path_eq p q && text_eq n m then some v else old)
attribute_at q m ((p, link n v) ∷ xs) old = attribute_at q m xs old

abbrev pub link_at : GroupPath → Text → List Action → Option Target → Option Target
link_at q m [] old = old
link_at q m ((p, attribute n v) ∷ xs) old = link_at q m xs old
link_at q m ((p, link n v) ∷ xs) old =
    link_at q m xs (if path_eq p q && text_eq n m then some v else old)

-- No action is below the group.
abbrev pub Elsewhere : GroupPath → List Action → Type 0
Elsewhere q [] = Unit
Elsewhere q ((p, c) ∷ xs) = (path_eq p q ≡ false) × Elsewhere q xs

pub Elsewhere-append :
    (q : GroupPath) (xs ys : List Action) → Elsewhere q xs → Elsewhere q ys → Elsewhere q (xs ++ ys)
Elsewhere-append q [] ys a b = b
Elsewhere-append q (x ∷ xs) ys a b = (a.0, Elsewhere-append q xs ys a.1 b)

pub Elsewhere-below :
    (p q : GroupPath) (cs : List Command) → path_eq p q ≡ false → Elsewhere q (below p cs)
Elsewhere-below p q [] e = tt
Elsewhere-below p q (c ∷ cs) e = (e, Elsewhere-below p q cs e)

module _ (q : GroupPath) (m : Text) where
  pub attribute_at-append :
      (xs ys : List Action) (o : Option Attribute)
      → attribute_at q m (xs ++ ys) o ≡ attribute_at q m ys (attribute_at q m xs o)
  attribute_at-append [] ys o = refl
  attribute_at-append ((p, attribute n v) ∷ xs) ys o = attribute_at-append xs ys _
  attribute_at-append ((p, link n v) ∷ xs) ys o = attribute_at-append xs ys o

  pub link_at-append :
      (xs ys : List Action) (o : Option Target)
      → link_at q m (xs ++ ys) o ≡ link_at q m ys (link_at q m xs o)
  link_at-append [] ys o = refl
  link_at-append ((p, attribute n v) ∷ xs) ys o = link_at-append xs ys o
  link_at-append ((p, link n v) ∷ xs) ys o = link_at-append xs ys _

  pub attribute_at-Elsewhere :
      (xs : List Action) (o : Option Attribute) → Elsewhere q xs → attribute_at q m xs o ≡ o
  attribute_at-Elsewhere [] o e = refl
  attribute_at-Elsewhere ((p, attribute n v) ∷ xs) o e = rw e.0 (attribute_at-Elsewhere xs o e.1)
  attribute_at-Elsewhere ((p, link n v) ∷ xs) o e = attribute_at-Elsewhere xs o e.1

  pub link_at-Elsewhere :
      (xs : List Action) (o : Option Target) → Elsewhere q xs → link_at q m xs o ≡ o
  link_at-Elsewhere [] o e = refl
  link_at-Elsewhere ((p, attribute n v) ∷ xs) o e = link_at-Elsewhere xs o e.1
  link_at-Elsewhere ((p, link n v) ∷ xs) o e = rw e.0 (link_at-Elsewhere xs o e.1)

  pub attribute_at-below :
      (cs : List Command) (o : Option Attribute)
      → attribute_at q m (below q cs) o ≡ attribute_of m cs o
  attribute_at-below [] o = refl
  attribute_at-below (attribute n v ∷ cs) o =
      rw ((path_eq_iff q q).1 refl, attribute_at) (attribute_at-below cs _)
  attribute_at-below (link n v ∷ cs) o = attribute_at-below cs o

  pub link_at-below :
      (cs : List Command) (o : Option Target) → link_at q m (below q cs) o ≡ link_of m cs o
  link_at-below [] o = refl
  link_at-below (attribute n v ∷ cs) o = link_at-below cs o
  link_at-below (link n v ∷ cs) o = rw ((path_eq_iff q q).1 refl, link_at) (link_at-below cs _)

module _ (h : Hdf5) where
  -- The first call that fails throws, and nothing more is written.
  unfoldable pub perform_all : List Action → h.File → Bool × h.File
  perform_all [] f = (true, f)
  perform_all ((p, attribute n v) ∷ xs) f =
      let (done, f') = h.put_attribute p n v f in
      let rest = perform_all xs f' in if done then rest else (false, f')
  perform_all ((p, link n v) ∷ xs) f =
      let (done, f') = h.put_link p n v f in
      let rest = perform_all xs f' in if done then rest else (false, f')

  module _ (l : IsLawful h) where
    pub get_attribute-perform_all :
        (xs : List Action) (f : h.File) (q : GroupPath) (m : Text)
        → (perform_all xs f).0 ≡ true
        → h.get_attribute (perform_all xs f).1 q m ≡ attribute_at q m xs (h.get_attribute f q m)
    unfolding perform_all
    get_attribute-perform_all [] f q m e = refl
    get_attribute-perform_all ((p, attribute n v) ∷ xs) f q m e = ground (
      arith,
      l.get_attribute-put p q n m v f,
      get_attribute-perform_all xs (h.put_attribute p n v f).1 q m,
    )
    get_attribute-perform_all ((p, link n v) ∷ xs) f q m e = ground (
      arith,
      l.get_attribute-put_link p q n m v f,
      get_attribute-perform_all xs (h.put_link p n v f).1 q m,
    )

    pub get_link-perform_all :
        (xs : List Action) (f : h.File) (q : GroupPath) (m : Text)
        → (perform_all xs f).0 ≡ true
        → h.get_link (perform_all xs f).1 q m ≡ link_at q m xs (h.get_link f q m)
    unfolding perform_all
    get_link-perform_all [] f q m e = refl
    get_link-perform_all ((p, attribute n v) ∷ xs) f q m e = ground (
      arith,
      l.get_link-put_attribute p q n m v f,
      get_link-perform_all xs (h.put_attribute p n v f).1 q m,
    )
    get_link-perform_all ((p, link n v) ∷ xs) f q m e =
        ground
          (arith, l.get_link-put p q n m v f, get_link-perform_all xs (h.put_link p n v f).1 q m)

-- What the proofs about attributes and about links share.
pub record Reading (X : Type 0) : Type 0 where
  pub at : GroupPath → Text → List Action → X → X
  pub of : Text → List Command → X → X
  pub at-append :
      (q : GroupPath) (m : Text) (xs ys : List Action) (o : X)
      → at q m (xs ++ ys) o ≡ at q m ys (at q m xs o)
  pub at-Elsewhere :
      (q : GroupPath) (m : Text) (xs : List Action) (o : X) → Elsewhere q xs → at q m xs o ≡ o
  pub at-below :
      (q : GroupPath) (m : Text) (cs : List Command) (o : X) → at q m (below q cs) o ≡ of m cs o

abbrev pub attribute_reading : Reading (Option Attribute)
attribute_reading = record {
  at = attribute_at;
  of = attribute_of;
  at-append = attribute_at-append;
  at-Elsewhere = attribute_at-Elsewhere;
  at-below = attribute_at-below;
}

abbrev pub link_reading : Reading (Option Target)
link_reading = record {
  at = link_at;
  of = link_of;
  at-append = link_at-append;
  at-Elsewhere = link_at-Elsewhere;
  at-below = link_at-below;
}
