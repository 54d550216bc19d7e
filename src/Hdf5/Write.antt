-- ===== src/Hdf5/Write.antt =====
-- Sequences of writing calls, and what a file holds after them.
use krepe.Prelude.{Option, some, List, [], ◌∷◌, Text, text_eq, if◌then◌else◌}
use krepe.Hdf5.{Attribute, Target}

-- One write below a group.
pub data Command : Type 0 where
  attribute : Text → Attribute → Command
  link : Text → Target → Command

-- What the commands give an attribute, a link.
abbrev pub attribute_of : Text → List Command → Option Attribute → Option Attribute
attribute_of m [] old = old
attribute_of m (attribute n v ∷ cs) old = attribute_of m cs (if text_eq n m then some v else old)
attribute_of m (link n v ∷ cs) old = attribute_of m cs old

abbrev pub link_of : Text → List Command → Option Target → Option Target
link_of m [] old = old
link_of m (attribute n v ∷ cs) old = link_of m cs old
link_of m (link n v ∷ cs) old = link_of m cs (if text_eq n m then some v else old)
