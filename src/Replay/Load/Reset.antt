-- ===== src/Replay/Load/Reset.antt =====
-- A reset of the inputs undoes what kernels did to them.
use krepe.Prelude.{ℕ, ◌≡◌, true, ◌||◌, Option, none, some, List, [], ◌∷◌, ◌++◌, ok, err}
use krepe.Replay.Error.{Error}
use krepe.Replay.Space.{MemorySpaceType, is_host, Platform, memory_space_type_from_string}
use krepe.Replay.Dump.{Entry, allocate_hdf5_dataset}
use krepe.Replay.Load.{Memory, InputSnapshot, byte_at, or_else, Restored}

-- The byte that the copies leave at an address, if one of them writes there.
abbrev pub written : List InputSnapshot → MemorySpaceType → ℕ → Option ℕ → Option ℕ
written [] s a o = o
written (i ∷ is) s a o = written is s a (elim (byte_at i s a) [ none ↦ o | some b ↦ some b ])

abbrev Copyable : Platform → List InputSnapshot → Type 0
Copyable p [] = Unit
Copyable p (i ∷ is) = ((is_host i.memory_space || p.has_device) ≡ true) × Copyable p is

-- The memory is what the kept inputs leave of the memory `m`.
pub record Follows (p : Platform) (m : Memory) (r : Restored) : Type 0 where
  pub copyable : Copyable p r.input_snapshots
  pub bytes_of :
      (s : MemorySpaceType) (a : ℕ)
      → r.memory s a ≡ or_else (written r.input_snapshots s a none) (m s a)

-- What a group's bytes put where: nothing for an allocation without bytes.
abbrev pub input_of : Platform → Entry → List InputSnapshot
input_of p e = elim (allocate_hdf5_dataset p e) [
  | err x ↦ []
  | ok none ↦ []
  | ok (some bytes) ↦
      record {
        memory_space = memory_space_type_from_string e.info.space;
        address = e.info.address;
        bytes = bytes;
      }
      ∷ []
]

abbrev pub inputs_of : Platform → List Entry → List InputSnapshot
inputs_of p [] = []
inputs_of p (e ∷ es) = input_of p e ++ inputs_of p es
