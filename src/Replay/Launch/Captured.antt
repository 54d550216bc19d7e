-- ===== src/Replay/Launch/Captured.antt =====
-- A replay launches the policy that the extractor registered.
use krepe.Prelude.{
  ap, ℕ, ◌^◌, ◌<◌, ◌≡◌, ◌≢◌, refl, sym, ◌∙◌, true, some, [], ◌∷◌, map, codes, arith, Result, ok,
  ◌>>=◌,
}
use krepe.Prelude.Int.{pos, int_eq}
use krepe.Replay.Policy.{
  IndexType, int8, int16, int32, int64, uint8, uint16, uint32, uint64, Build, policy_rank,
}
use krepe.Replay.Policy.RoundTrip.{policy_of, FitsInt}
use krepe.Capture.DataSize.{Host}
use krepe.Capture.Hooks.{Tool}
use krepe.Capture.Hooks.Entries.{Entry, enter}
use krepe.Kokkos.{
  unresolved, no_extras, RangePolicy, MdRangePolicy, TeamPolicy, Policy, number, range, mdrange,
  team,
}
use krepe.Extract.Bounds.{
  index_size, is_signed, to_int64, schedule_to_string, int_or_minus_one, scratch_sizes,
  CapturedBuild, register_bounds,
}
use krepe.Replay.Launch.{Callable, visit}
use mathlib.Core.Path.{subst}
use krepe.Hdf5.{Hdf5, IsLawful}
use krepe.Hdf5.Disk.{Disk, IsReliable}
use krepe.Capture.Dump.{Source}
use krepe.Capture.Dump.Files.{create_kernel_dump}
use krepe.Capture.Hooks.{KernelDump}
use krepe.Replay.Error.{Error}
use krepe.Replay.Policy.{ReplayPolicy, read_policy_from_hdf5}
use krepe.Replay.Reader.RoundTrip.{read_policy-create_kernel_dump}
use krepe.Capture.Hooks.Entries.{registers_scalar, registers_mdrange, registers_team}
use krepe.Replay.Launch.RoundTrip.{
  pattern_back, scratch_back, queried_scratch, IsScratch, FitsIndex, to_index-index_type_to_u64,
  IsKokkosName, traits_back, bound_back, auto_back, IsBound, IsAutoOrSize,
}

-- A dump can stand for the policy: its numbers fit, the build has its space, and the replayed functor
-- can be called with it.
abbrev pub Replayable : CapturedBuild → Build → Callable → Policy → Type 0
Replayable built b c (number n) = c.supports_n_args 1 ≡ true
Replayable built b c (range p) =
    (b.enabled p.exec_space ≡ true)
    × (c.supports_n_args 1 ≡ true)
    × FitsIndex p.index_type p.begin
    × FitsIndex p.index_type p.end
Replayable built b c (mdrange p) =
    (b.enabled p.exec_space ≡ true)
    × (c.supports_n_args p.rank ≡ true)
    × (policy_rank b (pos p.rank) ≡ ok p.rank)
    × (p.outer_direction ≢ unresolved)
    × (p.inner_direction ≢ unresolved)
    × IsBound p.rank p.lower
    × IsBound p.rank p.upper
    × IsBound p.rank p.tile
Replayable built b c (team p) =
    (b.enabled p.exec_space ≡ true)
    × (c.is_team_functor
          (record { index_type = p.index_type; exec_space = p.exec_space; schedule = p.schedule })
        ≡ true)
    × IsAutoOrSize p.team_size
    × IsAutoOrSize p.vector_length
    × IsScratch built p

-- The policy that a replay can restore: without a work tag and launch bounds, and with the scratch
-- sizes that the captured program could query.
abbrev pub restored : CapturedBuild → Policy → Policy
restored built (number n) = number n
restored built (range p) = range (record p { extras = no_extras })
restored built (mdrange p) = mdrange (record p { extras = no_extras })
restored built (team p) = team (record p { extras = no_extras; scratch = queried_scratch built p })

-- The sizes of the types are at most 8.
small_index : (t : IndexType) → index_size t < 2 ^ 31
small_index int8 = omega arith
small_index int16 = omega arith
small_index int32 = omega arith
small_index int64 = omega arith
small_index uint8 = omega arith
small_index uint16 = omega arith
small_index uint32 = omega arith
small_index uint64 = omega arith

small_rank : (b : Build) (n : ℕ) → policy_rank b (pos n) ≡ ok n → n < 2 ^ 31
unfolding policy_rank int_eq
small_rank b n h = ground arith

-- What the tool has of a policy that the extractor registered.
module _ (built : CapturedBuild) (b : Build) (c : Callable) (h : Host) (t : Tool) where
  -- Some call registers the policy, and the description that it leaves in the tool stands for it.
  abbrev pub Registers : Policy → Type 0
  Registers p =
      (e : Entry) × (register_bounds built p ≡ some e)
      × FitsInt (enter h e t).policy
      × ((policy_of b (enter h e t).policy >>= visit c) ≡ ok (some (restored built p)))

  number_registered : (n : ℕ) → Replayable built b c (number n) → Registers (number n)
  unfolding register_bounds enter visit
  number_registered n calls = (registers_scalar n, refl, tt, rw calls refl)

  range_registered :
      (p : RangePolicy)
      → IsKokkosName built.name
      → Replayable built b c (range p)
      → Registers (range p)
  unfolding register_bounds enter visit
  range_registered p k (on, calls, begin, end) = (
    _,
    refl,
    small_index p.index_type,
    rw
        (
          traits_back built.name b p.index_type p.exec_space p.schedule k on,
          calls,
          to_index-index_type_to_u64 p.index_type p.begin begin,
          to_index-index_type_to_u64 p.index_type p.end end,
        )
        refl,
  )

  mdrange_registered :
      (p : MdRangePolicy)
      → IsKokkosName built.name
      → Replayable built b c (mdrange p)
      → Registers (mdrange p)
  unfolding register_bounds enter visit
  mdrange_registered p k (on, calls, rank, o, i, lower, upper, tile) =
      let (outer_dir, outer, outer_name, outer_read, outer_back) =
        pattern_back p.outer_direction o in
      let (inner_dir, inner, inner_name, inner_read, inner_back) =
        pattern_back p.inner_direction i in
      (
        registers_mdrange (built.name p.exec_space) (schedule_to_string p.schedule) p.rank outer_dir
            inner_dir (index_size p.index_type) (is_signed p.index_type) (map to_int64 p.lower)
            (map to_int64 p.upper) (map to_int64 p.tile),
        rw (outer_name, inner_name, register_bounds) refl,
        (small_index p.index_type, small_rank b p.rank rank),
        rw
            (
              traits_back built.name b p.index_type p.exec_space p.schedule k on,
              rank,
              outer_read,
              inner_read,
              calls,
              outer_back,
              inner_back,
              bound_back p.rank p.lower lower,
              bound_back p.rank p.upper upper,
              bound_back p.rank p.tile tile,
            )
            refl,
      )

  team_registered :
      (p : TeamPolicy)
      → IsKokkosName built.name
      → Replayable built b c (team p)
      → Registers (team p)
  unfolding register_bounds enter visit
  team_registered p k (on, calls, size, vector, level) = (
    registers_team (built.name p.exec_space) (schedule_to_string p.schedule)
        (index_size p.index_type) (is_signed p.index_type) (int_or_minus_one p.team_size)
        p.league_size (int_or_minus_one p.vector_length) (scratch_sizes built p).team_level_0
        (scratch_sizes built p).team_level_1 (scratch_sizes built p).thread_level_0
        (scratch_sizes built p).thread_level_1 p.chunk_size,
    refl,
    small_index p.index_type,
    rw
        (
          traits_back built.name b p.index_type p.exec_space p.schedule k on,
          calls,
          auto_back p.team_size size,
          auto_back p.vector_length vector,
          scratch_back built p level,
        )
        refl,
  )

  registered : (p : Policy) → IsKokkosName built.name → Replayable built b c p → Registers p
  registered (number n) k r = number_registered n r
  registered (range p) k r = range_registered p k r
  registered (mdrange p) k r = mdrange_registered p k r
  registered (team p) k r = team_registered p k r

-- Where the extractor registers a policy that Kokkos resolved, with its spaces' names and with the tool
-- in any state, the tool writes a dump of it with success, and the replayer's build and functor can
-- take the policy, the replay launches the policy that was captured, with its kind, its index type,
-- schedule and space, its bounds in the index type, its tiling and its sizes, and leaves to Kokkos
-- what was left to it, but for three things: it has no work tag and no launch bounds, and scratch
-- sizes are set only if the captured program could query them, to what the query answered.
pub visit-register_bounds :
    (f : Hdf5) (k : Disk f) (s : Source) (built : CapturedBuild) (b : Build) (c : Callable)
    (h : Host) (t : Tool) (p : Policy) (d : KernelDump) (w : k.World) (file : f.File)
    → IsLawful f
    → IsReliable f k
    → IsKokkosName built.name
    → Replayable built b c p
    → (e : Entry) → register_bounds built p ≡ some e
    → d.policy ≡ (enter h e t).policy
    → (create_kernel_dump f k s d w).0.is_ok ≡ true
    → k.open_file (create_kernel_dump f k s d w).0.filename (create_kernel_dump f k s d w).1
      ≡ some file
    → (read_policy_from_hdf5
          (f.get_attribute file (codes "policy" ∷ []))
          (f.get_link file (codes "policy" ∷ []))
          b
        >>= visit c)
      ≡ ok (some (restored built p))
visit-register_bounds f k s built b c h t p d w file l r names able e call same done opened =
    let (e', call', fits, launched) = registered built b c h t p names able in
    let entry : e' ≡ e = ground (arith, call, call') in
    let described : (enter h e' t).policy ≡ d.policy =
      ap (λ (x : Entry). (enter h x t).policy) entry ∙ sym same in
    let read =
      read_policy-create_kernel_dump f k s l r d w file b done opened
        (subst FitsInt described fits) in
    ap (λ (x : Result Error ReplayPolicy). x >>= visit c) (read ∙ ap (policy_of b) (sym described))
    ∙ launched
