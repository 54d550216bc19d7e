-- ===== src/Replay/Policy/RoundTrip.antt =====
-- A policy survives the file.
use krepe.Prelude.{
  ℕ, ◌-◌, ◌^◌, ◌<◌, ◌≡◌, refl, Bool, true, false, not, none, [], ◌∷◌, ◌++◌, Text, text_eq, length,
  take, length-append, take-append, arith, Result, ok, err, ◌>>=◌,
}
use krepe.Prelude.Int.{pos, int_eq, to_bits}
use krepe.Hdf5.Write.{attribute_of, link_of}
use krepe.Capture.Policy.{
  IndexTypeDesc, MdRangePolicyDesc, PolicyDesc, no_policy, scalar, range, mdrange, team,
}
use krepe.Capture.Policy.Write.{write_policy, bool_to_int, size_to_int}
use krepe.Replay.Error.{Error}
use krepe.Replay.Policy.{
  Build, ReplayPolicy, monostate, scalar_policy, range_policy, mdrange_policy, team_policy, Traits,
  get_policy_index_type_from_props, get_policy_exec_space_from_name, get_policy_schedule_from_name,
  policy_rank, iteration_pattern, read_policy_from_hdf5, MdRange,
}

-- What a description stands for, without a file.
abbrev pub traits_of : Build → IndexTypeDesc → Text → Text → Result Error Traits
traits_of b index_type_desc space schedule =
    get_policy_index_type_from_props index_type_desc.is_signed index_type_desc.size >>= λ i.
    get_policy_exec_space_from_name b space >>= λ e. get_policy_schedule_from_name schedule >>= λ s.
    ok (record { index_type = i; exec_space = e; schedule = s })

abbrev pub mdrange_of : Build → MdRangePolicyDesc → Result Error MdRange
mdrange_of b p = policy_rank b (pos p.rank) >>= λ rank. iteration_pattern p.outer_dir >>= λ outer.
    iteration_pattern p.inner_dir >>= λ inner. ok (record {
      begin = p.begin;
      end = p.end;
      tile = p.tile;
      rank = rank;
      outer_iter_dir = outer;
      inner_iter_dir = inner;
    })

abbrev pub policy_of : Build → PolicyDesc → Result Error ReplayPolicy
policy_of b no_policy = ok monostate
policy_of b (scalar n) = ok (scalar_policy n)
policy_of b (range p) = traits_of b p.index_type_desc p.space p.schedule >>= λ traits.
    ok (range_policy p.begin p.end p.chunk_size traits)
policy_of b (mdrange p) = traits_of b p.index_type_desc p.space p.schedule >>= λ traits.
    mdrange_of b p >>= λ q. ok (mdrange_policy q traits)
policy_of b (team p) = traits_of b p.index_type_desc p.space p.schedule >>= λ traits. ok (
    team_policy
      (record {
        team_size = p.team_size;
        league_size = p.league_size;
        vector_length = p.vector_length;
        team_scratch_0 = p.team_scratch_0;
        team_scratch_1 = p.team_scratch_1;
        thread_scratch_0 = p.thread_scratch_0;
        thread_scratch_1 = p.thread_scratch_1;
        chunk_size = p.chunk_size;
      })
      traits)

-- The sizes are `int`s.
abbrev FitsSize : IndexTypeDesc → Type 0
FitsSize i = i.size < 2 ^ 31

abbrev pub FitsInt : PolicyDesc → Type 0
FitsInt no_policy = Unit
FitsInt (scalar n) = Unit
FitsInt (range p) = FitsSize p.index_type_desc
FitsInt (mdrange p) = FitsSize p.index_type_desc × (p.rank < 2 ^ 31)
FitsInt (team p) = FitsSize p.index_type_desc

pub without_null : (s : Text) → take (length (s ++ 0 ∷ []) - 1) (s ++ 0 ∷ []) ≡ s
without_null s = take-append _ s (0 ∷ []) (omega (arith, length-append s (0 ∷ [])))

size_back : (n : ℕ) → n < 2 ^ 31 → to_bits 64 (size_to_int n) ≡ n
size_back n h = ground arith

rank_back : (n : ℕ) → n < 2 ^ 31 → size_to_int n ≡ pos n
rank_back n h = ground arith

signed_back : (s : Bool) → not (int_eq (bool_to_int s) (pos 0)) ≡ s
unfolding int_eq
signed_back true = refl
signed_back false = refl

>>=_cong :
    {A B : Type 0} (m : Result Error A) (f g : A → Result Error B)
    → ((a : A) → f a ≡ g a)
    → (m >>= f) ≡ (m >>= g)
>>=_cong (err z) f g h = refl
>>=_cong (ok a) f g h = h a

-- Where the size of the index type and the rank are below 2 ^ 31, what the replayer reads of a
-- policy that the tool wrote is what its description stands for; a description that the replayer
-- does not support is refused with the same error.
pub read_policy-write_policy :
    (b : Build) (d : PolicyDesc)
    → FitsInt d
    → read_policy_from_hdf5
        (λ m. attribute_of m (write_policy d) none)
        (λ m. link_of m (write_policy d) none)
        b
      ≡ policy_of b d
unfolding read_policy_from_hdf5 write_policy text_eq
read_policy-write_policy b no_policy f = refl
read_policy-write_policy b (scalar n) f = refl
read_policy-write_policy b (range p) f =
    rw
      (
        size_back p.index_type_desc.size f,
        signed_back p.index_type_desc.is_signed,
        without_null p.space,
        without_null p.schedule,
      )
      refl
read_policy-write_policy b (mdrange p) f =
    rw
      (
        size_back p.index_type_desc.size f.0,
        signed_back p.index_type_desc.is_signed,
        without_null p.space,
        without_null p.schedule,
      )
      (>>=_cong (traits_of b p.index_type_desc p.space p.schedule) _ _ (λ traits.
        rw (rank_back p.rank f.1, without_null p.outer_dir, without_null p.inner_dir) refl))
read_policy-write_policy b (team p) f =
    rw
      (
        size_back p.index_type_desc.size f,
        signed_back p.index_type_desc.is_signed,
        without_null p.space,
        without_null p.schedule,
      )
      refl
