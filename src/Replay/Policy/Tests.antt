-- ===== src/Replay/Policy/Tests.antt =====
-- Policies in a file, and the theorem at one.
use krepe.Prelude.{◌≡◌, refl, true, [], ◌∷◌, codes, text_eq, ok, err}
use krepe.Prelude.Int.{pos, int_eq}
use krepe.Capture.Policy.{MdRangePolicyDesc, mdrange}
use krepe.Replay.Error.{unexpected_schedule}
use krepe.Replay.Policy.{
  Build, get_policy_index_type_from_props, get_policy_exec_space_from_name,
  get_policy_schedule_from_name, policy_rank, iteration_pattern, mdrange_policy, int32, serial,
  static, left, right,
}
use krepe.Replay.Policy.RoundTrip.{policy_of}

abbrev build : Build
build = record { enabled = λ s. true; has_rank_one = true }

abbrev tiled : MdRangePolicyDesc
tiled = record {
  index_type_desc = record { size = 4; is_signed = true };
  space = codes "Serial";
  schedule = codes "static";
  rank = 2;
  outer_dir = codes "left";
  inner_dir = codes "right";
  begin = pos 0 ∷ pos 1 ∷ [];
  end = pos 8 ∷ pos 9 ∷ [];
  tile = pos 2 ∷ pos 2 ∷ [];
}

restored :
    policy_of build (mdrange tiled)
    ≡ ok (
        mdrange_policy
          (record {
            begin = tiled.begin;
            end = tiled.end;
            tile = tiled.tile;
            rank = 2;
            outer_iter_dir = left;
            inner_iter_dir = right;
          })
          (record { index_type = int32; exec_space = serial; schedule = static }))
unfolding get_policy_index_type_from_props get_policy_exec_space_from_name
    get_policy_schedule_from_name policy_rank iteration_pattern text_eq int_eq
restored = refl

misspelt :
    get_policy_schedule_from_name (codes "guided") ≡ err (unexpected_schedule (codes "guided"))
unfolding get_policy_schedule_from_name text_eq
misspelt = refl
