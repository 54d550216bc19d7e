-- ===== src/Replay/Store/Compare.antt =====
-- When an allocation can be compared with its reference.
use krepe.Prelude.{◌≡◌, ◌≢◌, ◌↔◌, true, Text, text_eq_iff, arith, ok}
use krepe.Replay.Space.{Platform}
use krepe.Replay.Store.{ReplayAllocation, host_name, replay_space, validate_comparison}

-- The input and the reference are there, of the same size, with memory behind them unless they are
-- empty, and the view is in the space in which the allocation is replayed.
pub record IsComparable (p : Platform) (a : ReplayAllocation) (memory_space : Text) : Type 0 where
  pub input : a.has_input ≡ true
  pub reference : a.has_reference ≡ true
  pub replayed : replay_space p a.memory_space ≡ ok memory_space
  pub same_size : a.size_bytes ≡ a.reference_size_bytes
  pub in_memory : a.size_bytes ≢ 0 → (a.p_data ≢ 0) × (a.reference_data ≢ 0)

-- A comparison is let through exactly if the input and the reference are there, have the same
-- size, have memory behind them unless they are empty, and the view is in the space in which the
-- allocation is replayed.
pub validate_comparison_lem :
    (p : Platform) (a : ReplayAllocation) (memory_space : Text)
    → (validate_comparison p a memory_space ≡ ok tt) ↔ IsComparable p a memory_space
unfolding validate_comparison
validate_comparison_lem p a memory_space = (
  λ h. record {
    input = ground arith;
    reference = ground arith;
    replayed =
        ground
          (arith, text_eq_iff memory_space host_name, text_eq_iff memory_space p.device_space_name);
    same_size = ground arith;
    in_memory = λ full. (λ null. ground arith, λ null. ground arith);
  },
  λ c.
      ground
        (arith, text_eq_iff memory_space host_name, text_eq_iff memory_space p.device_space_name),
)
