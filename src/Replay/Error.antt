-- ===== src/Replay/Error.antt =====
-- The exceptions that src/krepe/replay throws, one constructor for each message; `invalid_pointer` is
-- what `std::stoull` throws.
use krepe.Prelude.{ℕ, Text}
use krepe.Prelude.Int.{ℤ}

pub data Error : Type 0 where
  hdf5_failed : Error
  invalid_pointer : Error
  no_policy_in_dump : Error
  not_one_dimensional : Error
  inconsistent_dataset : Error
  reservation_failed : Error
  device_failed : Error
  unexpected_size : ℕ → Error
  unexpected_schedule : Text → Error
  no_execution_space : Text → Error
  unexpected_rank : ℤ → Error
  unexpected_pattern : Text → Error
  unknown_policy : Text → Error
  no_device_space : Error
  no_active_allocations : Error
  ambiguous_label : Text → Error
  input_unavailable : Text → Error
  missing_input_bytes : Text → Error
  duplicate_input : Text → Error
  unmatched_output : Text → Error
  inconsistent_output : Text → Error
  reference_unavailable : Text → Error
  incompatible_space : Text → Error
  incompatible_sizes : Text → Error
  missing_data : Text → Error
  view_reference_unavailable : Text → Error
  view_exceeds_allocation : Text → Error
  closures_of_other_size : ℕ → ℕ → Error
  closure_exceeds_data : Error
  functor_too_small : ℕ → ℕ → Error
  already_initialized : Error
  dump_flag_expected : Error
  not_initialized : Error
  guard_owned_by_user : Error
  already_finalized : Error
  reset_disabled : Error
  outside_kokkos : Error
