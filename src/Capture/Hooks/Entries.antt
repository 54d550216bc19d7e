-- ===== src/Capture/Hooks/Entries.antt =====
-- The other exported functions of src/krepe/capture/kokkos_hooks.cpp: `krepe_kernel_dump_*`, which
-- the extractor calls, and `kokkosp_*`, which Kokkos calls.
use krepe.Prelude.{
  ℕ, ◌+◌, ◌%◌, ◌^◌, Bool, true, false, not, ◌&&◌, ◌||◌, Option, none, some, List, [], ◌∷◌, Bytes,
  Text, codes, text_eq, has_prefix, length, drop, take, ◌==◌, if◌then◌else◌,
}
use krepe.Prelude.Int.{ℤ}
use krepe.Prelude.Dict.{nat_eq, text_instance, insert}
use krepe.Prelude.Decimal.{from_chars}
use krepe.Capture.Names.{label_or_unknown, is_internal_label, bounded_string}
use krepe.Capture.DataSize.{Host, allocation_data_pointer, allocation_data_size}
use krepe.Capture.Tracker.{
  record_allocation, record_deallocation, record_used_allocation, clear_used_allocations,
}
use krepe.Capture.Policy.{scalar, range, mdrange, team}
use krepe.Capture.Hooks.{Tool, invocations, should_dump_views_for_invocation}

unfoldable pub krepe_kernel_dump_add_metadata : Text → Bytes → ℕ → Tool → Tool
unfolding insert
krepe_kernel_dump_add_metadata key value size t = record t {
  metadata = insert key (take size value) t.metadata;
}

unfoldable pub krepe_kernel_dump_copy_functor : Bytes → ℕ → Tool → Tool
krepe_kernel_dump_copy_functor memory size t = record t {
  functor_data = take size memory;
  nvcc_inner_lambda_data = [];
}

unfoldable pub krepe_kernel_dump_copy_nvcc_lambda : Bytes → ℕ → Bytes → ℕ → Tool → Tool
krepe_kernel_dump_copy_nvcc_lambda memory size inner_functor_data inner_functor_size t = record t {
  functor_data = take size memory;
  nvcc_inner_lambda_data = take inner_functor_size inner_functor_data;
}

unfoldable pub krepe_kernel_dump_register_scalar_policy : ℕ → Tool → Tool
krepe_kernel_dump_register_scalar_policy n t = record t { policy = scalar n }

unfoldable pub krepe_kernel_dump_register_range_policy :
    Text → Text → ℕ → Bool → ℕ → ℕ → ℤ → Tool → Tool
krepe_kernel_dump_register_range_policy space schedule index_type_size index_type_signed begin end
      chunk_size t =
    record t {
      policy = range (record {
        index_type_desc = record { size = index_type_size; is_signed = index_type_signed };
        space = space;
        schedule = schedule;
        begin = begin;
        end = end;
        chunk_size = chunk_size;
      });
    }

unfoldable pub krepe_kernel_dump_register_mdrange_policy :
    Text → Text → ℕ → Text → Text → ℕ → Bool → List ℤ → List ℤ → List ℤ → Tool → Tool
krepe_kernel_dump_register_mdrange_policy space schedule rank outer_dir inner_dir index_type_size
      index_type_signed begin end tile t =
    record t {
      policy = mdrange (record {
        index_type_desc = record { size = index_type_size; is_signed = index_type_signed };
        space = space;
        schedule = schedule;
        rank = rank;
        outer_dir = outer_dir;
        inner_dir = inner_dir;
        begin = take rank begin;
        end = take rank end;
        tile = take rank tile;
      });
    }

unfoldable pub krepe_kernel_dump_register_team_policy :
    Text → Text → ℕ → Bool → ℤ → ℤ → ℤ → ℤ → ℤ → ℤ → ℤ → ℤ → Tool → Tool
krepe_kernel_dump_register_team_policy space schedule index_type_size index_type_signed team_size
      league_size vector_length team_scratch_0 team_scratch_1 thread_scratch_0 thread_scratch_1
      chunk_size t =
    record t {
      policy = team (record {
        index_type_desc = record { size = index_type_size; is_signed = index_type_signed };
        space = space;
        schedule = schedule;
        team_size = team_size;
        league_size = league_size;
        vector_length = vector_length;
        team_scratch_0 = team_scratch_0;
        team_scratch_1 = team_scratch_1;
        thread_scratch_0 = thread_scratch_0;
        thread_scratch_1 = thread_scratch_1;
        chunk_size = chunk_size;
      });
    }

-- `kernel_invocations[kernel_name]` enters a kernel that has not run yet.
unfoldable pub krepe_kernel_dump_next_invocation_will_dump : Text → Tool → Bool × Tool
unfolding should_dump_views_for_invocation insert
krepe_kernel_dump_next_invocation_will_dump kernel_name t =
    let so_far = invocations kernel_name t in
    (
      should_dump_views_for_invocation kernel_name ((so_far + 1) % 2 ^ 64) t,
      record t { kernel_invocations = insert kernel_name so_far t.kernel_invocations },
    )

unfoldable pub krepe_kernel_dump_clear_registered_views : Tool → Tool
krepe_kernel_dump_clear_registered_views t = record t {
  allocation_tracker = clear_used_allocations t.allocation_tracker;
}

unfoldable pub krepe_kernel_dump_register_view : ℕ → Text → Tool → Tool
krepe_kernel_dump_register_view address space t = record t {
  allocation_tracker = record_used_allocation space address t.allocation_tracker;
}

-- A number of at least 1 and nothing else.
unfoldable pub parse_positive_uint64 : Text → Option ℕ
parse_positive_uint64 value = elim (from_chars value) [
  | none ↦ none
  | some (parsed, rest) ↦ if not (text_eq rest []) || parsed == 0 then none else some parsed
]

abbrev pub dump_kernel_label_option : Text
dump_kernel_label_option = codes "--krepe-dump-kernel-label="

abbrev pub dump_kernel_invocation_option : Text
dump_kernel_invocation_option = codes "--krepe-dump-kernel-invocation="

unfoldable pub parse_arg : Text → Tool → Tool
unfolding parse_positive_uint64 has_prefix
parse_arg argument t =
    if has_prefix dump_kernel_label_option argument
    then record t { dump_kernel_label = drop (length dump_kernel_label_option) argument }
    else if has_prefix dump_kernel_invocation_option argument
    then record t {
      dump_kernel_invocation =
          parse_positive_uint64 (drop (length dump_kernel_invocation_option) argument);
    }
    else t

-- A null argument is read as an empty one.
unfoldable pub kokkosp_parse_args : List (Option Text) → Tool → Tool
unfolding parse_arg
kokkosp_parse_args [] t = t
kokkosp_parse_args (none ∷ argv) t = kokkosp_parse_args argv (parse_arg [] t)
kokkosp_parse_args (some argument ∷ argv) t = kokkosp_parse_args argv (parse_arg argument t)

pub space_name : Host → Text → Text
space_name h buffer = bounded_string (some buffer) h.space_name_size

should_track_allocation : Option Text → ℕ → Bool
should_track_allocation label ptr =
    not (ptr == 0) && not (is_internal_label (label_or_unknown label))

unfoldable pub kokkosp_allocate_data : Host → Text → Option Text → ℕ → ℕ → Tool → Tool
unfolding space_name should_track_allocation
kokkosp_allocate_data h space label ptr size t =
    let allocation_space = space_name h space in
    let p_data = allocation_data_pointer h ptr in
    let data_size = allocation_data_size h allocation_space ptr p_data size in
    if should_track_allocation label ptr
    then record t {
      allocation_tracker =
          record_allocation (label_or_unknown label) allocation_space ptr p_data
            (elim data_size [ none ↦ 0 | some n ↦ n ]) size
            (elim data_size [ none ↦ false | some n ↦ true ]) t.allocation_tracker;
    }
    else t

unfoldable pub kokkosp_deallocate_data : Host → Text → ℕ → Tool → Tool
unfolding space_name
kokkosp_deallocate_data h space ptr t = if ptr == 0 then t else record t {
  allocation_tracker = record_deallocation (space_name h space) ptr t.allocation_tracker;
}

unfoldable pub kokkosp_provide_tool_programming_interface : Bool → Tool → Tool
kokkosp_provide_tool_programming_interface fence t = record t { tool_fence = fence }

-- The calls that can come between the start of a program and its end, apart from those that begin
-- and end kernels; `kokkosp_parse_args` comes before them all.
pub data Entry : Type 0 where
  adds_metadata : Text → Bytes → ℕ → Entry
  copies_functor : Bytes → ℕ → Entry
  copies_nvcc_lambda : Bytes → ℕ → Bytes → ℕ → Entry
  registers_scalar : ℕ → Entry
  registers_range : Text → Text → ℕ → Bool → ℕ → ℕ → ℤ → Entry
  registers_mdrange : Text → Text → ℕ → Text → Text → ℕ → Bool → List ℤ → List ℤ → List ℤ → Entry
  registers_team : Text → Text → ℕ → Bool → ℤ → ℤ → ℤ → ℤ → ℤ → ℤ → ℤ → ℤ → Entry
  asks : Text → Entry
  clears_views : Entry
  registers_view : ℕ → Text → Entry
  allocates : Text → Option Text → ℕ → ℕ → Entry
  deallocates : Text → ℕ → Entry
  provides_fence : Bool → Entry

unfoldable pub enter : Host → Entry → Tool → Tool
unfolding krepe_kernel_dump_add_metadata krepe_kernel_dump_copy_functor
    krepe_kernel_dump_copy_nvcc_lambda krepe_kernel_dump_register_scalar_policy
    krepe_kernel_dump_register_range_policy krepe_kernel_dump_register_mdrange_policy
    krepe_kernel_dump_register_team_policy krepe_kernel_dump_next_invocation_will_dump
    krepe_kernel_dump_clear_registered_views krepe_kernel_dump_register_view kokkosp_allocate_data
    kokkosp_deallocate_data kokkosp_provide_tool_programming_interface
enter h (adds_metadata key value size) t = krepe_kernel_dump_add_metadata key value size t
enter h (copies_functor memory size) t = krepe_kernel_dump_copy_functor memory size t
enter h (copies_nvcc_lambda memory size inner inner_size) t =
    krepe_kernel_dump_copy_nvcc_lambda memory size inner inner_size t
enter h (registers_scalar n) t = krepe_kernel_dump_register_scalar_policy n t
enter h (registers_range space schedule size is_signed begin end chunk) t =
    krepe_kernel_dump_register_range_policy space schedule size is_signed begin end chunk t
enter h (registers_mdrange space schedule rank outer inner size is_signed begin end tile) t =
    krepe_kernel_dump_register_mdrange_policy space schedule rank outer inner size is_signed begin
      end tile t
enter h (registers_team space schedule size is_signed a b c s0 s1 t0 t1 chunk) t =
    krepe_kernel_dump_register_team_policy space schedule size is_signed a b c s0 s1 t0 t1 chunk t
enter h (asks kernel_name) t = (krepe_kernel_dump_next_invocation_will_dump kernel_name t).1
enter h clears_views t = krepe_kernel_dump_clear_registered_views t
enter h (registers_view address space) t = krepe_kernel_dump_register_view address space t
enter h (allocates space label ptr size) t = kokkosp_allocate_data h space label ptr size t
enter h (deallocates space ptr) t = kokkosp_deallocate_data h space ptr t
enter h (provides_fence fence) t = kokkosp_provide_tool_programming_interface fence t
