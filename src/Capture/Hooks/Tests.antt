-- ===== src/Capture/Hooks/Tests.antt =====
-- A run of the tool with a writer that always succeeds, and the theorems at it.
use krepe.Prelude.{
  ◌+◌, ◌≡◌, refl, true, false, ◌&&◌, Option, none, some, List, [], ◌∷◌, Text, codes, text_eq, arith,
  ltb, leb, if◌then◌else◌,
}
use krepe.Prelude.Dict.{nat_eq, text_instance, lookup}
use krepe.Prelude.Decimal.{from_chars, to_string}
use krepe.Capture.Names.{label_or_unknown, dump_filename, sanitize_name}
use krepe.Capture.DataSize.Tests.{linux_host}
use krepe.Capture.Tracker.{snapshot}
use krepe.Capture.Hooks.{
  Tool, Dumper, initial_tool, invocations, register_kernel, dump_input_views, begin_kernel,
  end_kernel, start_dump, dump_output_views, set_dump_path, forget_kernel,
  should_dump_views_for_invocation, should_dump_views_for_label,
}
use krepe.Capture.Hooks.Entries.{
  clears_views, enter, kokkosp_parse_args, parse_positive_uint64,
  krepe_kernel_dump_next_invocation_will_dump,
}
use krepe.Capture.Hooks.Kernels.{will_dump-begin, kept_path}
use krepe.Capture.Hooks.Runs.{Event, begins, ends, enters, run, IsNumbered}
use krepe.Capture.Hooks.Pairs.{end_kernel-run}
use krepe.Capture.Hooks.Once.{selections, launches, Selects, selections_once}

-- The files that were written, the last one first.
abbrev writer : Dumper
writer = record {
  World = List Text;
  create_kernel_dump = λ d w.
      let name = dump_filename d.label d.kernel_id in
      (record { is_ok = true; filename = name }, name ∷ w);
  append_kernel_output = λ s path w. (record { is_ok = true; filename = path }, path ∷ w);
  fence = λ device w. w;
}

abbrev axpy : Text
axpy = codes "axpy"

abbrev arguments : List (Option Text)
arguments =
    some (codes "--krepe-dump-kernel-label=axpy")
    ∷ some (codes "--krepe-dump-kernel-invocation=2")
    ∷ []

abbrev tool : Tool
tool = record initial_tool { dump_kernel_label = axpy; dump_kernel_invocation = some 2 }

parsed : kokkosp_parse_args arguments initial_tool ≡ tool
unfolding kokkosp_parse_args from_chars text_eq
parsed = refl

refused : parse_positive_uint64 (codes "12x") ≡ none
unfolding parse_positive_uint64 from_chars text_eq
refused = refl

-- Two kernels of the chosen label, where the first ends after the second began.
abbrev events : List Event
events = begins (some axpy) 0 ∷ enters clears_views ∷ begins (some axpy) 0 ∷ ends 1 ∷ ends 2 ∷ []

written :
    (run linux_host false writer events tool []).1
    ≡ codes "krepe_axpy_2.h5" ∷ codes "krepe_axpy_2.h5" ∷ []
unfolding run begin_kernel end_kernel register_kernel dump_filename sanitize_name to_string text_eq
    label_or_unknown snapshot enter start_dump dump_input_views dump_output_views set_dump_path
    forget_kernel should_dump_views_for_invocation should_dump_views_for_label
written = refl

tool-Selects : Selects axpy 2 tool
tool-Selects = (λ e. cc, refl, refl)

tool-IsNumbered : IsNumbered tool
tool-IsNumbered = record { distinct = tt; below = tt }

selections_once_example : selections linux_host false writer events tool [] ≡ (
    if ltb (invocations axpy tool) 2 && leb 2 (invocations axpy tool + launches axpy events)
    then 1
    else 0)
unfolding lookup
selections_once_example =
    selections_once linux_host false writer axpy 2 events tool [] tool-Selects (omega arith)

will_dump-begin_example :
    let (answer, t') = krepe_kernel_dump_next_invocation_will_dump axpy tool in
    (register_kernel axpy 0 t').dump_this_kernel ≡ answer
will_dump-begin_example = will_dump-begin axpy 0 tool

end_kernel-run_example :
    let es = enters clears_views ∷ ends 7 ∷ [] in
    let b = register_kernel (label_or_unknown (some axpy)) 0 tool in
    let input =
      (dump_input_views false writer
        (label_or_unknown (some axpy))
        b.id
        b.invocation
        b.tool
        []).0 in
    let path = kept_path b.dump_this_kernel input in
    let (id, t', w') = begin_kernel false writer (some axpy) 0 tool [] in
    let (t'', w'') = run linux_host false writer es t' w' in
    ((end_kernel false writer 1 t'' w'').1 ≡ (
      if text_eq path []
      then w''
      else (writer.append_kernel_output
          (snapshot false t''.allocation_tracker).0
          path
          (if t''.tool_fence then writer.fence 0 w'' else w'')).1))
    × (lookup 1 (end_kernel false writer 1 t'' w'').0.kernel_states ≡ none)
end_kernel-run_example =
    end_kernel-run linux_host false writer (some axpy) 0 (enters clears_views ∷ ends 7 ∷ []) tool []
      tool-IsNumbered (omega arith) (λ e. omega arith, tt)
