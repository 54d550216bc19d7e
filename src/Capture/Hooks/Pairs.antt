-- ===== src/Capture/Hooks/Pairs.antt =====
-- The beginning of a kernel meets its end.
use krepe.Prelude.{
  ℕ, ◌+◌, ◌^◌, ◌≤◌, ◌<◌, ◌≡◌, ◌≢◌, refl, ◌∙◌, Bool, Option, none, some, List, [], ◌∷◌, Text,
  text_eq, arith, ==_iff, if◌then◌else◌,
}
use krepe.Prelude.Dict.{nat_eq, text_instance, lookup, lookup-erase}
use krepe.Capture.Names.{label_or_unknown}
use krepe.Capture.DataSize.{Host}
use krepe.Capture.Tracker.{snapshot}
use krepe.Capture.Hooks.{
  Tool, KernelState, Dumper, register_kernel, forget_kernel, dump_input_views, dump_output_views,
  begin_kernel, end_kernel,
}
use krepe.Capture.Hooks.Kernels.{lookup-begin_kernel, kept_path}
use krepe.Capture.Hooks.Runs.{
  Event, begins, ends, enters, step, run, IsNumbered, Keeps, Enough, enter_states,
  begin_kernel-IsNumbered, end_kernel_states, forget_kernel-IsNumbered,
}

register_kernel_id :
    (label : Text) (device_id : ℕ) (t : Tool)
    → (register_kernel label device_id t).id ≡ t.next_kernel_id
unfolding register_kernel
register_kernel_id label device_id t = refl

forget_kernel_next : (id : ℕ) (t : Tool) → (forget_kernel id t).1.next_kernel_id ≡ t.next_kernel_id
unfolding forget_kernel
forget_kernel_next id t = ground arith

lookup-forget_kernel :
    (id j : ℕ) (t : Tool)
    → IsNumbered t
    → id ≢ j
    → lookup j (forget_kernel id t).1.kernel_states ≡ lookup j t.kernel_states
unfolding forget_kernel
lookup-forget_kernel id j t v ne = ground (arith, lookup-erase id j t.kernel_states v.distinct)

Keeps-tail : (id : ℕ) (e : Event) (es : List Event) → Keeps id (e ∷ es) → Keeps id es
Keeps-tail id (begins label device_id) es k = k
Keeps-tail id (ends kernel_id) es k = k.1
Keeps-tail id (enters e) es k = k

module _ (h : Host) (plugins : Bool) (d : Dumper) where
  step-IsNumbered :
      (e : Event) (t : Tool) (w : d.World)
      → t.next_kernel_id + 1 < 2 ^ 64
      → IsNumbered t
      → IsNumbered (step h plugins d e t w).0
        × (t.next_kernel_id ≤ (step h plugins d e t w).0.next_kernel_id)
        × ((step h plugins d e t w).0.next_kernel_id ≤ t.next_kernel_id + 1)
  unfolding step
  step-IsNumbered (begins label device_id) t w room v =
      let (numbered, next) = begin_kernel-IsNumbered plugins d label device_id t w room v in
      (numbered, omega arith, omega arith)
  step-IsNumbered (ends id) t w room v =
      let (states, next) = end_kernel_states plugins d id t w in
      let u = forget_kernel-IsNumbered id t v in
      let same = forget_kernel_next id t in
      (
        record { distinct = rw states u.distinct; below = rw (states, next) (rw same at u.below) },
        omega arith,
        omega arith,
      )
  step-IsNumbered (enters e) t w room v =
      let (states, next) = enter_states h e t in
      (
        record { distinct = rw states v.distinct; below = rw (states, next) v.below },
        omega arith,
        omega arith,
      )

  -- Only its own end takes a kernel out.
  lookup-step :
      (e : Event) (es : List Event) (id : ℕ) (t : Tool) (w : d.World)
      → IsNumbered t
      → id < t.next_kernel_id
      → Keeps id (e ∷ es)
      → lookup id (step h plugins d e t w).0.kernel_states ≡ lookup id t.kernel_states
  unfolding step
  lookup-step (begins label device_id) es id t w v l k = ground (
    arith,
    lookup-begin_kernel plugins d label device_id t w id,
    register_kernel_id (label_or_unknown label) device_id t,
  )
  lookup-step (ends kernel_id) es id t w v l k =
      rw ((end_kernel_states plugins d kernel_id t w).0) (lookup-forget_kernel kernel_id id t v k.0)
  lookup-step (enters e) es id t w v l k = rw ((enter_states h e t).0)

  lookup-run :
      (es : List Event) (id : ℕ) (t : Tool) (w : d.World)
      → Enough t es
      → IsNumbered t
      → id < t.next_kernel_id
      → Keeps id es
      → (lookup id (run h plugins d es t w).0.kernel_states ≡ lookup id t.kernel_states)
        × IsNumbered (run h plugins d es t w).0
  unfolding run
  lookup-run [] id t w room v l k = (refl, v)
  lookup-run (e ∷ es) id t w room v l k =
      let (t', w') = step h plugins d e t w in
      let (v', low, high) = step-IsNumbered e t w (omega arith) v in
      let (later, last) =
        lookup-run es id t' w' (omega arith) v' (omega arith) (Keeps-tail id e es k) in
      (later ∙ lookup-step e es id t w v l k, last)

  -- A kernel that is running is ended with the device and the path that it was begun with: with no
  -- path nothing is written, and otherwise the output is appended to the file of the input, behind
  -- a fence on the device if there is one. Then the kernel is forgotten.
  end_kernel_found :
      (id : ℕ) (t : Tool) (w : d.World) (k : KernelState)
      → IsNumbered t
      → lookup id t.kernel_states ≡ some k
      → ((end_kernel plugins d id t w).1 ≡ (
          if text_eq k.dump_path []
          then w
          else (d.append_kernel_output
              (snapshot plugins t.allocation_tracker).0
              k.dump_path
              (if t.tool_fence then d.fence k.device_id w else w)).1))
        × (lookup id (end_kernel plugins d id t w).0.kernel_states ≡ none)
  unfolding end_kernel dump_output_views forget_kernel
  end_kernel_found id t w k v e = ground (arith, lookup-erase id id t.kernel_states v.distinct)

  -- Where the ids of the running kernels are distinct and below the next one, and the ids suffice
  -- for the events: a kernel that begins with a dump, and whose end comes after any other events,
  -- has its output appended to the file that its input was written to; if it was not selected, or
  -- its input could not be written, its end writes nothing. Its end leaves no trace of it.
  pub end_kernel-run :
      (label : Option Text) (device_id : ℕ) (es : List Event) (t : Tool) (w : d.World)
      → IsNumbered t
      → Enough t (begins label device_id ∷ es)
      → Keeps t.next_kernel_id es
      → let b = register_kernel (label_or_unknown label) device_id t in
        let input =
          (dump_input_views plugins d
            (label_or_unknown label)
            b.id
            b.invocation
            b.tool
            (if t.tool_fence then d.fence device_id w else w)).0 in
        let path = kept_path b.dump_this_kernel input in
        let (id, t', w') = begin_kernel plugins d label device_id t w in
        let (t'', w'') = run h plugins d es t' w' in
        ((end_kernel plugins d t.next_kernel_id t'' w'').1 ≡ (
          if text_eq path []
          then w''
          else (d.append_kernel_output
              (snapshot plugins t''.allocation_tracker).0
              path
              (if t''.tool_fence then d.fence device_id w'' else w'')).1))
        × (lookup t.next_kernel_id (end_kernel plugins d t.next_kernel_id t'' w'').0.kernel_states
            ≡ none)
  unfolding register_kernel
  end_kernel-run label device_id es t w v room k =
      let id = t.next_kernel_id in
      let (i, t', w') = begin_kernel plugins d label device_id t w in
      let (v', next) = begin_kernel-IsNumbered plugins d label device_id t w (omega arith) v in
      let (kept, v'') = lookup-run es id t' w' (omega arith) v' (omega arith) k in
      let (t'', w'') = run h plugins d es t' w' in
      let b = register_kernel (label_or_unknown label) device_id t in
      let input =
        (dump_input_views plugins d (label_or_unknown label) b.id b.invocation b.tool
          (if t.tool_fence then d.fence device_id w else w)).0 in
      let k : KernelState = record {
        device_id = device_id;
        invocation = b.invocation;
        dump_path = kept_path b.dump_this_kernel input;
      } in
      end_kernel_found id t'' w'' k v'' (
        kept
        ∙ lookup-begin_kernel plugins d label device_id t w id
        ∙ rw (register_kernel_id (label_or_unknown label) device_id t, (==_iff id id).1 refl))
