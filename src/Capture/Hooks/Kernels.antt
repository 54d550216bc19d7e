-- ===== src/Capture/Hooks/Kernels.antt =====
-- The decision to dump, and the path from the beginning of a kernel to its end.
use krepe.Prelude.{
  ℕ, ◌+◌, ◌%◌, ◌^◌, ◌≡◌, refl, ◌∙◌, Bool, ◌&&◌, Option, some, [], Text, text_eq_iff, arith, ◌==◌,
  ==_iff, if◌then◌else◌,
}
use krepe.Prelude.Dict.{nat_eq, text_instance, lookup, lookup-insert}
use krepe.Capture.Names.{label_or_unknown}
use krepe.Capture.Hooks.{
  Tool, KernelState, ViewDumpResult, Dumper, invocations, should_dump_views_for_invocation,
  register_kernel, set_dump_path, dump_input_views, start_dump, begin_kernel, Begun,
}
use krepe.Capture.Hooks.Entries.{krepe_kernel_dump_next_invocation_will_dump}

-- To ask does not count as an invocation.
pub invocations-will_dump :
    (name label : Text) (t : Tool)
    → invocations label (krepe_kernel_dump_next_invocation_will_dump name t).1 ≡ invocations label t
unfolding krepe_kernel_dump_next_invocation_will_dump
invocations-will_dump name label t = ground (
  arith,
  text_eq_iff name label,
  lookup-insert name label (invocations name t) t.kernel_invocations,
)

should_dump-will_dump :
    (name label : Text) (n : ℕ) (t : Tool)
    → should_dump_views_for_invocation label n
        (krepe_kernel_dump_next_invocation_will_dump name t).1
      ≡ should_dump_views_for_invocation label n t
unfolding krepe_kernel_dump_next_invocation_will_dump
should_dump-will_dump name label n t = refl

-- The extractor is told that the next kernel of a label will be dumped exactly if the tool
-- selects that kernel when it begins right after the question.
pub will_dump-begin :
    (name : Text) (device_id : ℕ) (t : Tool)
    → let (answer, t') = krepe_kernel_dump_next_invocation_will_dump name t in
      (register_kernel name device_id t').dump_this_kernel ≡ answer
unfolding register_kernel
will_dump-begin name device_id t =
    rw (invocations-will_dump name name t, should_dump-will_dump name name _ t) (asked name t)
  where
    asked :
        (name : Text) (t : Tool)
        → should_dump_views_for_invocation name ((invocations name t + 1) % 2 ^ 64) t
          ≡ (krepe_kernel_dump_next_invocation_will_dump name t).0
    asked name t = unfold krepe_kernel_dump_next_invocation_will_dump in refl

-- What a kernel keeps while it runs: the path of its dump, if one was written.
abbrev pub kept_path : Bool → ViewDumpResult → Text
kept_path dumps result = if dumps && result.is_ok then result.filename else []

lookup-set_dump_path :
    (id : ℕ) (result : ViewDumpResult) (t : Tool) (k : KernelState) (j : ℕ)
    → lookup id t.kernel_states ≡ some k
    → lookup j (set_dump_path id result t).kernel_states ≡ (
        if id == j
        then some (record k { dump_path = if result.is_ok then result.filename else k.dump_path })
        else lookup j t.kernel_states)
unfolding set_dump_path
lookup-set_dump_path id result t k j e =
    ground (arith, lookup-insert id j (record k { dump_path = result.filename }) t.kernel_states)

lookup-register_kernel :
    (label : Text) (device_id : ℕ) (t : Tool) (j : ℕ)
    → let b = register_kernel label device_id t in
      lookup j b.tool.kernel_states ≡ (
        if b.id == j
        then some (record { device_id = device_id; invocation = b.invocation; dump_path = [] })
        else lookup j t.kernel_states)
unfolding register_kernel
lookup-register_kernel label device_id t j = lookup-insert t.next_kernel_id j _ t.kernel_states

lookup-register_self :
    (label : Text) (device_id : ℕ) (t : Tool)
    → let b = register_kernel label device_id t in
      lookup b.id b.tool.kernel_states
      ≡ some (record { device_id = device_id; invocation = b.invocation; dump_path = [] })
lookup-register_self label device_id t =
    let b = register_kernel label device_id t in
    lookup-register_kernel label device_id t b.id ∙ rw ((==_iff b.id b.id).1 refl)

module _ (plugins : Bool) (d : Dumper) (label : Option Text) (device_id : ℕ) (t : Tool)
    (w : d.World) where
  abbrev b : Begun
  b = register_kernel (label_or_unknown label) device_id t

  -- What the dump of the input gives, if there is one.
  abbrev input : ViewDumpResult
  input =
      (dump_input_views plugins d (label_or_unknown label) b.id b.invocation b.tool
        (if t.tool_fence then d.fence device_id w else w)).0

  tool_fence_register : b.tool.tool_fence ≡ t.tool_fence
  unfolding register_kernel
  tool_fence_register = refl

  states-dump_input_views :
      (v : d.World)
      → (dump_input_views plugins d
          (label_or_unknown label)
          b.id
          b.invocation
          b.tool
          v).1.kernel_states
        ≡ b.tool.kernel_states
  unfolding dump_input_views
  states-dump_input_views v = refl

  -- The new kernel's entry, and no other, is different after `begin_kernel`.
  pub lookup-begin_kernel :
      (j : ℕ)
      → lookup j (begin_kernel plugins d label device_id t w).1.kernel_states ≡ (
          if b.id == j
          then some (record {
            device_id = device_id;
            invocation = b.invocation;
            dump_path = kept_path b.dump_this_kernel input;
          })
          else lookup j t.kernel_states)
  unfolding begin_kernel start_dump
  lookup-begin_kernel j =
      let v = if b.tool.tool_fence then d.fence device_id w else w in
      let dumped = dump_input_views plugins d (label_or_unknown label) b.id b.invocation b.tool v in
      let states = states-dump_input_views v in
      ground (
        arith,
        tool_fence_register,
        states,
        lookup-register_kernel (label_or_unknown label) device_id t j,
        lookup-set_dump_path b.id dumped.0 dumped.1
            (record { device_id = device_id; invocation = b.invocation; dump_path = [] }) j
            (rw states (lookup-register_self (label_or_unknown label) device_id t)),
      )
