-- ===== src/Capture/Hooks/Once.antt =====
-- How often a run dumps.
use krepe.Prelude.{
  ℕ, ◌+◌, ◌%◌, ◌^◌, ◌<◌, ◌≡◌, ◌≢◌, refl, ap, ◌∙◌, Bool, ◌&&◌, Option, none, some, List, [], ◌∷◌,
  Text, text_eq, text_eq_iff, arith, ◌==◌, ltb, leb, if◌then◌else◌, length,
}
use krepe.Prelude.Dict.{nat_eq, text_instance, lookup, insert, lookup-insert}
use krepe.Capture.Names.{label_or_unknown}
use krepe.Capture.DataSize.{Host}
use krepe.Capture.Hooks.{
  Tool, Dumper, invocations, register_kernel, forget_kernel, should_dump_views_for_label,
  should_dump_views_for_invocation, set_dump_path, dump_input_views, dump_output_views, start_dump,
  begin_kernel, end_kernel,
}
use krepe.Capture.Hooks.Entries.{Entry, enter, asks, clears_views, allocates, deallocates}
use krepe.Capture.Hooks.Kernels.{invocations-will_dump}
use krepe.Capture.Hooks.Runs.{Event, begins, ends, enters, step}

-- The beginnings of a kernel of this label.
pub launches : Text → List Event → ℕ
launches label [] = 0
launches label (begins name device_id ∷ es) =
    let rest = launches label es in if text_eq (label_or_unknown name) label then rest + 1 else rest
launches label (ends id ∷ es) = launches label es
launches label (enters e ∷ es) = launches label es

module _ (h : Host) (plugins : Bool) (d : Dumper) where
  -- The kernels that are selected for a dump when they begin.
  pub selections : List Event → Tool → d.World → ℕ
  selections [] t w = 0
  selections (begins name device_id ∷ es) t w =
      let (t', w') = step h plugins d (begins name device_id) t w in
      let rest = selections es t' w' in
      if (register_kernel (label_or_unknown name) device_id t).dump_this_kernel
      then rest + 1
      else rest
  selections (ends id ∷ es) t w =
      let (t', w') = step h plugins d (ends id) t w in selections es t' w'
  selections (enters e ∷ es) t w =
      let (t', w') = step h plugins d (enters e) t w in selections es t' w'

-- The selection that the arguments made.
abbrev pub Selects : Text → ℕ → Tool → Type 0
Selects label n t =
    (label ≢ []) × (t.dump_kernel_label ≡ label) × (t.dump_kernel_invocation ≡ some n)

-- What the events change of the selection and of the counts.
abbrev Same : Tool → Tool → Type 0
Same t t' =
    (t'.dump_kernel_label ≡ t.dump_kernel_label)
    × (t'.dump_kernel_invocation ≡ t.dump_kernel_invocation)

enter_counts :
    (h : Host) (label : Text) (e : Entry) (t : Tool)
    → Same t (enter h e t) × (invocations label (enter h e t) ≡ invocations label t)
unfolding enter
enter_counts h label clears_views t = ((refl, refl), refl)
enter_counts h label (asks name) t = ((refl, refl), invocations-will_dump name label t)
enter_counts h label (allocates space name ptr size) t = ground arith
enter_counts h label (deallocates space ptr) t = ground arith
enter_counts h label _ t = ((refl, refl), refl)

end_counts :
    (plugins : Bool) (d : Dumper) (id : ℕ) (t : Tool) (w : d.World)
    → Same t (end_kernel plugins d id t w).0
      × ((end_kernel plugins d id t w).0.kernel_invocations ≡ t.kernel_invocations)
unfolding end_kernel dump_output_views forget_kernel
end_counts plugins d id t w = ground arith

begin_counts :
    (plugins : Bool) (d : Dumper) (name : Option Text) (device_id : ℕ) (t : Tool) (w : d.World)
    → let b = register_kernel (label_or_unknown name) device_id t in
      let t' = (begin_kernel plugins d name device_id t w).1 in
      Same t t' × (t'.kernel_invocations ≡ b.tool.kernel_invocations)
unfolding begin_kernel start_dump dump_input_views set_dump_path register_kernel
begin_counts plugins d name device_id t w = ground arith

-- A beginning counts for its own label, and selects the one invocation that was asked for.
register_counts :
    (label name : Text) (n device_id : ℕ) (t : Tool)
    → Selects label n t
    → invocations label t + 1 < 2 ^ 64
    → let b = register_kernel name device_id t in
      (invocations label b.tool
        ≡ (if text_eq name label then invocations label t + 1 else invocations label t))
      × (b.dump_this_kernel ≡ (text_eq name label && invocations label t + 1 == n))
unfolding register_kernel should_dump_views_for_invocation should_dump_views_for_label
register_counts label name n device_id t (full, chosen, which) room = (
  ground (arith, text_eq_iff name label, counted),
  rw (which, chosen) (ground (arith, text_eq_iff name label, text_eq_iff label [])),
)
  where
    counted :
        lookup label (insert name ((invocations name t + 1) % 2 ^ 64) t.kernel_invocations) ≡ (
          if text_eq name label
          then some ((invocations name t + 1) % 2 ^ 64)
          else lookup label t.kernel_invocations)
    counted = lookup-insert name label _ t.kernel_invocations

invocations-eq :
    (label : Text) (t u : Tool)
    → t.kernel_invocations ≡ u.kernel_invocations
    → invocations label t ≡ invocations label u
invocations-eq label t u e =
    ap (λ (m : List (Text × ℕ)). elim (lookup label m) as (λ _. ℕ) [ none ↦ 0 | some k ↦ k ]) e

-- Where a label and the number of an invocation were chosen, and the counts stay below 2 ^ 64, a
-- run selects one kernel at most for a dump, whichever kernels begin and end and whatever else is
-- called: the one that brings the invocations of the label to the number, if the label is
-- launched that often.
pub selections_once :
    (h : Host) (plugins : Bool) (d : Dumper) (label : Text) (n : ℕ) (es : List Event) (t : Tool)
    (w : d.World)
    → Selects label n t
    → invocations label t + length es < 2 ^ 64
    → selections h plugins d es t w ≡ (
        if ltb (invocations label t) n && leb n (invocations label t + launches label es)
        then 1
        else 0)
unfolding selections launches step
selections_once h plugins d label n [] t w s room = ground arith
selections_once h plugins d label n (begins name device_id ∷ es) t w s room =
    let (id, t', w') = begin_kernel plugins d name device_id t w in
    let (same, counts) = begin_counts plugins d name device_id t w in
    let s' : Selects label n t' = (s.0, same.0 ∙ s.1, same.1 ∙ s.2) in
    let (counted, selected) =
      register_counts label (label_or_unknown name) n device_id t s (omega arith) in
    let b = register_kernel (label_or_unknown name) device_id t in
    let now = invocations-eq label t' b.tool counts ∙ counted in
    let later = selections_once h plugins d label n es t' w' s' (ground (arith, now)) in
    rw (selected, later, now) (ground arith)
selections_once h plugins d label n (ends id ∷ es) t w s room =
    let (t', w') = end_kernel plugins d id t w in
    let (same, counts) = end_counts plugins d id t w in
    let s' : Selects label n t' = (s.0, same.0 ∙ s.1, same.1 ∙ s.2) in
    let now = invocations-eq label t' t counts in
    rw (selections_once h plugins d label n es t' w' s' (rw now (omega arith)), now)
selections_once h plugins d label n (enters e ∷ es) t w s room =
    let (same, counts) = enter_counts h label e t in
    let s' : Selects label n (enter h e t) = (s.0, same.0 ∙ s.1, same.1 ∙ s.2) in
    rw (selections_once h plugins d label n es (enter h e t) w s' (rw counts (omega arith)), counts)
