-- ===== src/Capture/Hooks/Runs.antt =====
-- Whole runs: kernels that begin and end in any order, with other calls in between.
use krepe.Prelude.{
  ℕ, ◌+◌, ◌%◌, ◌^◌, ◌≤◌, ◌<◌, ◌≡◌, ◌≢◌, refl, ◌∙◌, inl, inr, Bool, Option, List, [], ◌∷◌, Text,
  arith, if◌then◌else◌, Bool-cases, Option-cases, length,
}
use krepe.Prelude.Dict.{
  nat_eq, text_instance, lookup, insert, erase, NodupKeys, insert-NodupKeys, erase-NodupKeys,
}
use krepe.Capture.Names.{label_or_unknown}
use krepe.Capture.DataSize.{Host}
use krepe.Capture.Hooks.{
  Tool, KernelState, ViewDumpResult, Dumper, register_kernel, set_dump_path, forget_kernel,
  dump_input_views, dump_output_views, start_dump, begin_kernel, end_kernel,
}
use krepe.Capture.Hooks.Entries.{Entry, enter, clears_views, allocates, deallocates}

pub data Event : Type 0 where
  begins : Option Text → ℕ → Event
  ends : ℕ → Event
  enters : Entry → Event

module _ (h : Host) (plugins : Bool) (d : Dumper) where
  unfoldable pub step : Event → Tool → d.World → Tool × d.World
  step (begins label device_id) t w =
      let (id, t', w') = begin_kernel plugins d label device_id t w in (t', w')
  step (ends kernel_id) t w = end_kernel plugins d kernel_id t w
  step (enters e) t w = (enter h e t, w)

  unfoldable pub run : List Event → Tool → d.World → Tool × d.World
  unfolding step
  run [] t w = (t, w)
  run (e ∷ es) t w = let (t', w') = step e t w in run es t' w'

-- Each running kernel has one entry, and its id has been given out.
abbrev pub Below : ℕ → List (ℕ × KernelState) → Type 0
Below n [] = Unit
Below n ((k, _) ∷ states) = (k < n) × Below n states

pub record IsNumbered (t : Tool) : Type 0 where
  pub distinct : NodupKeys t.kernel_states
  pub below : Below t.next_kernel_id t.kernel_states

-- None of the events ends the kernel.
abbrev pub Keeps : ℕ → List Event → Type 0
Keeps id [] = Unit
Keeps id (begins label device_id ∷ es) = Keeps id es
Keeps id (ends kernel_id ∷ es) = (kernel_id ≢ id) × Keeps id es
Keeps id (enters e ∷ es) = Keeps id es

-- The ids that are left are enough for the events, so that the 64-bit counter does not wrap around.
abbrev pub Enough : Tool → List Event → Type 0
Enough t es = t.next_kernel_id + length es < 2 ^ 64

pub enter_states :
    (h : Host) (e : Entry) (t : Tool)
    → ((enter h e t).kernel_states ≡ t.kernel_states)
      × ((enter h e t).next_kernel_id ≡ t.next_kernel_id)
unfolding enter
enter_states h clears_views t = (refl, refl)
enter_states h (allocates space label ptr size) t = ground arith
enter_states h (deallocates space ptr) t = ground arith
enter_states h _ t = (refl, refl)

Below-mono : (m n : ℕ) (states : List (ℕ × KernelState)) → m ≤ n → Below m states → Below n states
Below-mono m n [] le b = tt
Below-mono m n ((k, _) ∷ states) le b = (omega arith, Below-mono m n states le b.1)

insert-Below :
    (n id : ℕ) (k : KernelState) (states : List (ℕ × KernelState))
    → id < n
    → Below n states
    → Below n (insert id k states)
unfolding insert
insert-Below n id k [] l b = (l, tt)
insert-Below n id k ((j, _) ∷ states) l b = ground (arith, insert-Below n id k states l b.1)

erase-Below :
    (n id : ℕ) (states : List (ℕ × KernelState)) → Below n states → Below n (erase id states)
unfolding erase
erase-Below n id [] b = tt
erase-Below n id ((j, _) ∷ states) b = ground (arith, erase-Below n id states b.1)

set_dump_path-IsNumbered :
    (id : ℕ) (result : ViewDumpResult) (t : Tool)
    → id < t.next_kernel_id
    → IsNumbered t
    → IsNumbered (set_dump_path id result t)
unfolding set_dump_path
set_dump_path-IsNumbered id result t l v = elim (Option-cases (lookup id t.kernel_states)) [
  | inl absent ↦ rw (absent, set_dump_path) v
  | inr (k, found) ↦ elim (Bool-cases result.is_ok) [
    | inl written ↦
        let k' : KernelState = record k { dump_path = result.filename } in
        rw (found, set_dump_path)
          (rw written (record {
            distinct = insert-NodupKeys id k' t.kernel_states v.distinct;
            below = insert-Below t.next_kernel_id id k' t.kernel_states l v.below;
          }))
    | inr failed ↦ rw (found, set_dump_path) (rw failed v)
  ]
]

-- A new kernel gets an id that no running kernel has.
register_kernel-IsNumbered :
    (label : Text) (device_id : ℕ) (t : Tool)
    → t.next_kernel_id + 1 < 2 ^ 64
    → IsNumbered t
    → let b = register_kernel label device_id t in
      IsNumbered b.tool
      × (b.id < b.tool.next_kernel_id)
      × (b.tool.next_kernel_id ≡ t.next_kernel_id + 1)
unfolding register_kernel
register_kernel-IsNumbered label device_id t room v =
    let id = t.next_kernel_id in
    let next : (id + 1) % 2 ^ 64 ≡ id + 1 = omega arith in
    (
      record {
        distinct = insert-NodupKeys id _ t.kernel_states v.distinct;
        below =
            insert-Below ((id + 1) % 2 ^ 64) id _ t.kernel_states (omega arith)
              (Below-mono id ((id + 1) % 2 ^ 64) t.kernel_states (omega arith) v.below);
      },
      omega arith,
      next,
    )

set_dump_path-next :
    (id : ℕ) (result : ViewDumpResult) (t : Tool)
    → (set_dump_path id result t).next_kernel_id ≡ t.next_kernel_id
unfolding set_dump_path
set_dump_path-next id result t = ground arith

module _ (plugins : Bool) (d : Dumper) where
  dump_input_views-IsNumbered :
      (label : Text) (id n : ℕ) (t : Tool) (w : d.World)
      → IsNumbered t
      → IsNumbered (dump_input_views plugins d label id n t w).1
  unfolding dump_input_views
  dump_input_views-IsNumbered label id n t w v = record { distinct = v.distinct; below = v.below }

  dump_input_views-next :
      (label : Text) (id n : ℕ) (t : Tool) (w : d.World)
      → (dump_input_views plugins d label id n t w).1.next_kernel_id ≡ t.next_kernel_id
  unfolding dump_input_views
  dump_input_views-next label id n t w = refl

  pub begin_kernel-IsNumbered :
      (label : Option Text) (device_id : ℕ) (t : Tool) (w : d.World)
      → t.next_kernel_id + 1 < 2 ^ 64
      → IsNumbered t
      → IsNumbered (begin_kernel plugins d label device_id t w).1
        × ((begin_kernel plugins d label device_id t w).1.next_kernel_id ≡ t.next_kernel_id + 1)
  unfolding begin_kernel start_dump
  begin_kernel-IsNumbered label device_id t w room v =
      let name = label_or_unknown label in
      let b = register_kernel name device_id t in
      let (numbered, given, next) = register_kernel-IsNumbered name device_id t room v in
      let world = if b.tool.tool_fence then d.fence device_id w else w in
      let r = dump_input_views plugins d name b.id b.invocation b.tool world in
      let same = dump_input_views-next name b.id b.invocation b.tool world in
      elim (Bool-cases b.dump_this_kernel) [
        | inl dumps ↦
            rw (dumps, begin_kernel)
              (
                set_dump_path-IsNumbered b.id r.0 r.1 (rw same given)
                    (dump_input_views-IsNumbered name b.id b.invocation b.tool world numbered),
                set_dump_path-next b.id r.0 r.1 ∙ same ∙ next,
              )
        | inr skips ↦ rw (skips, begin_kernel) (numbered, next)
      ]

  pub end_kernel_states :
      (id : ℕ) (t : Tool) (w : d.World)
      → ((end_kernel plugins d id t w).0.kernel_states ≡ (forget_kernel id t).1.kernel_states)
        × ((end_kernel plugins d id t w).0.next_kernel_id ≡ t.next_kernel_id)
  unfolding end_kernel dump_output_views forget_kernel
  end_kernel_states id t w = ground arith

pub forget_kernel-IsNumbered :
    (id : ℕ) (t : Tool) → IsNumbered t → IsNumbered (forget_kernel id t).1
unfolding forget_kernel
forget_kernel-IsNumbered id t v = elim (Option-cases (lookup id t.kernel_states)) [
  | inl absent ↦ rw (absent, forget_kernel) v
  | inr (k, found) ↦
      rw (found, forget_kernel)
        (record {
          distinct = erase-NodupKeys id t.kernel_states v.distinct;
          below = erase-Below t.next_kernel_id id t.kernel_states v.below;
        })
]
