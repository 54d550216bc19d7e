-- ===== src/Capture/Tracker/History.antt =====
-- What the tracker holds after any sequence of calls.
use krepe.Prelude.{
  ℕ, ◌≡◌, refl, ap, ◌∙◌, Bool, true, false, not, ◌&&◌, Option, none, some, List, [], ◌∷◌, Text,
  text_eq, ◌==◌, if◌then◌else◌,
}
use krepe.Prelude.Dict.{nat_eq, text_instance}
use krepe.Capture.Tracker.{
  AllocationTracker, AllocationRecord, record_allocation, record_deallocation,
  record_used_allocation, clear_used_allocations, snapshot,
}
use krepe.Capture.Tracker.Tables.{
  find, IsTable, find-record_allocation, find-record_deallocation, record_allocation-IsTable,
  record_deallocation-IsTable, touch-IsTable, find-touch,
}

-- The calls that the hooks make.
pub data Call : Type 0 where
  allocates : Text → Text → ℕ → ℕ → ℕ → ℕ → Bool → Call
  deallocates : Text → ℕ → Call
  registers : Text → ℕ → Call
  clears : Call
  snapshots : Bool → Call

unfoldable pub step : AllocationTracker → Call → AllocationTracker
step t (allocates label space ptr p_data size reported_size known) =
    record_allocation label space ptr p_data size reported_size known t
step t (deallocates space ptr) = record_deallocation space ptr t
step t (registers space ptr) = record_used_allocation space ptr t
step t clears = clear_used_allocations t
step t (snapshots plugins) = (snapshot plugins t).1

unfoldable pub run : AllocationTracker → List Call → AllocationTracker
run t [] = t
run t (c ∷ cs) = run (step t c) cs

-- What is allocated at an address of a space after a call, by what was there before.
pub effect : Text → ℕ → Option AllocationRecord → Call → Option AllocationRecord
effect j q old (allocates label space ptr p_data size reported_size known) =
    if not (ptr == 0) && (text_eq space j && ptr == q)
    then some (record {
      label = label;
      space = space;
      p_data = p_data;
      size = size;
      reported_size = reported_size;
      data_size_known = known;
    })
    else old
effect j q old (deallocates space ptr) =
    if not (ptr == 0) && (text_eq space j && ptr == q) then none else old
effect j q old _ = old

pub effects : Text → ℕ → Option AllocationRecord → List Call → Option AllocationRecord
effects j q old [] = old
effects j q old (c ∷ cs) = effects j q (effect j q old c) cs

pub step-IsTable :
    (t : AllocationTracker) (c : Call)
    → IsTable t.active_allocations
    → IsTable (step t c).active_allocations
unfolding step record_used_allocation clear_used_allocations snapshot
step-IsTable t (allocates label space ptr p_data size reported_size known) w =
    record_allocation-IsTable label space ptr p_data size reported_size known t w
step-IsTable t (deallocates space ptr) w = record_deallocation-IsTable space ptr t w
step-IsTable t (registers space ptr) w = w
step-IsTable t clears w = w
step-IsTable t (snapshots true) w = touch-IsTable t.used_allocations t.active_allocations w
step-IsTable t (snapshots false) w = w

find-step :
    (t : AllocationTracker) (c : Call) (j : Text) (q : ℕ)
    → IsTable t.active_allocations
    → find (step t c).active_allocations j q ≡ effect j q (find t.active_allocations j q) c
unfolding step effect record_used_allocation clear_used_allocations snapshot
find-step t (allocates label space ptr p_data size reported_size known) j q w =
    find-record_allocation label space ptr p_data size reported_size known t j q
find-step t (deallocates space ptr) j q w = find-record_deallocation space ptr t j q w
find-step t (registers space ptr) j q w = refl
find-step t clears j q w = refl
find-step t (snapshots true) j q w = find-touch t.used_allocations t.active_allocations j q
find-step t (snapshots false) j q w = refl

-- The tables refine a map from space and address: where their keys were distinct, after any calls
-- the tracker holds at each address the last allocation there that has not been freed, whatever
-- pointers were registered and whatever snapshots were taken in between.
pub find-run :
    (t : AllocationTracker) (cs : List Call) (j : Text) (q : ℕ)
    → IsTable t.active_allocations
    → find (run t cs).active_allocations j q ≡ effects j q (find t.active_allocations j q) cs
unfolding run effects
find-run t [] j q w = refl
find-run t (c ∷ cs) j q w =
    find-run (step t c) cs j q (step-IsTable t c w)
    ∙ ap (λ o. effects j q o cs) (find-step t c j q w)
