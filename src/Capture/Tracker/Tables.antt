-- ===== src/Capture/Tracker/Tables.antt =====
-- The tracker's tables as maps from a space and an address, under each of its operations.
use krepe.Prelude.{
  ℕ, ◌≡◌, refl, inl, inr, Bool, not, ◌&&◌, Option, none, some, List, [], ◌∷◌, Text, text_eq,
  text_eq_iff, arith, ◌==◌, if◌then◌else◌, Bool-cases, Option-cases,
}
use krepe.Prelude.Dict.{
  nat_eq, text_instance, lookup, insert, erase, NodupKeys, lookup-insert, lookup-erase,
  insert-NodupKeys, erase-NodupKeys,
}
use krepe.Capture.Tracker.{
  AllocationTracker, AllocationRecord, Allocations, entries_of, record_allocation,
  record_deallocation, put_back, touch,
}

-- A table of tables, as a map from a space and a pointer.
abbrev pub find : List (Text × Allocations) → Text → ℕ → Option AllocationRecord
find active space ptr = lookup ptr (entries_of space active)

-- The keys of each table are distinct.
abbrev pub AllNodup : List (Text × Allocations) → Type 0
AllNodup [] = Unit
AllNodup ((_, allocations) ∷ rest) = NodupKeys allocations × AllNodup rest

abbrev pub IsTable : List (Text × Allocations) → Type 0
IsTable active = NodupKeys active × AllNodup active

pub entries-NodupKeys :
    (s : Text) (active : List (Text × Allocations))
    → AllNodup active
    → NodupKeys (entries_of s active)
unfolding lookup
entries-NodupKeys s [] a = tt
entries-NodupKeys s ((j, d) ∷ rest) a = ground (arith, entries-NodupKeys s rest a.1)

insert-AllNodup :
    (s : Text) (d : Allocations) (active : List (Text × Allocations))
    → NodupKeys d
    → AllNodup active
    → AllNodup (insert s d active)
unfolding insert
insert-AllNodup s d [] u a = (u, tt)
insert-AllNodup s d ((j, _) ∷ rest) u a = ground (arith, insert-AllNodup s d rest u a.1)

erase-AllNodup :
    (s : Text) (active : List (Text × Allocations)) → AllNodup active → AllNodup (erase s active)
unfolding erase
erase-AllNodup s [] a = tt
erase-AllNodup s ((j, _) ∷ rest) a = ground (arith, erase-AllNodup s rest a.1)

find-insert :
    (s : Text) (d : Allocations) (active : List (Text × Allocations)) (j : Text) (ptr : ℕ)
    → find (insert s d active) j ptr ≡ (if text_eq s j then lookup ptr d else find active j ptr)
find-insert s d active j ptr = ground (arith, lookup-insert s j d active)

put_back-IsTable :
    (s : Text) (d : Allocations) (active : List (Text × Allocations))
    → NodupKeys d
    → IsTable active
    → IsTable (put_back s d active)
unfolding put_back
put_back-IsTable s [] active u (v, a) = (erase-NodupKeys s active v, erase-AllNodup s active a)
put_back-IsTable s (x ∷ d) active u (v, a) =
    (insert-NodupKeys s (x ∷ d) active v, insert-AllNodup s (x ∷ d) active u a)

find-put_back :
    (s : Text) (d : Allocations) (active : List (Text × Allocations)) (j : Text) (ptr : ℕ)
    → IsTable active
    → find (put_back s d active) j ptr ≡ (if text_eq s j then lookup ptr d else find active j ptr)
unfolding put_back lookup
find-put_back s [] active j ptr (v, a) = ground (arith, lookup-erase s j active v)
find-put_back s (x ∷ d) active j ptr (v, a) = find-insert s (x ∷ d) active j ptr

-- An allocation is found under its space and address, and no other entry changes; one at address 0
-- is not recorded.
pub find-record_allocation :
    (label space : Text) (ptr p_data size reported_size : ℕ) (known : Bool) (t : AllocationTracker)
    (j : Text) (q : ℕ)
    → find
        (record_allocation label space ptr p_data size reported_size known t).active_allocations
        j
        q
      ≡ (if not (ptr == 0) && (text_eq space j && ptr == q)
          then some (record {
            label = label;
            space = space;
            p_data = p_data;
            size = size;
            reported_size = reported_size;
            data_size_known = known;
          })
          else find t.active_allocations j q)
unfolding record_allocation
find-record_allocation label space ptr p_data size reported_size known t j q =
    let r : AllocationRecord = record {
      label = label;
      space = space;
      p_data = p_data;
      size = size;
      reported_size = reported_size;
      data_size_known = known;
    } in
    let old = entries_of space t.active_allocations in
    ground (
      arith,
      text_eq_iff space j,
      find-insert space (insert ptr r old) t.active_allocations j q,
      lookup-insert ptr q r old,
    )

-- A deallocation takes out the entry under its space and address, and no other.
pub find-record_deallocation :
    (space : Text) (ptr : ℕ) (t : AllocationTracker) (j : Text) (q : ℕ)
    → IsTable t.active_allocations
    → find (record_deallocation space ptr t).active_allocations j q ≡ (
        if not (ptr == 0) && (text_eq space j && ptr == q)
        then none
        else find t.active_allocations j q)
unfolding record_deallocation
find-record_deallocation space ptr t j q w =
    let old = entries_of space t.active_allocations in
    ground (
      arith,
      text_eq_iff space j,
      find-put_back space (erase ptr old) t.active_allocations j q w,
      lookup-erase ptr q old (entries-NodupKeys space t.active_allocations w.1),
    )

pub record_allocation-IsTable :
    (label space : Text) (ptr p_data size reported_size : ℕ) (known : Bool) (t : AllocationTracker)
    → IsTable t.active_allocations
    → IsTable
        (record_allocation label space ptr p_data size reported_size known t).active_allocations
unfolding record_allocation
record_allocation-IsTable label space ptr p_data size reported_size known t w =
    let r : AllocationRecord = record {
      label = label;
      space = space;
      p_data = p_data;
      size = size;
      reported_size = reported_size;
      data_size_known = known;
    } in
    let old = entries_of space t.active_allocations in
    let kept = insert-NodupKeys ptr r old (entries-NodupKeys space t.active_allocations w.1) in
    elim (Bool-cases (ptr == 0)) [
      | inl null ↦ rw (null, record_allocation) w
      | inr some_address ↦
          rw (some_address, record_allocation)
            (
              insert-NodupKeys space (insert ptr r old) t.active_allocations w.0,
              insert-AllNodup space (insert ptr r old) t.active_allocations kept w.1,
            )
    ]

pub record_deallocation-IsTable :
    (space : Text) (ptr : ℕ) (t : AllocationTracker)
    → IsTable t.active_allocations
    → IsTable (record_deallocation space ptr t).active_allocations
unfolding record_deallocation
record_deallocation-IsTable space ptr t w = elim (Bool-cases (ptr == 0)) [
  | inl null ↦ rw (null, record_deallocation) w
  | inr some_address ↦ elim (Option-cases (lookup space t.active_allocations)) [
    | inl absent ↦ rw (some_address, record_deallocation) (rw (absent, record_deallocation) w)
    | inr (d, found) ↦
        let u = entries-NodupKeys space t.active_allocations w.1 in
        let u' : NodupKeys d = rw (found, entries_of) at u in
        rw (some_address, record_deallocation)
          (rw (found, record_deallocation)
            (put_back-IsTable space (erase ptr d) t.active_allocations (erase-NodupKeys ptr d u')
              w))
  ]
]

-- `active_allocations_[space]` for each space of the registered pointers changes no entry.
pub touch-IsTable :
    (used : List (Text × List ℕ)) (active : List (Text × Allocations))
    → IsTable active
    → IsTable (touch used active)
unfolding touch
touch-IsTable [] active w = w
touch-IsTable ((s, ps) ∷ used) active w =
    let old = entries_of s active in
    touch-IsTable used (insert s old active) (
      insert-NodupKeys s old active w.0,
      insert-AllNodup s old active (entries-NodupKeys s active w.1) w.1,
    )

pub find-touch :
    (used : List (Text × List ℕ)) (active : List (Text × Allocations)) (j : Text) (q : ℕ)
    → find (touch used active) j q ≡ find active j q
unfolding touch
find-touch [] active j q = refl
find-touch ((s, ps) ∷ used) active j q = ground (
  arith,
  text_eq_iff s j,
  find-touch used (insert s (entries_of s active) active) j q,
  find-insert s (entries_of s active) active j q,
)
