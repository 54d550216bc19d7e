-- ===== src/Replay/Dump/Plan.antt =====
-- The ranges that are reserved for the allocations of a dump hold them all.
use krepe.Prelude.{
  ℕ, ◌+◌, ◌<◌, ◌≡◌, ◌≢◌, refl, inl, inr, true, List, [], ◌∷◌, arith, Bytes, ok, ◌==◌, Bool-cases,
}
use krepe.Replay.Space.{MemorySpaceType, host, device, same_space, Platform}
use krepe.Replay.Ranges.{
  Range, word, granularity, get_allocation_address, align_range, insert_range, compute_allocations,
  Contained, Ascending, Separated, Fits, Aligned,
}
use krepe.Replay.Ranges.Align.{align_range_bounds, align_range_multiple}
use krepe.Replay.Ranges.Merge.{compute-Separated, compute-Contained, compute-Aligned}
use krepe.Replay.Ranges.Insert.{
  insert_range-Ascending, insert_range-Fits, insert_range-Aligned, insert_range-Contained,
}
use krepe.Replay.Dump.{
  Entry, space_of, check_byte_dataset, get_hdf5_dataset_alloc_info, collect, locations,
}

-- The bytes of the allocation are in the dump.
abbrev pub IsDumped : Entry → Type 0
IsDumped e = (e.info.bytes_dumped ≡ true) × ((bytes : Bytes) × (check_byte_dataset e ≡ ok bytes))

-- The pages around the allocation end inside of the address space.
abbrev pub HasRoom : ℕ → Entry → Type 0
HasRoom g e = e.info.address + e.info.size + g < word

-- What is known of the entries of the space: `P` holds of each.
abbrev pub Each : MemorySpaceType → (Entry → Type 0) → List Entry → Type 0
Each target P [] = Unit
Each target P (e ∷ es) = (same_space (space_of e) target ≡ true → P e) × Each target P es

-- The whole allocation lies in one range.
abbrev pub Holds : List Range → Entry → Type 0
Holds rs e = e.info.size ≢ 0 → Contained e.info.address (e.info.address + e.info.size) rs

-- What holds of the set.
abbrev IsRangeSet : ℕ → List Range → Type 0
IsRangeSet g rs = Ascending 0 rs × Fits rs × Aligned g rs

pub same_space-eq : (s t : MemorySpaceType) → same_space s t ≡ true → s ≡ t
same_space-eq host host e = refl
same_space-eq device device e = refl
same_space-eq host device e = absurd (ground arith)
same_space-eq device host e = absurd (ground arith)

insert_range-IsRangeSet :
    (g a s : ℕ) (rs : List Range)
    → 0 < g
    → 0 < s
    → a + s + g < word
    → IsRangeSet g rs
    → IsRangeSet g (insert_range (align_range g a s) rs)
      × Contained a (a + s) (insert_range (align_range g a s) rs)
insert_range-IsRangeSet g a s rs hg hs room (o, f, m) =
    let r = align_range g a s in
    let b = align_range_bounds g a s hg hs room in
    let k = align_range_multiple g a s hg hs room in
    (
      (
        insert_range-Ascending 0 r rs (omega arith) o,
        insert_range-Fits r rs (omega (arith, b)) f,
        insert_range-Aligned g r rs (k.0, k.1, tt) m,
      ),
      insert_range-Contained a (a + s) r rs (inl (b.0, b.2)),
    )

module _ (p : Platform) (target : MemorySpaceType) (g : ℕ) where
  -- One visit of an allocation that was dumped does not throw, puts its pages into the set if it is
  -- in the space and not empty, and takes nothing out.
  visit :
      (e : Entry) (rs : List Range)
      → granularity p target ≡ ok g
      → 0 < g
      → (same_space (space_of e) target ≡ true → IsDumped e × HasRoom g e)
      → IsRangeSet g rs
      → (out : List Range) × (get_hdf5_dataset_alloc_info p target e rs ≡ ok out)
        × IsRangeSet g out
        × (same_space (space_of e) target ≡ true → Holds out e)
        × ((x y : ℕ) → Contained x y rs → Contained x y out)
  unfolding get_hdf5_dataset_alloc_info get_allocation_address
  visit e rs page hg c s = elim (Bool-cases (same_space (space_of e) target)) [
    | inr other ↦ (rs, rw other, s, λ h. absurd (ground (arith, h, other)), λ x y h. h)
    | inl here ↦
        let ((dumped, (bytes, checked)), room) = c here in
        let page' : granularity p (space_of e) ≡ ok g =
          rw (same_space-eq (space_of e) target here) page in
        elim (Bool-cases (e.info.size == 0)) [
          | inl empty ↦ (
            rs,
            rw (here, checked, dumped, empty),
            s,
            λ h full. absurd (full (ground arith)),
            λ x y h. h,
          )
          | inr full ↦
              let r = align_range g e.info.address e.info.size in
              let (s', held) =
                insert_range-IsRangeSet g e.info.address e.info.size rs hg (ground arith) room s in
              (
                insert_range r rs,
                rw (here, checked, dumped, full, page'),
                s',
                λ h k. held,
                λ x y h. insert_range-Contained x y r rs (inr h),
              )
        ]
  ]

  collected :
      (es : List Entry) (rs : List Range)
      → granularity p target ≡ ok g
      → 0 < g
      → Each target IsDumped es
      → Each target (HasRoom g) es
      → IsRangeSet g rs
      → (out : List Range) × (collect p target es rs ≡ ok out)
        × IsRangeSet g out
        × Each target (Holds out) es
        × ((x y : ℕ) → Contained x y rs → Contained x y out)
  unfolding collect
  collected [] rs page hg d c s = (rs, refl, s, tt, λ x y h. h)
  collected (e ∷ es) rs page hg d c s =
      let (now, visited, s', holds, grows) = visit e rs page hg (λ here. (d.0 here, c.0 here)) s in
      let (out, done, s'', later, grows') = collected es now page hg d.1 c.1 s' in
      (
        out,
        rw (visited, collect) done,
        s'',
        (λ here full. grows' _ _ (holds here full), later),
        λ x y h. grows' x y (grows x y h),
      )

  Holds-compute :
      (es : List Entry) (rs : List Range)
      → IsRangeSet g rs
      → Each target (Holds rs) es
      → Each target (Holds (compute_allocations rs)) es
  Holds-compute [] rs s h = tt
  Holds-compute (e ∷ es) rs s h = (
    λ here full.
        compute-Contained rs e.info.address (e.info.address + e.info.size) s.0 s.1 (h.0 here full),
    Holds-compute es rs s h.1,
  )

  -- Where each allocation of the space was dumped, and ends at least a page before the end of the
  -- address space, its ranges can be computed: they are disjoint, in ascending order, and whole
  -- pages, and each allocation that is not empty lies in one of them.
  pub locations_hold :
      (es : List Entry)
      → granularity p target ≡ ok g
      → 0 < g
      → Each target IsDumped es
      → Each target (HasRoom g) es
      → (rs : List Range) × (locations p target es ≡ ok rs)
        × Separated 0 rs
        × Aligned g rs
        × Each target (Holds rs) es
  unfolding locations
  locations_hold es page hg d c =
      let (set, done, (o, f, m), holds, grows) = collected es [] page hg d c (tt, tt, tt) in
      (
        compute_allocations set,
        rw (done, locations),
        compute-Separated set o f,
        compute-Aligned g set o f m,
        Holds-compute es set (o, f, m) holds,
      )
