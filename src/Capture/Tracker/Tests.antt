-- ===== src/Capture/Tracker/Tests.antt =====
-- The tracker on a concrete history, and the theorems at it.
use krepe.Prelude.{
  ◌%◌, ◌^◌, ◌≡◌, ◌↔◌, refl, true, false, some, List, [], ◌∷◌, Text, codes, text_eq, arith, any,
}
use krepe.Prelude.Dict.{nat_eq, text_instance, lookup, NodupKeys, Listed}
use krepe.Capture.Tracker.{
  AllocationTracker, AllocationRecord, ActiveAllocation, entries_of, empty_tracker, snapshot,
  record_allocation, record_used_allocation, record_deallocation,
}
use krepe.Capture.Tracker.History.{
  Call, allocates, deallocates, registers, effects, run, step, find-run,
}
use krepe.Capture.Tracker.Tables.{find, IsTable}
use krepe.Capture.Tracker.Snapshot.{belongs}
use krepe.Capture.Tracker.Members.{Listed-snapshot_all, Listed-snapshot_used}
use krepe.Capture.Tracker.Size.{total_size, snapshot-active_bytes}

abbrev host_name : Text
host_name = codes "Host"

abbrev x_record : AllocationRecord
x_record = record {
  label = codes "x";
  space = host_name;
  p_data = 1128;
  size = 80;
  reported_size = 80;
  data_size_known = true;
}

abbrev x : ActiveAllocation
x = record { ptr = 1000; recorded = x_record }

abbrev tracker : AllocationTracker
tracker = record {
  used_allocations = (host_name, 1140 ∷ []) ∷ [];
  active_allocations = (host_name, (1000, x_record) ∷ []) ∷ [];
}

abbrev calls : List Call
calls =
    allocates (codes "x") host_name 1000 1128 80 80 true
    ∷ registers host_name 1140
    ∷ allocates (codes "y") host_name 2000 2128 8 8 true
    ∷ deallocates host_name 2000
    ∷ []

history : run empty_tracker calls ≡ tracker
unfolding run step record_allocation record_deallocation record_used_allocation text_eq
history = refl

taken : (snapshot true tracker).0.allocations ≡ x ∷ []
unfolding snapshot text_eq
taken = refl

tracker-IsTable : IsTable tracker.active_allocations
unfolding lookup
tracker-IsTable = ((refl, tt), ((refl, tt), tt))

tracker-NodupKeys : NodupKeys tracker.used_allocations
unfolding lookup
tracker-NodupKeys = (refl, tt)

find-run_example :
    find (run empty_tracker calls).active_allocations host_name 1000
    ≡ effects host_name 1000 (find [] host_name 1000) calls
find-run_example = find-run empty_tracker calls host_name 1000 (tt, tt)

Listed-snapshot_all_example :
    Listed x (snapshot false tracker).0.allocations
    ↔ ((s : Text) × (find tracker.active_allocations s 1000 ≡ some x_record))
Listed-snapshot_all_example = Listed-snapshot_all tracker x tracker-IsTable

Listed-snapshot_used_example : Listed x (snapshot true tracker).0.allocations ↔ (
    (s : Text) × (find tracker.active_allocations s 1000 ≡ some x_record)
    × (any (belongs x_record) (entries_of s tracker.used_allocations) ≡ true))
Listed-snapshot_used_example =
    Listed-snapshot_used tracker x (omega arith) tracker-NodupKeys tracker-IsTable

snapshot-active_bytes_example :
    (snapshot true tracker).0.active_bytes
    ≡ total_size (snapshot true tracker).0.allocations % 2 ^ 64
snapshot-active_bytes_example = snapshot-active_bytes true tracker
