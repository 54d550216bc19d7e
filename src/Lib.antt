-- ===== src/Lib.antt =====
-- Verification library of KREPE, which captures one launch of a Kokkos kernel from a running program
-- and replays it alone.
--
-- The parts of the program, and how they interact.
--   A tool (src/krepe/capture) is loaded by Kokkos into the captured program. Kokkos calls it when a
--   kernel begins and ends and when memory is allocated and freed; the extractor
--   (src/krepe/extract), a header in the captured program, hands it the functor, the policy and
--   the pointers that the kernel uses. When the selected invocation of the selected label begins,
--   the tool writes an HDF5 file with the bytes of the allocations; when that kernel ends it appends
--   the bytes that the kernel left. The replayer (src/krepe/replay) reserves the same addresses in
--   another program, restores the bytes there, and launches the kernel on them.
--
-- The files.
--   Prelude             shared names; lists, texts, maps, decimal numbers, integers of a width
--   Hdf5                the HDF5 library as an interface with its laws, and sequences of writes
--   Common.Lambdas      the visit of the host closures of an extended lambda of nvcc
--                       (src/krepe/common/extended_lambda_utils.hpp); Common.Bytes has the bytes
--                       in memory
--   Kokkos              what is seen of an execution policy of Kokkos
--   Extract.Bounds      register_bounds and what it calls (src/krepe/extract/kernel_extractor.hpp)
--   Extract.Forward     the search for the tool, the forwarding functions
--                       (src/krepe/extract/kernel_extractor.cpp)
--   Extract.Closures    copy_nvcc_functor (the header)
--   Extract.Launch      replay_functor and parallel_for (the header), with the macro
--                       KERNEL_REPLAYER_USE_NVCC_HDL_WORKAROUND as an argument, and a captured
--                       program as the sequence of its calls
--   Capture.Tracker     AllocationTracker (src/krepe/capture/allocation_tracker.hpp, .cpp): the
--                       active allocations of each space and the pointers that were registered
--   Capture.DataSize    allocation_data_size and what it calls (src/krepe/capture/kokkos_hooks.cpp)
--   Capture.Names       names of files and groups, tests on labels (src/krepe/capture/view_dump.cpp
--                       and kokkos_hooks.cpp)
--   Capture.Copy        copy_allocation_bytes (src/krepe/capture/memory_copy.cpp)
--   Capture.Policy      the descriptions of policies (src/krepe/capture/view_dump.hpp), and
--                       write_policy (src/krepe/capture/view_dump.cpp)
--   Hdf5.Disk           the disk's files: creating, opening, writing and closing one
--                       (ScopedHandle of src/krepe/common/hdf5_utils.hpp)
--   Capture.Dump        write_allocation_group, write_snapshot and what create_kernel_dump writes;
--                       Dump.Files has create_kernel_dump and append_kernel_output
--                       (src/krepe/capture/view_dump.cpp)
--   Capture.Hooks       the tool's state, begin_kernel and end_kernel; Hooks.Entries has the other
--                       exported functions (src/krepe/capture/kokkos_hooks.cpp), Hooks.Runs whole
--                       runs as sequences of events
--   Replay.Space        memory spaces, and what differs between builds
--                       (src/krepe/replay/memory_space_type.hpp)
--   Replay.Ranges       get_allocation_address (src/krepe/replay/allocation.hpp), and
--                       compute_allocations (src/krepe/replay/kernel_replayer.cpp)
--   Replay.Dump         the allocations of a dump as the replayer reads them, and the ranges that it
--                       reserves for them (get_hdf5_dataset_alloc_info, allocate_hdf5_dataset)
--   Replay.Load         the callbacks that restore inputs and attach outputs, and the loop that
--                       resets the inputs
--   Replay.Store        get_allocations, get_unique_allocation, validate_comparison, init_functor
--   Replay.Compare      compare_views, of an allocation, of a label and of a flat array
--   Replay.Session      the constructor and the destructor of ScopeGuard, initialize, finalize,
--                       reset_inputs, get_metadata (all src/krepe/replay/kernel_replayer.cpp)
--   Replay.Attributes   the get_hdf5_*_attribute functions and read_hdf5_int64_dataset
--   Replay.Reader       read_allocation_info, and the iterations over the groups and attributes of
--                       a dump; its children follow a dump from the tool to the replayer's memory
--   Replay.Policy       read_policy_from_hdf5 (src/krepe/replay/kernel_replayer.cpp)
--   Replay.Launch       ParallelForVisitor, parallel_for and the functions that build the policies
--                       (src/krepe/replay/kernel_replayer.hpp)
--   Replay.Functor      FunctorRestoreGuard and replay_functor
--                       (src/krepe/replay/kernel_replayer.hpp),
--                       init_extended_lambda_host_closure (src/krepe/replay/kernel_replayer.cpp)
--   Replay.Cli          the functions on argc and argv (src/krepe/replay/kernel_replayer.cpp)
--
-- How the code is translated.
--   A pointer is its address, a number; sums of addresses and sizes keep their wrap-around at
--   2 ^ 64. A C string or std::string is the list of its bytes. An unordered map is a list of entries
--   whose order stands for the unspecified order of iteration. A method under a mutex is one step;
--   a run is a list of such steps in any order. Global variables are a record that the functions
--   take and give back; a function that throws gives the error and the variables as they are then.
--   Destructors of what a failed constructor had built only give memory back. Output to the log is left out.
--   The loops over argv count the rounds that argc leaves, and the other loops are structural, so no
--   fuel can run out; Prelude.Decimal prints on fuel 20, the most digits that a 64-bit number has.
--
-- What is a parameter.
--   Capture.DataSize.Host holds the answers of the CUDA and HIP drivers and of malloc_usable_size,
--   Capture.Copy.Memory the bytes in memory, Capture.Hooks.Dumper the writer of dumps and the fence,
--   Replay.Space.Platform the sizes of pages, Replay.Session.Machine the files that can be opened and
--   the ranges that the system gives; Capture.Dump.Source how a pointer is printed, Replay.Reader.Stoull
--   how it is parsed, Hdf5.Disk the files, Extract.Forward.Linker what dlsym finds,
--   Extract.Bounds.CapturedBuild the Kokkos of the captured program, and
--   Replay.Launch.Callable what a functor can be called with, Common.Lambdas.Pointers how
--   a pointer stands in memory. Replay.Dump starts from what the HDF5 library shows of a
--   group, Replay.Session from what it shows of a file. Hypotheses on them are records of laws.
--
-- What is not modelled: the compiler plugins, and the calls of the CUDA and HIP drivers. Of a view
-- type of Kokkos there is what compare_views takes of it.
pub mod Prelude
pub mod Hdf5
pub mod Common
pub mod Kokkos
pub mod Extract
pub mod Capture
pub mod Replay
