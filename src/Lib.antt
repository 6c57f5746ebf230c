-- ===== src/Lib.antt =====
-- SWAT-M-Block: the block-granular, SWAT-style merge planner of codes/src/swat_m_block.
--
-- The package plans the merge of two sorted runs of blocks on adjacent levels in three stages, beside
-- functional_oracle.py, which drives a reference merge, and provenance/verify_manifest.py, which checks
-- the frozen snapshot that the package rests on:
--   1. distribution.py chooses the bin capacity and draws bin loads and noise;
--   2. bin_allocator.py turns the loads of a run of blocks into a row of bins with noisy prefix sums;
--   3. content_schedule.py binds the bins to the blocks of a run, samples an interior point for each
--      bin, and merges the points of both sides into the order in which bins are read.
--
-- Files (each covers the part of the package that its first comment names):
--   * Prelude: tests, lists, signed integers, and `Result`, a value or the exception that was raised.
--   * Floats: what the package asks of Python: float arithmetic and `math`, `hashlib.sha256`, and
--     `random.Random`. They are parameters of the model, and an operation that may raise returns an
--     `Option`. Two of the theorems assume `CeilLogReaches`, that `ceil(log2(n + 1))` is an
--     exponent whose power of two exceeds n. They assume it at the number of loads alone, since doubles
--     round it away for large n (from 2 ** 49 on). The bound on seeds assumes that a digest is bytes.
--   * Values: arguments of any type, and `_require_plain_int` and `_require_positive_real`.
--   * Substrate: the fields and orders of `RecordKey`, `BlockId`, `Record` and `Block` of
--     codes/src/enhanced_letindex that the package reads.
--   * Distribution (codes/src/swat_m_block/distribution.py): Numbers (`_fast_power`, `to_even_up`,
--     `_decay`, `pinned_uint32_cast`), Weights (`compute_weight`, `_convolve`, `geom_conv`), Sizing
--     (`compute_bin_capacity_blocks`), Streams (`derive_stream_seed`), Samplers (both samplers).
--   * Allocator (codes/src/swat_m_block/bin_allocator.py): Config (`SwatBlockAllocationConfig`,
--     `compute_factor`, `compute_bin_count`), Prefix (`_trailing_zeros`,
--     `compute_noisy_prefix_sums`), Plan (`BlockBinPlan`, `BlockAllocationPlan`), Allocate
--     (`allocate_block_bins`).
--   * Sorting: `sorted`, `set` and `==` of lists.
--   * Content (codes/src/swat_m_block/content_schedule.py, first half): Snapshot
--     (`LogicalBlockSnapshot`), RunView (`LogicalBlockRunView`), Interior (`InteriorPoint`, its
--     weights, order and draw).
--   * Schedule (codes/src/swat_m_block/content_schedule.py, second half): Bins (`BoundBlockBin`,
--     `TaggedBinInteriorPoint`), Allocation (`BoundBlockAllocation`), Binding
--     (`bind_block_allocation`), Sampling (`sample_bin_interior_points`), Reads and Order
--     (`build_abstract_merge_schedule`, `read_order`), Merge (`SwatBlockMergeSchedule`,
--     `plan_swat_block_merge_schedule`).
--   * Oracle (codes/src/swat_m_block/functional_oracle.py): `collect_output_blocks`, the packing check
--     and `functional_merge_oracle`. Job is the interface of `IncrementalMergeJob`
--     (codes/src/enhanced_letindex/incremental_merge.py), with what its documentation promises as
--     `MergeJobLaws`: a job ends after as many decisions as it has input records, and what it completes
--     does not depend on the budgets.
--   * Provenance (provenance/verify_manifest.py): Text (the methods of str that it calls), Manifest
--     (`read_manifest`), Hash (`sha256_of`), Verify (`main`). The working tree and the SHA-256 object are
--     a parameter, `Tree`; what a last line prints is a `Verdict`, and `status` is the exit status.
--   * Beside the file of a component stand modules named for what they prove, as Weights/Convolution,
--     Prefix/Loops or Merge/Returns; Laws has what the others build on.
--   * Examples: a small runtime in fixed-point numbers, inputs, and a run of each theorem.
--
-- State. A frozen dataclass is a record, and its `__post_init__` is a function `make_...` of the
-- unchecked fields that returns the record or the exception. A sampler is its state: a draw returns
-- the next state beside the value. An injected sampler is a function of a state of any type, which may
-- return any value or raise.
--
-- Loops. A `for` is recursion on the list or on the number of rounds left. A `while` is recursion on a
-- number of rounds that is more than the loop can make: the exponent in `_fast_power`, the upper bound
-- in the search for the capacity, the length in `bisect_right`, the number itself in `_trailing_zeros`,
-- in the sum over the levels and in the decimal digits, the input records plus one in the draining of a
-- job, and the bytes plus one in the chunks of a file. Where rounds could run out the model raises
-- `out_of_fuel`, which stands for no Python exception.
--
-- Exceptions. `Settles` says that a step returns a value with a property or raises something other
-- than IndexError and `out_of_fuel`; `Ensures` says that a value that is returned has the property;
-- `RaisesOnly` says which exceptions are raised; and `Follows` says that a step raises exactly what another
-- one raises, and otherwise returns a value that is related to its value.
--
-- Not modelled: exception messages; checks of types that the model's types already fix, such as that of a
-- sampler without a `sample` method; Python's limit on the digits of `str` of an int; the
-- frozen snapshot (codes/src/enhanced_letindex), a byte-identical copy of another project; the
-- argument parser and the printed lines of provenance/verify_manifest.py.
pub mod Prelude
pub mod Floats
pub mod Values
pub mod Distribution
pub mod Allocator
pub mod Substrate
pub mod Sorting
pub mod Content
pub mod Schedule
pub mod Oracle
pub mod Provenance
pub mod Examples
