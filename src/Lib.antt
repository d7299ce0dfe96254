-- ===== src/Lib.antt =====
-- Megatron-LM: the part of the training framework that decides who computes what, and when. A run
-- has many ranks; each is at one place of a grid of tensor-, pipeline-, context- and data-parallel
-- positions. The process groups follow from the sizes of the grid; the calculator of micro-batches
-- says how many micro-batches make up a step; the sampler gives each data-parallel rank its share
-- of the samples; the pipeline schedule runs the micro-batches forward and backward; gradients are
-- accumulated in a buffer that is cut into buckets, which are reduced over the data-parallel group;
-- and the distributed optimizer keeps, on each rank, the shard of the buckets that is its own. The
-- gradient scaler adapts the scale of the losses to overflows. Stages of the pipeline exchange
-- tensors by point-to-point calls, and the random-number states keep dropout apart on
-- tensor-parallel ranks. Each stage builds its own layers of the transformer. The training loop
-- asks the calculator for the batch size of each iteration, counts what was consumed, and saves and
-- leaves when it is told to; the mixed-precision optimizer steps float32 copies of the parameters,
-- with a learning rate and a weight decay that its scheduler sets.
--
-- The files:
--   Prelude            Boolean tests, lists, and the outcome of a call that may raise (`Result`).
--   Microbatches       megatron/microbatches.py: the constant calculator and the ramp-up.
--                      Arithmetic: float division as a parameter, Floor: an instance, Ramp: proofs.
--   Samplers           megatron/data/data_samplers.py: both samplers, the seeds of a data set, and
--                      the choice of the loader. Sequential, Sequential/Partition, Random: proofs.
--   Bucket             megatron/core/distributed/grad_buffer.py: `shard_buffer` and `Bucket`.
--                      Shards: the slices, Collectives: what a call leaves, Scatter: calls that
--                      are waited for, Sync: when they are made. Buffer: the methods of
--                      `GradBuffer` on its buckets, Buffer/Apart: proofs.
--   GradBuffer         the same file: the layout that `GradBuffer.__init__` computes first.
--                      Plan: the invariant, Plan/Build: that the loop keeps it, Plan/Total: when it
--                      succeeds.
--   DistribOptimizer   megatron/optimizer/distrib_optimizer.py: `Range`, and the maps from
--                      parameters to shards. Shares: one rank, Owners: all ranks.
--   P2p                megatron/core/pipeline_parallel/p2p_communication.py: the requests that each
--                      call makes. Calls: the calls of the schedules, Pairs: the order of requests
--                      on two neighbours, Outcomes: what `_communicate` returns.
--   Schedules          megatron/core/pipeline_parallel/schedules.py:
--                      `forward_backward_pipelining_without_interleaving`. Messages: what a log
--                      says, Steps: the invariant, Retire, Rounds: one round of each loop, Flow:
--                      the loops, Run: the schedule.
--   Pipeline           The runs of all ranks side by side, each call waiting for its messages to be
--                      posted on the other side. Timing: when a rank makes its calls, Counting:
--                      the calls left, Progress: the runs.
--   Interleaving       megatron/core/pipeline_parallel/schedules.py: the chunks of the interleaved
--                      schedule. Chunks, Last: the first and the last iteration for a chunk.
--   Rng                megatron/core/tensor_parallel/random.py: the tracker of the states of the
--                      random-number generators. Seeds, Forks: proofs, Checkpoint:
--                      `CheckpointFunction`, Checkpoint/Replay: proofs.
--   ParallelState      megatron/core/parallel_state.py: `initialize_model_parallel`. Striped: which
--                      ranks are in a group, Joined: the group that a rank joins, Stages: the
--                      data-parallel groups, Lifetime: queries and `destroy_model_parallel`.
--   Beams              megatron/text_generation/beam_utils.py: `BeamHypotheses`. Sorting: the order
--                      of scores, Drops, Added: one hypothesis more, Best: all of them.
--   Vocab              megatron/core/utils.py, megatron/core/tensor_parallel/utils.py,
--                      megatron/tokenizer/tokenizer.py and megatron/core/tensor_parallel/layers.py:
--                      the padded vocabulary, its ranges, and `VocabParallelEmbedding`. Padding:
--                      the padded size, Lookup, Shares, Embedding: proofs.
--   GradScaler         megatron/optimizer/grad_scaler.py: `DynamicGradScaler`. Trackers: proofs.
--   DictUtils          megatron/core/dist_checkpointing/dict_utils.py: splitting and merging nested
--                      state dictionaries. Extract, Merge: proofs.
--   Layers             megatron/model/transformer.py and
--                      megatron/core/transformer/transformer_block.py: which layers a stage builds.
--                      Numbers: the numbers of layers, Stages: the core library, Legacy: the older
--                      transformer, Checkpointed: recomputation of activations.
--   Training           megatron/training.py and megatron/checkpointing.py: `pretrain`, the loop of
--                      `train`, its exits and checkpoints, with the calculators of Microbatches.
--                      Counts: the samples used, Saved: the last checkpoint, Agreement, Went,
--                      Resumed: runs that are resumed.
--   MixedPrecision     megatron/optimizer/optimizer.py and megatron/optimizer/clip_grads.py: the
--                      step of the optimizer with float16 parameters, with the scaler of GradScaler.
--                      Parts: the parts of a step, Step: one step, Runs: several.
--   ParamScheduler     megatron/optimizer_param_scheduler.py: `OptimizerParamScheduler`. Steps: what a
--                      step keeps, Loaded: state dictionaries, Total: when a step returns.
-- Each has a module Tests with concrete runs.
--
-- How code becomes definitions: an object is a record of its fields, a method is a function that
-- returns the new record, in `Result` if it may raise; the changes that a call makes before it
-- raises are not kept, except in Rng, where they are. A generator is the list of what it yields.
-- Counts, sizes and ranks are natural numbers, which in Python do not overflow either; where Python
-- would get a negative number the comment of the definition says so. Logs of events take the place
-- of calls of the communication library. Loops are structural recursions on a list or on the number
-- of rounds left. Three loops have fuel that is enough: the one that pads the vocabulary, a round
-- for each number below the multiple; the one that adds up the iterations of a ramp-up, a round for
-- each sample of the ramp and one more, each round consuming a sample at least; and that of uniform
-- recomputation, a round for each layer and one more. Parameters of the model are: float division
-- and truncation (with the laws `IsRounding` that IEEE arithmetic meets for numbers that a double
-- holds exactly), `torch.randperm`, the collectives of a process group (with their contract
-- `IsCollective`), the division of an element of a tensor, the arithmetic on the scale of the
-- losses, the generators of random numbers, the order of the scores of beams, the sizes of tensors
-- that neighbours send, the keys and leaves of dictionaries with their equality and the predicate
-- on leaves, what a layer does, the events outside a training run (signals, the time, whether a
-- step was skipped), the arithmetic of the optimizer on tensors, and the float operations of its
-- scheduler. `pad_if_needed` rounds up exactly, which is what the float division of the source
-- gives below 2 ^ 53.
--
-- Not modelled: the arithmetic on tensors (layers, losses, the base optimizers), the communication
-- library beneath the groups, I/O, logging and evaluation, argument parsing, the parameters that an
-- optimizer keeps in float32 only, tokenizers, the loops of the interleaved schedule, the second
-- half of `GradBuffer.__init__`, the checkpoints of the distributed optimizer, the difference and
-- the in-place maps of dictionaries, and most getters and setters of the process groups.
pub mod Prelude
pub mod Microbatches
pub mod Samplers
pub mod Bucket
pub mod GradBuffer
pub mod DistribOptimizer
pub mod ParallelState
pub mod P2p
pub mod Schedules
pub mod Pipeline
pub mod Rng
pub mod Beams
pub mod Vocab
pub mod Interleaving
pub mod GradScaler
pub mod DictUtils
pub mod Layers
pub mod Training
pub mod MixedPrecision
pub mod ParamScheduler
