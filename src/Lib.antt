-- ===== src/Lib.antt =====
-- Shard: pipelined inference of one large model over a ring of machines that do not trust each other.
--
-- The program. A scheduler divides the layers of a model over the nodes of a pool (shard/shard/scheduler.py)
-- and the ring search orders the stages and divides the layers by speed, with the layers that leak the
-- user's text kept on trusted nodes (shard/shard/topology.py). The coordinator process
-- (shard/shard/coordinate.py) dials the formed ring, takes one job per line of stdin, drives the engine and
-- reports on stdout; its output streams as it is committed, a failed job is run once more without its
-- optional features, and a watchdog kills a coordinator whose job has stalled. Messages between stages are
-- frames of bytes with a JSON header (shard/shard/transport.py). Each stage signs a receipt of what it
-- computed (shard/shard/receipt.py), and the settlement pays the stages of a job from its receipts
-- (shard/shard/verify.py). The publisher of a model signs the manifest of its weights
-- (shard/shard/manifest.py), and a stage finds its own by their names (shard/shard/weightkeys.py). Drafts
-- save traversals of the ring: copied from earlier text (shard/phase0/ngram_draft.py) or a tree verified at
-- once (shard/phase0/tree.py). For one family of models, shard/engines/kimi_k3/k3_tools.py renders a
-- conversation to the ids of a prompt and reads what the model completes, as a whole and as it streams.
--
-- The files. Each module models the file of its first line; its children prove what they are named for.
--   Base           equality tests, integers, lists, dictionaries over the keys of a list, stable sorting, texts.
--   Receipt        Dict is the JSON object a receipt is; Signing is `_canonical`, `verify_receipt` and
--                  `ReceiptSigner`; Coverage is `verify_coverage`; Settle is `_stages`, `settle_unpinned`
--                  and `settle` of verify.py. Checked, Tiling, Settlement and Roundtrip hold the proofs.
--   Manifest       `canonical`, `sign_manifest` and `verify_manifest` of shard/shard/manifest.py; Signed its proofs.
--   Topology       Assign is `assign_layers` (Fill and Correct its proofs); Head is `loop_cost` and `_head_first`
--                  (Arranged and Cheapest its proofs); Pins is `_boundary_nodes`, the
--                  `_pin_floors` of `select_ring` and the blocks that it returns (Cover, Safe and Held its
--                  proofs); Roles is `_relegate` (Fitting its proofs); Tour is `_nn_2opt` and
--                  `_pin_order_oversize` (Shorter and Visits its proofs); Search is `_pin_orders` and `_search`
--                  of `select_ring` (Picked, Orders, Found and Best its proofs), and Select the rest of it
--                  (Served its proofs). Search is a client of Tour, Head, Assign and Pins, Select of Search.
--   Coordinate     Stream is what `on_commit` and `_visible` in `run_job` keep and send; Job is `run_job`
--                  with `_attempt`, `_finish` and the retry; Serve is `serve_jobs`; Watchdog is
--                  `_stall_budget`, `_firstack_budget` and `_StallWatchdog`. Job is a client of Stream, and
--                  Serve of Job.
--   Scheduler      `Scheduler` and `_distribute` of scheduler.py; Shares and Blocks its proofs.
--   Speculation    Tree is tree.py without its tensors; Ngram is `NgramDrafter` and `simulate_g`.
--   Transport      Bytes is `struct`; Sending is `_sendall_vectored`; Receiving is `_read_exact` and the
--                  reading of a frame; Codec is `_pack_parts`, `_unpack`, `send_msg` and `recv_msg`.
--   Chat           Markers are the channel markers of k3_tools.py and the searches for them; Splitter is
--                  `StreamSplitter`, a client of Markers; Completion is `parse_completion`, with Attrs for
--                  `_attrs` and Blocks for `_blocks`; Answers and Agrees compare it with the splitter. Prompt is
--                  the render half, with Ids for `render_ids` (Checked and Guarded its proofs), Message is
--                  `to_openai_message` and `mock_completion`.
--   Weights        the names of tensors in shard/shard/weightkeys.py: `layer_of`, `boundary_of` and `_path_at`, and
--                  in Layout `namespace` and `_decoder_tower`. Named holds the proofs.
--   Tests          small inputs with their results, and one application of each theorem.
--
-- How state and failure are written. An object that the source mutates is a record that an operation takes
-- and returns (the signer, the watchdog, the drafter, the pool, the streaming state of a job). An exception
-- is a constructor of a sum: receipts fail with a constructor per message, a job ends with an outcome or a
-- fault. Events on stdout and deltas to the user are lists in the order of writing. A dictionary keyed by
-- the nodes of an order is a function read at those nodes only.
--
-- Numbers. Layer times and memory are natural numbers in a fixed unit, and times of the watchdog are whole
-- milliseconds, where the source has floats; only sums, products, whole quotients, comparisons, minima and maxima
-- are taken of them. A receipt's integers may be negative; a float or a nested value in a receipt stands under one
-- constructor, so a float that equals a layer number is not modelled. Node ids, tokens and jobs' channels
-- are numbers. Lengths on the wire keep their width: 4 or 8 big-endian bytes.
--
-- Parameters. Code that is not in the repository is an argument: signing, verifying and hashing (`Crypto`),
-- JSON text, the tokenizer's decode, the sizes of torch dtypes, how many bytes a socket takes or gives at a
-- time, the clock of each poll of the watchdog. So are the control tokens of the checkpoint, the renderer
-- that is vendored with it and the tokenizer's encode, Python's classes of characters, the engine's
-- `coordinate_pipe` and the dialling of a ring, whose behaviour a `World` gives for each call. Hypotheses on
-- them are in the statements: that parsing undoes printing, that an engine's outputs grow, that a genuine
-- signature verifies.
--
-- Fuel. `hand_out` has the source's own safety stop. `accept_tree` takes its fuel as an argument, which is
-- to be above the height of the tree. `read_exact` has one unit per byte, and a piece is at least one byte.
-- `permutations` has the length of its list, `split_blobs` one unit per byte of the payload, and `simulate`
-- one per token of the text. The 2-opt has one round per unit of the tour's cost, which every round but the
-- last lowers. `_blocks` and `_attrs` have one unit per character, and each round passes at least one. The
-- polls of the watchdog are a list of clock readings.
--
-- Not modelled. The rest of the ring search (`_held_karp`, `optimal_loop`, `select_and_order`, and what
-- `select_ring` does without trusted nodes or with upload speeds), the planner and the probes; challenges,
-- fetching and content ids; the engines, stages and runtimes, which are tensor code; the HTTP gateway and
-- the tool calls of the other engines; the Go sidecar; the sealed wire of phase0; process start-up (`main`,
-- `connect_ring`) and key files.
pub mod Base
pub mod Receipt
pub mod Manifest
pub mod Topology
pub mod Coordinate
pub mod Scheduler
pub mod Speculation
pub mod Transport
pub mod Weights
pub mod Chat
pub mod Tests
