-- ===== src/Lib.antt =====
-- model_shard: decentralised inference for mixture-of-experts models over nodes that coordinate
-- by gossip. A model's layers are spread over shards; within a split layer the experts are
-- spread over shards as well. Nodes learn of each other by a SWIM protocol over UDP
-- (src/model_shard/membership/), announce over the same messages which experts they hold, pull
-- hot experts from each other and evict cold ones (migration.py), and record a chain of hashes
-- that says which node ran which operation (provenance.py). This library models these parts and
-- proves what makes them correct.
--
-- Membership.antt, src/model_shard/membership/{state,records,config}.py. Records has the
-- dataclasses and messages. Machine has the object MembershipState and the actions on it: a
-- method is a function from the state to a value and a new state, or to none where Python raises
-- a KeyError. Gossip, Handlers and Tick have the methods, each under its name without the
-- leading underscore: the merge of gossip and what is sent, recv and its handlers, tick and what
-- it calls. Events has the sequence of calls that the runner's thread makes. Spec is the
-- abstract protocol, a step relation on states with the invariant of well-formedness; Runs and
-- WellFormed are the proof rules, Refines and its children prove the methods one by one, Safety,
-- Merge, Replay, Admission, Detection and Refutation prove the properties, and Samples runs
-- them. Times and intervals are milliseconds, as natural numbers. Python's random generator is a
-- parameter, Tick.Rng: all that is assumed is that a choice is an element of what it is made
-- from, and that a shuffle keeps the elements.
--
-- Runner.antt, src/model_shard/membership/runner.py. Ownership has the last-writer-wins view of
-- who holds which expert, which the node (node.py, _ownership_view_put) keeps in the same way,
-- the announcements and the outbox with its ttl. Loop has the object MembershipRunner and its
-- steps: a message arrives, an expert is announced, the thread goes round once. A step is taken
-- as atomic, as the locks make each of them on the data that they touch. What is sent is encoded
-- by Wire.Envelope, and a message that cannot be encoded ends the thread, as a value. Latest,
-- Outbound and Observed prove the properties. The inbox holds 4096 messages at most and drops
-- what does not fit, and an announcement is sent in five rounds, as in the source.
--
-- Provenance.antt, src/model_shard/{request,provenance}.py. Request has the data and the packing
-- of operations, Digest the hashes, the entries and their protobuf form, Chain the rules of
-- validate_chain in the order in which the code tries them, each as a check that gives the error
-- raised or none. Groups, SplitRuns and Sound prove what an accepted chain is. The digest
-- (BLAKE2b), the encoding of names and the callables that validate_chain is given are
-- parameters; a tensor is its bytes, a timestamp a natural number.
--
-- Migration.antt, src/model_shard/migration.py. Scanner has the policy and the scanner's
-- decisions and steps, over a record of its collaborators (the heat tracker, the owners, the
-- loads, pull, attach, announce, evict) as functions on the state of the node. Minimum and
-- Choice prove what is picked.
--
-- Wire.antt, src/model_shard/{transport,envelope}.py,
-- src/model_shard/membership/{messages,bootstrap}.py and proto/wire.proto. Frame has a stream of
-- bytes that comes in pieces, read_exact's loop, and the frame of two parts with their lengths
-- in front. Messages and Envelope have the protobuf messages and the codec of the membership
-- messages; protobuf's own encoding is a parameter. Bootstrap has the join through the seeds one
-- after the other. Reading, FrameTrip, EnvelopeTrip, Sendable and Restamp prove the properties.
-- The loop of read_exact runs on fuel, one more than the bytes asked for: each round takes at
-- least one byte or ends.
--
-- Trackers.antt, src/model_shard/heat.py. Average has the exponential average over a type of
-- numbers that is given with its operations, as the source's are floats; Heat has the tracker of
-- experts' heat, HeatLaws what an observation does.
--
-- Node.antt, src/model_shard/{node,shard_map}.py. Directory and Pipeline have the shards' order
-- and the peers of a shard. Ownership has the node's experts, attach and detach with their
-- guards; Scanning makes of them the collaborators of the migration scanner; Held and Owned
-- prove the properties, by the proof rules of Migration/Keeps. Requests has the head's tables,
-- the handlers and the rounds of the decode loop over them, with the layers' results and the
-- fate of each write given; Head, Stream, Streaming, Rounds, Requested and Cleanup prove what a
-- client is sent and what the node forgets. Experts has the handler of requests for experts,
-- Serving its properties. Each round and each handler of the head is a step that nothing else
-- comes between. The handler of requests for experts only reads, since the count of requests in
-- flight is left out.
--
-- Orchestrator.antt, src/model_shard/expert_orchestrator.py. Gather has the loop that waits for
-- the peers, Retry the attempts. What a poll of the futures, of the abort events and of the
-- clock sees is given, one value for each time round: when the list of an attempt's polls ends
-- while it still waits, the result is `blocked`, to which nothing in the program corresponds.
-- The attempts are counted down. That a peer which returns gives an output for each expert asked
-- of it, as Node.Experts does and TcpPeerRPC does not check, is a hypothesis where it is needed,
-- and so is the like of the backend, whose calls may raise. Covered, Complete, Fanout and Prompt
-- prove what comes out.
--
-- Routing.antt, the grouping functions of src/model_shard/moe.py, which decide which shard runs
-- which of the experts that a token needs. Group has the two functions, with rng.sample as a
-- parameter of which it is assumed that it draws from the population; Partition and Plain prove
-- what the groups are.
--
-- Prelude.antt and its children hold what the parts share: the library names, Boolean tests on
-- the native numbers, types with a Boolean equality, lists, and Python's dict as an association
-- list in insertion order. Loops are structural recursion on the list that the source goes
-- through or on a list of what happens from outside, but for read_exact's and the retries',
-- which are said above.
--
-- Not modelled: the tensor code (mlx_engine.py, pytorch_engine.py, the rest of moe.py,
-- pt_moe.py, partial_load.py, pt_partial_load.py, reference.py, backends/), which computes with
-- libraries outside the repository; sockets and threads (membership/transport.py, client.py, and
-- what of the other files opens or starts them); the generated _pb/; how the directory is read
-- from YAML, and the layer groups (shard_map.py, shard.py); load.py and the count of requests in
-- flight; in node.py the handlers of the middle and tail shards and of requests for weights; in
-- expert_orchestrator.py the chain that is recorded and the layers around the fan-out.
pub mod Membership
pub mod Migration
pub mod Node
pub mod Orchestrator
pub mod Prelude
pub mod Provenance
pub mod Routing
pub mod Runner
pub mod Trackers
pub mod Wire
