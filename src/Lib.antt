-- ===== src/Lib.antt =====
-- The communication library CaRT (collective and RPC transport): the parts that decide something.
-- A group of processes, each a rank, calls procedures of its members, along trees where all members
-- are meant, and watches which members are still there. The files, and the code that each models
-- (paths from the root of the repository):
--
--   - Prelude: the helpers that all files share, Boolean tests on numbers, lists measured and indexed
--     by native numbers, and return codes. A function of the source returns 0 or a negative error
--     number; the model keeps the number without its sign.
--   - Hlc: the hybrid logical clock of src/cart/crt_hlc.c. crt_hlc_get and crt_hlc_get_msg are loops
--     round an atomic exchange of one shared word: Hlc has their rounds, and Hlc.Threads the
--     interleavings of any number of threads, as a step relation with a list of the timestamps that
--     were returned.
--   - RankList: d_rank_list_t of src/gurt/misc.c and its operations, with the arrays as lists that may
--     be longer than the count of ranks. Allocation is an argument that says whether it succeeds. The
--     sort is insertion sort, in place of qsort of the C library. Children: Sort, Shift, Leaves, Thin
--     and Uniq for the removal of repetitions, Filter, Delete and Lookup.
--   - Tree: the trees along which collective calls are forwarded. The three topologies of
--     src/cart/crt_tree_flat.c, crt_tree_kary.c and crt_tree_knomial.c fill the record TopoOps, which
--     is struct crt_topo_ops of src/cart/crt_tree.h; Tree.Spanning says what a topology promises, and
--     Flat, Kary and Knomial have the lemmas on each of the three. Tree.Group has the calls of src/cart/crt_tree.c,
--     which build the tree over the members of a group less the ranks that are left out: they use the
--     operations of RankList and know a topology only by its promise.
--     A failed assertion of a topology is an error 0 here, which the checks of the calls rule out.
--   - Swim: the failure detector of src/swim/swim.c. The record SwimContext is struct swim_context, and
--     SwimOps is struct swim_ops, with the clock and the allocator; Swim.Laws says what swim.c relies
--     on in them. The operations stand in Updates, Members, Suspects, Progress and Message, in the
--     order of the source. Steps has the order of the states of one member, the consistency of a
--     context and the steps that respect both; Verdicts, Gossip, Timeouts, Rounds and Replies take
--     the operations one by one as such steps. Frame, Ends, Told, Sends, Detects, Answers and Refutes hold what
--     single operations do.
--   - Membs: the callbacks of src/cart/crt_swim.c over its circular list of members, which fill
--     SwimOps (States, Targets), and the ranks that join and leave (Ranks, with
--     Ring and Known for what is proved of them).
--   - Binheap: the binary heap of src/gurt/heap.c (struct d_binheap of src/include/gurt/heap.h), with
--     its three levels of arrays of pointers and the index that every node keeps; a failed assertion
--     or a pointer that is NULL is the value none. Moves has the operations on nodes. Grown, Grows,
--     Freed and Create are about the arrays; Order says what a heap in order is, also with one node in
--     the hand of a loop; Up and Down are the two loops, Insert and Remove the operations.
--   - Requests: the requests of a context, of src/cart/crt_context.c, with parts of src/cart/crt_rpc.c
--     and crt_rpc.h. The deadlines stand in a heap of Binheap, of which the client knows the laws only:
--     Timed and Expiry. Credits has flow control: the queue of the requests on their way to an endpoint
--     and the queue of those that wait for a credit; Flow, Track, Refill and Untrack have its proofs. Abort and
--     Force are single operations.
--   - Hashtable: the hash table of src/gurt/hash.c (struct d_hash_table of src/include/gurt/hash.h) as a
--     chain of records for each bucket, over the callbacks of d_hash_table_ops_t. Chains has what is
--     linked; Maps and Updates take the table as a map from keys to records, Answers its calls as
--     operations of the map. Counts says what the callbacks that count references are relied on for;
--     Lives, Drops, Holds and Calls have the references of the table and its callers over any calls;
--     Drained and Destroyed are about destruction, which runs on the length of each chain.
--
-- Numbers. Ids, incarnations, times and ranks are natural numbers; sums and products that the source
-- computes on uint32_t or uint64_t are taken modulo 2 ^ 32 or 2 ^ 64, and differences are written so
-- that they do not stop at 0 where the source would wrap.
--
-- Bounds and fuel. The loop of swim_progress runs on fuel, and 4 are enough for a call with the
-- timeout 0, which is how src/cart/crt_swim.c calls it. A knomial number has at most 64 digits in the
-- source and at most 32 that are not 0; the loops over digits run 64 rounds. The loop of
-- swim_parse_message that sends has a round for each indirect ping that waits, and one more. The
-- topologies are taken for groups whose size times the branch ratio stays below 2 ^ 31. A node of the
-- heap rises at most as many levels as its index is, and sinks at most as many as there are nodes: the
-- loops of d_binheap_bubble and d_binheap_sink run on that fuel, the preallocation on the number of
-- nodes that are asked for, and the loop of crt_context_timeout_check on the number of nodes and one
-- more. The heap ends at 512 + 512 ^ 2 + 512 ^ 3 nodes, so its indices do not overflow.
--
-- Not modelled. Locks: every call is taken as one critical section, but in the clock, which has none.
-- swim_fini, d_rank_list_free and the other functions that only free. Log messages. The RPC layer behind
-- crt_swim_send_message, of which the return code and whether the message failed at once are taken: if
-- one that asks for an acknowledgement does, crt_swim_cli_cb declares its member dead behind the back of
-- swim.c, and the theorems on swim.c, whose hypothesis SwimLaws rules that out, say nothing of such a
-- call. The callbacks of the application on events, and the registration of the
-- progress callback. The choice of the number of rounds by the timeout of swim_progress, where it is
-- not 0, is modelled, but its end depends on the clock and is not shown. Of a context,
-- what the hash table of its endpoints does (crt_context_req_track takes the outcome of its search and
-- of the creation of an endpoint), what is done with the requests that have timed out, and the sending
-- of those that got a credit. URI lookups are bypassed by crt_context_req_track; req_untrack and
-- force_timeout are those calls for other requests. What a
-- request does at the reference count 0. The creation and traversal of a hash table, and
-- a call of d_hash_rec_ndecref with the count 0. The group tables, the collective RPCs and the incast
-- variables.
pub mod Prelude
pub mod Hashtable
pub mod Hlc
pub mod RankList
pub mod Tree
pub mod Swim
pub mod Membs
pub mod Binheap
pub mod Requests
