-- ===== src/Lib.antt =====
-- A verification of the collections of this library: Go code, modelled by functions on records.
--
-- How a call is modelled. A method that changes its receiver returns the new receiver; a call that
-- indexes or slices returns an Outcome (Prelude/Outcome.antt), which is `panicked` where Go panics
-- and `diverged` where a loop's fuel ends. A slice is a list (Prelude/Slice.antt), `var zero T` is
-- the field of an instance of Zero, and an `int` argument that may be negative is an integer
-- (Prelude/Int.antt). Lengths and indices that the code computes are natural numbers without a
-- bound: they stay below twice the length of a slice plus two, which an `int` holds.
--
-- constraints.go: Comparator.antt, with the laws that a comparator has to meet.
-- priorityqueue.go: PriorityQueue.antt has the heap and its methods, `items` for the field `data`;
--   siftUp and siftDown are sift_up_loop and sift_down_loop on fuel, one round more than the index
--   and than the length, which is enough since the index falls and rises in each round. Its
--   children prove siftUp (Up), siftDown and heapify (Down), the constructors and pushes (Insert),
--   Pop and Peek (Remove) and sequences of Pop (Drain).
-- arraydeque.go: ArrayDeque.antt has the circular buffer and its methods, `wrap` for the method
--   mod. Its children hold the ring of indices and the invariant (Ring), the growth of the buffer
--   (Grow), the two ends (Front, Back), the iterators (Iterate) and the refinement (Refine).
-- arrayqueue.go: ArrayQueue.antt has the slice with its head and capacity. What append makes of a
--   capacity belongs to Go's runtime and is a parameter. Its children prove each method (Contents)
--   and the refinement (Refine).
-- arraylist.go: ArrayList.antt has the slice, the methods and the functions of Go's package slices
--   that they call. Its children prove Get and Set (Access), the insertions and removals at an
--   index (Edit), the searches (Search), and the methods that take a predicate or a part (Bulk).
-- arraystack.go: ArrayStack.antt has the slice, its top at the end, and Refine the refinement.
-- synclist.go: SyncList.antt has the slice and the methods, each one step under its lock; the lock
--   itself is not modelled. Alike compares RemoveFunc, which works in place, with slices.DeleteFunc.
-- hashset.go: HashSet.antt has the keys of the map and the methods. The order in which a range
--   visits a map belongs to Go's runtime and is a parameter, and so is the `==` of the elements;
--   another set is a record of what the methods call. Its children hold which keys are there after
--   a loop (Keys) and that none stands twice (Distinct), the methods that change a set (Change,
--   Remove), those that make a set of two (Algebra) and those that compare (Order).
-- hashmap.go: HashMap.antt has the entries and the methods that read or change one of them or a
--   given sequence of them; the methods that visit the entries are left out. Its children hold the
--   entries as a function (Entries) and the refinement (Refine).
-- treeset.go: TreeSet.antt has the methods over a B-tree, which BTree.antt takes as a parameter: a
--   record of the calls of github.com/tidwall/btree and a record of what its documentation says of
--   them. BTree/Sorted.antt shows with sorted lists that those laws can hold, and its other children
--   hold what sorted lists need. A callback that stops an iteration is a function on the list of the
--   items that are visited. The children of TreeSet prove the changes (Change), the parts (Select),
--   the ranges (Ranges), the algebra (Algebra), the neighbours (Nearest) and the binary search (Rank),
--   whose fuel is one round more than the length, since each round narrows the part to search.
-- treemap.go: TreeMap.antt has the methods at keys over the same B-tree, whose items are entries that
--   the comparator of keys compares. Its children hold what the B-tree finds after a change (Lookup)
--   and prove the methods (Change, Conditional, Update, Navigate).
-- lockfreelist.go: LockFreeList/State.antt has the nodes on a heap and what a compare-and-swap makes
--   of them, Task where a call stands, Action its atomic actions, each a load or a compare-and-swap,
--   and System the interleavings. A pointer to an element is the number of its box, since the
--   compare-and-swaps compare pointers. The other children prove that the chains hold (Nodes, Chain,
--   Keep, Safe), what a call has read and how long it is up to date (Fresh, Progress), that a call that
--   runs alone ends (Walk, Loops, Alone), which is an induction on the chain to the tail, and who
--   takes an element (Count, Taken, Once).
--
-- Each component stands by itself, but that the hash map takes the comparable types of the hash
-- set, and the synchronised list the functions of the package slices beside the array list; they
-- share the slices, the outcomes and the comparators. The tree set takes the record of another set
-- from the hash set, and the tree map the loops of the tree set.
--
-- Codec.antt: the encoders of Go's standard library, which are parameters. The Serialize modules
--   hold the methods that call them; JSON, streamed JSON and gob differ in the codec only.
--
-- Not modelled: the string forms, the encoders and decoders of the lists, stacks, sets and maps, the
-- functions of serialization.go, and the components that linkedlist.go,
-- cowlist.go and the files of the other sets and maps hold; of the lock-free list the reads, and
-- of the tree map the methods that visit the entries.
pub mod Prelude
pub mod Comparator
pub mod Codec
pub mod BTree
pub mod PriorityQueue
pub mod ArrayDeque
pub mod ArrayQueue
pub mod ArrayList
pub mod ArrayStack
pub mod SyncList
pub mod HashSet
pub mod HashMap
pub mod TreeSet
pub mod TreeMap
pub mod LockFreeList
