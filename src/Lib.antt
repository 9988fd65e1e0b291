-- ===== src/Lib.antt =====
-- salgo: containers, allocators and number theory of the C++ library under include/salgo.
--
-- The parts and the files that model them:
--
-- Base: shared names and lemmas; Boolean tests, lists, integers and bits over the native numbers.
-- IntPow: include/salgo/_/int-pow.hpp, powers by repeated squaring for any operation. The operation
--   stores into its first argument; the model returns what it stores.
-- Discr.ModuloUtils: include/salgo/_/discr/modulo-utils.hpp. `mod` is `mod_signed` and
--   `mod_unsigned`; the two versions of `mult_and_mod` are `mult_and_mod`, with the 128-bit type, and
--   `mult_and_mod_portable`, without it, on 65 rounds of fuel for 64 bits.
-- Discr.Primes: include/salgo/_/discr/primes.hpp and totient.hpp. `_mr_pow`, `_mr_check`,
--   `miller_rabin`, `is_prime` of four types and `totient`. Discr.Primes uses IntPow and ModuloUtils.
-- Discr.Modulo: include/salgo/_/discr/modulo.inl. The operators of `Modulo` take the modulus that
--   `MOD()` returns; `modulus_of` and `totient_of` say where it comes from: the template parameters,
--   the stack `g_contexts` or the value itself.
-- Discr.ModuloHash: include/salgo/_/discr/modulo-hash.inl, residues modulo several primes, with the
--   operators of Discr.Modulo on each. The search for a prime has fuel; running out is `none`.
-- Discr.Binomial: include/salgo/_/discr/binomial.hpp, a walk over Pascal's triangle. The number of
--   rounds of each loop is bounded by the distance to the entry. `VAL` is an interface, with the laws
--   that its operations satisfy on the numbers that it holds.
-- UnorderedArray: include/salgo/_/unordered-array.inl. An array is the list of its values, a handle
--   an index. `sweep` and `sweep_back` are the loops that erase while an iterator runs.
-- HashTable: include/salgo/_/hash-table.inl. A table is a list of buckets, each an `Unordered_Array`
--   of entries, and the count. The hash function is a field of the interface `Key`.
-- UnionFind: include/salgo/_/union-find.inl. The nodes with their parent links, the data of the roots
--   and the number of sets. Both loops of `_find` have one round of fuel more than there are nodes,
--   which is enough because a path of links meets no node twice.
-- Alloc.Crude: include/salgo/_/alloc/crude-allocator.hpp. Blocks of growing size whose slots are
--   handed out in order.
-- MemoryBlock: include/salgo/_/memory-block.inl, with CONSTRUCTED_FLAGS, for values with their own
--   destructor. A block is the list of its slots. The size of the in-place buffer is an argument.
-- DynamicArray: include/salgo/_/dynamic-array.inl, a block and a size.
-- Alloc.Array: include/salgo/_/alloc/array-allocator.inl, on MemoryBlock. The search for a free slot has
--   one round of fuel for each slot, which is enough because it goes around the block.
-- LinkedList: include/salgo/_/list.hpp. The cells of the allocator are a function from handles; the
--   handle that `construct` of the allocator returns is an argument. Erasing all has one round of fuel
--   more than `num_existing`.
-- ChunkedArray: include/salgo/_/chunked-array.hpp, on the blocks of MemoryBlock. The builtin that counts
--   leading zeros is an instance argument, with its documented behaviour. The loop of pop_back over the
--   holes has the size of the array as fuel, one round for each slot.
-- Rand: include/salgo/_/rand.hpp, the generator, its state passed along.
-- Alloc.Random: include/salgo/_/alloc/random-allocator.hpp, on ChunkedArray and Rand. The search for a
--   free slot by random draws has the number of draws as fuel.
-- Mesh: include/salgo/_/geom/g3d/edge-links.inl, on HashTable. A mesh is the list of its triangles in
--   the order of the iterator, their vertices, and the links of their edges as a function.
-- Mesh.Full: include/salgo/_/geom/g3d/mesh/mesh-accessors.inl and mesh-data.inl, the mesh with vertices
--   that know their triangles, on HashTable; Mesh.Full.Commands has sequences of its operations.
-- Mesh.Utils: include/salgo/_/geom/g3d/mesh-utils.hpp, algorithms that erase parts of Mesh.Full.
-- Kd: include/salgo/_/linalg/kd.hpp and aabb.hpp. The tree is a data type whose nodes keep the number
--   that the forest gives them; `_erased` is a flag of the entry. What the memory of a new node holds
--   in `l_to` and `r_fr` is an argument of `emplace`. The numbers, the boxes and the squares
--   and distances are interfaces; a callback passes its state along.
-- Graph: include/salgo/_/graph/graph.inl, undirected. Where nothing is erased the entries of a vertex are
--   a list, as `add` of the dense dynamic array appends; Graph.Erasable has vertices and entries that
--   can be erased, and the places that the array allocators give are arguments. The link of a new entry
--   before it is set is an argument.
-- BinaryForest: include/salgo/_/graph/n-ary-forest/n-ary-forest-accessor.hpp and graph/bst.hpp,
--   the links of binary trees. The number of steps of the walks is an argument.
-- Tests: runs on small inputs.
--
-- A fault (an index out of range, a failed DCHECK) is `none`. A 32-bit or 64-bit unsigned number is a
-- natural number, with `% 2 ^ w` where the code wraps. Numbers of type `int` that count elements are
-- natural numbers without a bound.
--
-- Not modelled: directed graphs, forests of other arity, the rest of meshes and geometry, the adapters
-- between allocators, named arguments and the macros, and the code that only prints or tests.
pub mod Alloc
pub mod Base
pub mod BinaryForest
pub mod ChunkedArray
pub mod Discr
pub mod DynamicArray
pub mod Graph
pub mod HashTable
pub mod IntPow
pub mod Kd
pub mod LinkedList
pub mod MemoryBlock
pub mod Mesh
pub mod Rand
pub mod Tests
pub mod UnionFind
pub mod UnorderedArray
