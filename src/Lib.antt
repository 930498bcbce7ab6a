-- ===== src/Lib.antt =====
-- A verification library for the C sources of mudlle, an interpreted and compiled Lisp-like
-- language for MUDs.
--
-- The parts of the program that are modelled, and how they interact. charset.c has the tables that
-- fold a byte to plain lower case. hash.c hashes a name through these tables. table.c stores
-- symbols under names, which it compares with charset.c and places with hash.c. env.c is the part of
-- the compiler that finds out what a name refers to: a local variable, a variable of a function
-- around, or a global variable, which global.c keeps in a table of table.c.
-- runtime/arith.c has the primitives on integers, which mvalues.h tags into words, runtime/bitset.c
-- those on sets of small numbers that are kept in the bytes of a string, and runtime/list.c those on
-- pairs and the check for a proper list that other primitives start with.
-- module.c keeps the status of the global variables of global.c, which the compiler asks for.
-- assoc.c has hash tables from C strings and integers to pointers, for the C code itself.
-- objenv.c has vectors of values that grow; the stack of stack.c, through which the interpreter
-- passes values, and the global variables are such vectors.
-- global.c keeps the global variables: a symbol table of the names, an environment of the values, and
-- the entries of module.c.
-- random.c draws the numbers in a range for the primitives of runtime/arith.c.
-- dlist.c links structures of the C code in rings, and calloc.c hands out memory to the compiler.
-- runtime/vector.c has the primitives on vectors, which share their indices from the end.
-- runtime/mudlle-string.c has those on strings; the bitsets are such strings.
--
-- The files. A module has the data and the operations of a source file, under the names of the
-- source, and its children have the lemmas and theorems.
--   Prelude: the shared names; native numbers, lists, options, Boolean tests, signed integers.
--   Error: error.h, the runtime errors, and the outcome of a primitive.
--   Charset: charset.c and charset.h, with the five tables in Charset/Tables.
--   Hash: hash.c.
--   Table: table.c up to the insertion of a symbol; Table/Probe has the probing loops, Table/Access
--     reading and writing by name, copying, rehashing and the walks. The laws of probing are in
--     Table/Probe/Laws, Placed, Vacate and Reseat, the invariant in Table/Valid, the two kinds of
--     tables in Table/Methods, lookups in Table/Lookup, insertion in Table/Grow, ReAdd and Add,
--     removal in Table/Remove, and the table as a map in Table/Map.
--   Env: env.c. Env/Names has names but for their case, Env/Scopes the innermost variable of a name,
--     Env/Closure what a reference stands for, Env/Resolve the resolution of a name, Env/Blocks the
--     entering of a block.
--   Arith: runtime/arith.c and the tagging of mvalues.h. Arith/Linear, Checked, Ordering, Division and
--     Modulo have the laws of the groups of primitives.
--   Bitset: runtime/bitset.c. Bitset/Bytes has the digits of bytes, Bitset/Members a bitset as a set
--     and the primitives on one number, Bitset/Binary those on two sets, Bitset/Count the
--     count, Bitset/Subset the test for a subset.
--   Pair: runtime/list.c. Pair/Walk follows a list, Pair/Proper is about the check; its fuel is one
--     round more than the greatest length, which Pair/Proper shows to be enough.
--   Module: module.c, the status of global variables; Module/Ownership says who may change it,
--     Module/Status has the table of the modules and Module/Unload what unloading one does.
--   Alloc: the size that alloc.c asserts of a new vector.
--   Assoc: assoc.c. Assoc/Chain is about one chain, Buckets about the array of chains, Rehash about the
--     growth, Valid and Map about the operations as those of a finite map, Reach about sequences of
--     calls and Lookup about lookups after them. Assoc/Types has the types of keys, Keys their laws.
--   ObjEnv: objenv.c and stack.c. ObjEnv/Reserve is about room in the vector,
--     ObjEnv/Growth about what is added there, ObjEnv/Refine about the
--     stack as a list.
--   Global: global.c. Global/Valid has the table and the vectors in step and the adding of a variable,
--     Global/Lookup the lookups and the start, Global/Access the checks of writes and reads.
--   Random: random.c. Random/Product multiplies words, Random/Uniform counts the words that are
--     accepted for a number, Random/Draws is about the calls. The fuel of a call bounds the draws; a
--     number of draws that ends in an accepted word is enough.
--   Dlist: dlist.c. Dlist/Ring has rings and their sequences, Dlist/Operations the functions; the fuel
--     of the count is one round more than the nodes.
--   Calloc: calloc.c. Calloc/Sound is about what is allocated.
--   Vector: runtime/vector.c. Vector/Indexed has the vectors from pairs of an index and an element,
--     Placed their two loops and Built the result; Access is about indices, Update about a write and
--     the reads after it, Swap about the exchange of two elements.
--   Text: runtime/mudlle-string.c. Text/Span is about spans of characters, Text/Find about the search
--     for one.
--   Tests: the operations at concrete inputs.
--
-- The state of a component is a record, an operation a function from the state before to the result
-- and the state after. A failed assertion, an abort, a null pointer that is followed and a read out
-- of bounds are `none`; a runtime error is a value of `RuntimeError`. Machine words are numbers, the
-- wrap-around written out; a long has 64 bits. The loops of table.c go round a vector of buckets, so
-- as many rounds as there are buckets are enough; the nested doublings of an insertion are at most
-- three deep. A vector that would be larger than the largest object is a failed assertion, so that
-- the results on growing tables and vectors have bounds on their sizes.
--
-- Not modelled: the garbage collector (alloc.c), whose moves no operation here depends on; the
-- interpreter and the instruction emission; the parser and the code generator; printing, ports,
-- files and other input and output; profiling and debug information; the compiler written in mudlle
-- itself; of the strings, the comparisons, the search for a string, the conversions of numbers, and what
-- iconv, ICU and PCRE do. The C library's functions are modelled where the source uses them (memcmp,
-- memchr, strcasecmp, ffsl); global.c is a parameter of env.c.
pub mod Prelude
pub mod Error
pub mod Charset
pub mod Hash
pub mod Alloc
pub mod Table
pub mod Env
pub mod Arith
pub mod Bitset
pub mod Pair
pub mod Module
pub mod Assoc
pub mod ObjEnv
pub mod Global
pub mod Random
pub mod Dlist
pub mod Calloc
pub mod Vector
pub mod Text
pub mod Tests
