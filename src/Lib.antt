-- ===== src/Lib.antt =====
-- Little Smalltalk: a virtual machine in C (src/vm) that runs Smalltalk images, and a bootstrap program
-- (src/bootstrap/bootstrap.c) that compiles the Smalltalk sources into the first image. The bootstrap
-- makes symbols, dictionaries and byte code; the image writer stores the object graph; the machine reads
-- it back, decodes the byte code, looks up methods in dictionaries ordered by symbols, and runs
-- primitives.
--
-- Symbols: `symbolcomp` (src/vm/interp.c), `symstrcomp` and `strsymcomp` (src/vm/memory.c),
--   `symbolBareCmp`, `symbolCmp`, `newSymbol`, `symbolTreeInsert`, `fixSymbols` (bootstrap.c). A symbol is
--   its bytes; in Symbols/Intern it is its place in `oldSymbols`, in Methods its address.
-- Dictionary: `dictLookup` (src/vm/globals.c), `insert` and `dictionaryInsert` (bootstrap.c), on the two
--   arrays of a dictionary. The searches by halving get one unit of fuel more than there are keys, since
--   each round shortens the range.
-- Methods: `lookupMethod`, `flushCache` and the part of `execute` from `checkCache` to the filled cache
--   (src/vm/interp.c); what follows a miss is in Contexts. The fuel of `lookupMethod` counts classes: more than the chain has is enough.
-- CodeGen: `genByte`, `genVal`, `genValPos`, `genInstruction`, `addLiteral` and the builders (bootstrap.c),
--   with the decoder and `VAL` of `execute`. The buffers keep their limits of 2048 bytes and 1000 literals.
--   `genInstruction` calls itself at most twice, so that a fuel of two is enough for an opcode below 16.
-- Image: `getIntSize`, `writeTag`, `readTag`, the header, `objectWrite` and `objectRead`, then `fileIn` and
--   `fileOut` with the variables that they set, and `lookupGlobal` on objects (src/vm/image.c, globals.c).
--   The fuel of `objectWrite` and `objectRead` bounds the depth of their recursion: one more than the number
--   of objects of the graph is enough. `indirArray` has a number of places that is a parameter.
--   Dump has the relocation of version 2 images on the memory of the collector, with the cut of the size to
--   an `int` and a fault where the objects are read to outside the space; the fuel counts objects.
-- Url: `stringToUrl` and `urlToString` (src/vm/prim.c).
-- Memory: `map`, `walk`, `exchangeObjects`, `addStaticRoot`, and the collector (src/vm/memory.c). Collector has
--   `gc_move` round by round on headers and words; its fuel counts rounds, of which the room of the new
--   space in bytes and two more are enough. Collection has `do_gc`, which changes the spaces and moves the
--   roots, and the allocation that calls it. An object is found by its address alone; that the copies do
--   not overlap is proved. Sizes are numbers without the bound of 30 bits. Exchange reads the two arrays
--   from the memory at every `map`; the objects of a space are given by a list of their addresses.
-- Primitives: `bulkReplace` and the primitives 10 to 16 of `execute` (src/vm/interp.c). A copy beyond the
--   size of a destination is a fault, also where the last word of a byte object has room for it. An `int`
--   that overflows wraps around, which C leaves undefined.
-- Bootstrap: `addGlobalName`, `lookupGlobalName`, the scanners of class commands `eatSpaces`, `matchString`,
--   `getWord` and `matchVarList` with `parseClassCommand` (bootstrap.c), and the names of a method:
--   `addArgument`, `addTemporary`, `lookupInstance`, `nameTerm`.
-- Interpreter: the instructions of `execute` that stay in one context, on a store of objects that the
--   stack and the temporaries are in (src/vm/interp.c).
-- Contexts: `gcalloc` and `rootStack` (src/vm/memory.c), and `execute` as a whole (src/vm/interp.c): the entry
--   from a process, decoding, sends with the tail calls, returns, blocks, the primitives 1, 2, 4, 5, 7 and 8,
--   and the loop with its ticks. The collector is a parameter of what allocates, since it works on words,
--   and the other primitives are one of what runs them. `find_method` has two rounds, since the second
--   one looks for `doesNotUnderstand:`, and a miss of that ends in `error()`; the fuel of the loop counts
--   instructions.
-- Prelude: shared names, C integers, bit operations, and results: a call of `error()`, which ends the
--   process, an access outside an object, which C leaves undefined, and missing fuel.
--
-- Not modelled: `gcinit`, which takes its spaces of `calloc`, the variables that a version 2 image sets
-- from its globals, the 64-bit and string primitives, nested processes, the lexer and the parser of the
-- bootstrap (stateful through all its tables), and input, output and diagnostics, which only call the
-- operating system. The classes of the objects that the bootstrap makes are left out too: `newSymbol`,
-- `fixSymbols` and the builders look them up by name, and end in `error()` where one is missing.
pub mod Contexts
pub mod Prelude
pub mod Symbols
pub mod Dictionary
pub mod Methods
pub mod Image
pub mod CodeGen
pub mod Url
pub mod Memory
pub mod Primitives
pub mod Bootstrap
pub mod Interpreter
