-- ===== src/Lib.antt =====
-- A verification library of the Styio compiler and its runtime (C++, under src/).
--
-- The program reads a source text into tokens, parses and checks them, lowers them to its own
-- intermediate form and runs that by a JIT, with a runtime library for files, lists and tasks beside
-- it. A language server keeps the documents of an editor and hands their texts to the same front
-- end. This library models the parts that keep state or decide by rules of their own.
--
-- Files and what they model:
--   Prelude           shared names, Boolean tests, lists, bit operations, scanning of a text, maps
--                     from texts, integers
--   Token             src/StyioToken/Token.hpp: StyioTokenType and StyioToken. Token/Shape lists the
--                     texts that a token of each type may have
--   Tokenizer         src/StyioParser/Tokenizer.cpp: StyioTokenizer::tokenize. scan_round is one
--                     round of its loop, scan_switch its switch, Tokenizer/Operators the cases of
--                     the operators, Tokenizer/Native the scanner of native blocks
--   ParserLookahead   src/StyioParser/ParserLookahead.cpp: styio_skip_trivia_tokens and
--                     styio_try_check_non_trivia, which the parser asks what comes next
--   Unicode           src/StyioUnicode/Unicode.cpp and Unicode.hpp: the classes of characters, which
--                     the tokenizer uses, and decode_utf8_codepoint
--   HandleTable       src/StyioRuntime/HandleTable.hpp: StyioHandleTable, which gives the runtime's
--                     files, lists and tasks the integer handles that compiled programs hold.
--                     HandleTable/Closers is about closers that use the table
--   TextBuffer, Uri   src/StyioIDE/Common.cpp: TextBuffer and the file URIs
--   VirtualFileSystem src/StyioIDE/VFS.cpp: VirtualFileSystem, which holds a TextBuffer for each
--                     document. VirtualFileSystem/Operations has open (open_document), the two
--                     overloads of update (update, update_delta), close, snapshot_for, open_paths
--
--   DictStorage       src/StyioExtern/ExternLib.cpp: the dictionaries of running programs, a list of
--                     entries that one of two backends searches, by an index or along the list.
--                     DictStorage/Calls has each call, DictStorage/Histories sequences of them
--   RuntimeText       src/StyioExtern/ExternLib.cpp: lines_from and string_lines are
--                     styio_string_lines; the escapes of literals, and printed lists
--   Matrices          src/StyioExtern/ExternLib.cpp: the entry points styio_matrix_..._i64, on
--                     matrices as values. Matrices/Loops is about the loops that fill
--                     one, Matrices/Products the product
--   ResourceTopology  src/StyioResourceTopology/ResourceTopology.cpp: the graph of a program's
--                     resources. ordered_before is happens_before; ResourceTopology/Finalize has the
--                     accesses, the owners and finalize; Order and Decides are about the search,
--                     Places and Drops about what finalize drops
--   IrOptimizer       src/StyioLowering/StyioIROptimizer.cpp: the passes over the intermediate form,
--                     whose nodes (src/StyioIR/GenIR/) are in IrOptimizer. IrOptimizer/Analysis has
--                     the tests of expressions, Rebind the names and the search, Passes the changes.
--                     IrOptimizer/Meaning is a reference semantics, on the operations of a machine
--
-- How code corresponds to definitions:
--   A text is the list of its bytes. State is passed and returned, and an exception or a failure is
--   a value. A reference to a document is its key, and a shared pointer to a snapshot the snapshot.
--   A handle id is an integer with its sign written out; a pointer is an address or none.
--   Unsigned counters of the documents wrap around as written, at 2 ^ 32 and 2 ^ 64. Lengths and
--   offsets are natural numbers: they are sizes of texts in memory, or are cut to them before use.
--   The loop of tokenize runs on fuel, the length of the text: each round moves on by a byte at
--   least, so the fuel is not used up before the text is, and Tokenizer.Lossless rests on that. The
--   scanner of native blocks keeps a number of bytes to pass over in place of a jump of its index.
--   The search of happens_before runs on fuel, one more than the edges of the graph: each round takes
--   a node off the stack and puts on it the targets of edges that are not followed again. In the
--   intermediate form a null pointer is a node, equality of addresses a parameter, and a set of names
--   a list. In its reference semantics a block has no scope of its own.
--   An element or an index of a matrix is an integer with its sign. Signed arithmetic that leaves the
--   range of an int64_t is undefined behaviour, which is an outcome of its own, as is the exception of
--   a vector that cannot be made. A closer of the handle table is a function on the table and a state:
--   it may release other handles, as close_list and close_dict of src/StyioExtern/ExternLib.cpp do.
--   The loop of release_all reads the table anew each round and runs on fuel; for closers that make no
--   slot, as many rounds as there are slots are enough.
--
-- What is taken as given:
--   The C locale, and the build without ICU. Which numbers of elements a std::vector can be
--   made with is a parameter. lexically_normal of std::filesystem and the contents of files are parameters.
--   std::upper_bound is the number of elements before the first that is greater.
--
-- What is not modelled: the parser, the semantic analysis, the lowering, the visitors that fill the
-- graph of resources, code generation and the JIT (LLVM), the runtime's lists, matrices of doubles,
-- files and threads, the other services of the IDE and the LSP messages, native interop, printing and
-- the command line. They work on the whole syntax tree, call other libraries, or do input and output
-- only.
pub mod Prelude
pub mod HandleTable
pub mod IrOptimizer
pub mod Unicode
pub mod Token
pub mod Tokenizer
pub mod ParserLookahead
pub mod TextBuffer
pub mod Uri
pub mod VirtualFileSystem
pub mod DictStorage
pub mod ResourceTopology
pub mod RuntimeText
pub mod Matrices
