-- ===== src/Lib.antt =====
-- Verification of the bootstrap compiler of SultanC, the C program under bootstrap/. It reads a
-- source file, turns its bytes into tokens, parses them, checks names, types and the move and borrow
-- rules, and emits code through LLVM.
--
-- The parts, and where they are modelled:
--   Core.Source          bootstrap/include/public/core/source.h and bootstrap/src/core/source_slice.c: files,
--                        positions, spans and slices
--   Support.Utf8         bootstrap/src/support/text/utf8_decode.c and utf8_encode.c
--   Support.Builder      bootstrap/src/support/text/builder.c, the growable text
--   Support.Vector       bootstrap/src/support/containers/vector.c, the growable array
--   Support.Growth       the doubling loop that these two and the vector policy run
--   Support.Alignment    bootstrap/src/support/memory/alignment.c
--   Support.Arena        bootstrap/src/support/memory/arena.c, the chain of blocks
--   Support.Paths        bootstrap/src/support/path/source_import_path.c, path_directory.c and
--                        path_join_text.c, the resolution of imports
--   Support.TextEquality bootstrap/src/support/text/equality.c and
--                        bootstrap/src/core/source_text_equals_cstr.c
--   Kernel.Builtins      the registry bootstrap/include/private/kernel/type/type_registry.def, its records in
--                        builtin.h and bootstrap/src/kernel/type/type_builtin.c
--   Kernel.Names         what the kernels ask of the semantic context about named types
--   Kernel.Units         aliases, imports and ranges of bootstrap/src/kernel/name/name_lookup.c, with
--                        bootstrap/include/private/core/program.h
--   Kernel.Lookup        the lookups of bootstrap/src/kernel/name/name_lookup.c
--   Kernel.Constructors  bootstrap/src/kernel/name/enum_constructor.c, constructors of enums by name
--   Kernel.Owners        bootstrap/src/semantic/type_named.c, which fills Names from Units and Lookup
--   Kernel.Types         bootstrap/src/kernel/type/type_unwrap.c and type_resolve.c, with model.h
--   Kernel.Compatibility bootstrap/src/kernel/type/type_compatibility.c
--   Kernel.Conversion    bootstrap/src/kernel/type/conversion_literal.c, with conversion.h
--   Kernel.Tagged        bootstrap/src/kernel/type/type_tagged.c, options and results
--   Kernel.Layout        bootstrap/src/kernel/layout/layout_type.c, sizes and alignments with the state that
--                        the entries keep, and bootstrap/src/semantic/context_fail.c
--   Kernel.Projection    bootstrap/src/kernel/layout/layout_projection.c, offsets of fields; Kernel.Payloads
--                        has its second half, storage and payloads of tagged values
--   Kernel.Ownership     bootstrap/src/kernel/memory/memory.c, owned types and views, and the predicates at
--                        the end of bootstrap/src/kernel/safety/flow.c
--   Kernel.Memory        bootstrap/src/kernel/memory/memory.c, the vector policy of compiled programs
--   Kernel.Safety        bootstrap/src/kernel/safety/flow.c, the move and borrow facts of a value
--   Frontend.Token       bootstrap/include/private/frontend/lexer/token.h, its registry, and
--                        bootstrap/src/frontend/lexer/token.c
--   Frontend.Ast         bootstrap/include/private/frontend/ast/base.h and type.h, the nodes of types
--   Frontend.Identity    bootstrap/src/frontend/identifier_identity.c
--   Frontend.Lexer       bootstrap/src/frontend/lexer: Cursor is the state with its operations, Characters the
--                        classes, KeywordTable and Keywords, Operators, Numbers, Escapes, Strings and Next
--                        the scanners, each with its C function's name; Runs is their loop over bytes
-- Prelude holds what these share, and Checks applies the theorems to concrete inputs.
--
-- Conventions. A size_t is a native number with its wrap-around written out (wrap64), a uint32_t
-- likewise (wrap32). A pointer with a length is a list of bytes, an out-parameter is a further
-- result, a struct that a function changes is its first argument and its first result. The
-- allocator is a parameter, the function `grant` from the bytes asked for to whether they are
-- given; a theorem that needs an allocator that grants says so. The addresses that `malloc` gives
-- to the blocks of an arena are the parameter `bases`, multiples of 16 where a theorem says so.
-- The file system is the parameters `exists` and `canonical`. Pointers that the compiler never
-- passes as null are not options. The doubling loops run on 64 rounds of fuel, which take any
-- positive capacity past SIZE_MAX / 2, where the source itself stops. The loops of the lexer run
-- on as many rounds as there are bytes left: each round reads at least one, so Next.Fuel and
-- Next.Trivia can say what stopped a loop. A pointer to a node of a type is the node, or
-- `missing`; an entry of the semantic context is known by its address, and the lookup of a named
-- type is the parameter Names, which Owners.names_of fills. The recursion through types and
-- aliases has no bound in the source; it runs on fuel, and the Termination modules show how much
-- is enough. `confused` is the answer of a function that reads a node as what it is not. Of a
-- diagnostic only the code, the span and the wording that the lexer sets are kept.
--
-- How the parts interact: the lexer reads the source through Cursor, decodes it with Support.Utf8,
-- builds the text of a string in a Support.Builder and copies it to its Support.Arena; the facts of
-- Kernel.Safety carry the positions that the lexer made. Compatibility, Conversion, Projection and
-- Ownership resolve types through Types; Projection lays out what stands before a field or a payload
-- through Layout, with its entries.
--
-- Not modelled: the parser, generic instances, the coverage of patterns, the semantic analysis of
-- bodies, the LLVM emitter, the tables of diagnostics, loading files and the command line, and the
-- self-hosted compiler under compiler/.
pub mod Prelude
pub mod Core
pub mod Support
pub mod Kernel
pub mod Frontend
pub mod Checks
