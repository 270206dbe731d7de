-- ===== src/Lib.antt =====
-- Verification of the slop compiler, stage 0: the C front end under src/. A source file goes
-- through the lexer (src/lexer) and the parser; the checker (src/sema) resolves types and names
-- over the tree, and the backends emit code from an IR. All of them stand on src/support.
--
-- What models what:
--   Support.StrView  src/support/strview.c   slices and their comparisons
--   Support.Map      src/support/map.c       the hash map: Map.Linear, Map.Probe, Map.Insert,
--                                            Map.Grow and Map.Put hold its proofs
--   Support.Vec      src/support/vec.c       the growable array
--   Support.Arena    src/support/arena.c     the bump allocator, by addresses
--   Support.Diag     src/support/diag.c      error counting and the cutoff
--   Lexer            src/lexer/lexer.c, .h   Kind and State hold the data, Literal and Next the
--                                            operations; the other modules prove
--   Sema.Types       src/sema/types.c        the type table: Types.Kind, Types.Spell hold data and
--                                            rendering; Types.Intern, Canonical, Truncate, Rendered
--                                            and Core prove
--   Sema.Scope       src/sema/scope.c        the scopes and global namespaces
--   Ast              src/ast/ast.h           the tree: types, expressions, statements and items
--   Parser           src/parser/parser.c     State, Recover, Types, Exprs, Stmts and Items hold the
--                                            code; Runs and Rules say what a step keeps, Total
--                                            says it of each function, Contract and Bounds of the
--                                            whole; Starts is about the recovery; Spelling and
--                                            Spelled read types back, by the steps of Takes
--   Sema.Convert     src/sema/sema.c         implicit conversions and casts; Convert.Widen proves
--   Sema.Diverge     src/sema/sema.c         which statements fall through; Diverge.Falls proves
--   Sema.Check       src/sema/sema.c         the rest of the checker: State and Tree hold the state
--                                            and the annotated tree; Collect, Layout, Coerce, Ops,
--                                            Exprs, Stmts and Program hold the code; Ready and
--                                            Rules say what a step keeps, Total says it of each
--                                            function, Contract and Start of the whole
--   Ir               src/ir/ir.c, .h         Types, Data, Names, Module, Builder and Verify hold
--                                            the code; WellFormed, Slot, Operands, Accepts,
--                                            Strings, Aligned and Same prove
--   Base                                     numbers, lists, Boolean tests and bits
-- A definition has the name of the C function, type or constant it models. A helper with another
-- name is a loop or a tail of the function that calls it.
--
-- State is passed explicitly: an operation takes the state and gives the new one with its answer.
-- A pointer into the source is the text that is left; a pointer to a record of the type table is
-- its number on a heap; an address of the arena is a block with an offset; NULL is `none`.
-- Unsigned words wrap where the C wraps. Reads out of bounds do not occur under the invariants.
--
-- Bounds and fuel: a source is shorter than 2 GiB, so that its lengths fit `int32_t`; a map has at
-- most 2^30 slots and an array 2^32, below which doubling does not wrap; a block of the arena has
-- at most 2^62 bytes. The token loop has one round of fuel for each byte and one more, a string
-- literal likewise, a probe one for each slot, and a type's name one for each record. Each loop and
-- each recursion of the parser has one round for each token that is left. All of it is proved
-- enough. A layout has one round for each record of the type table, and the check of an expression
-- one for each level of its tree. That is proved enough in the good states of Sema.Check.Ready,
-- among them the one that the check starts in.
--
-- Of the IR, a type is a tree, and the builder keeps the blocks of the function in hand.
--
-- Not modelled: running out of memory, which exits; the payload of the arena and the lexer's pool,
-- whose contents are values here; the wording of messages. The text that `snprintf` gives for a
-- number is a parameter, and a float token keeps the text that `strtod` is given. `ir_const_signed`
-- and the spelling tables of the IR, the dump of the tree, the lowering, the backends, the driver
-- and the self-hosted compiler are not modelled.
mod Base
pub mod Support
pub mod Lexer
pub mod Ast
pub mod Parser
pub mod Ir
pub mod Sema
