-- ===== src/Lib.antt =====
-- Models of programs of the book's listings. The first is the compiler of
-- Rust-Architect-Book/listings/part-17/ch01-01-pipeline.rs: a language of integers, Booleans, variables,
-- loops and branches, from source text to a stack machine.
--
-- The compiler is one file of six stages and a driver, each of which hands its result to the next:
-- - `Tok`, `Token`, `Expr`, `Stmt`, `Program`, `CompileError` and `fail` are the data of
--   Pipeline/Syntax; Pipeline/Outcome has postconditions on the outcome of a stage.
-- - `lex`: Pipeline/Lexer. Defs is the code, Spelling says what it means for tokens to spell a text,
--   and Sound has the proofs. A text is the list of its bytes.
-- - `Parser` and `binop_of`: Pipeline/Parser. Defs is the code, Grammar the derivations of the
--   language, with its own table of levels; Tokens, Exprs, Took, Statements and Programs hold the
--   proofs about single tokens,
--   expressions, the parts of statements, statements and programs; Source is about `lex` and the
--   parser in a row. The parser's state is the list of the tokens from `self.at` on.
-- - `Resolver`: Pipeline/Resolver. Defs is the code; Invariant and Statements hold the proofs.
-- - `Checker`: Pipeline/Checker. Defs is the code, Rules the typing rules; Sound,
--   Statements and Ends hold the proofs.
-- - `Lowerer`: Pipeline/Lowerer. Defs is the code with its patching of placeholders, Layout the same
--   code with the targets in place, and Patch the proofs.
-- - `run`: Pipeline/Vm. Defs has the match of one round and the loop; Steps and Stable
--   hold lemmas on runs. Base/Word has the arithmetic of `i64`, with its panics for a divisor of zero.
-- - `compile`: Pipeline/Driver. Defs is the code; Agrees and Correct hold the proofs
--   about what a run does, and Total that it ends.
-- Pipeline/Meaning is a reference semantics, which the source does not have: Defs is an evaluator
-- over trees with its own table of operators, which Operators compares with that of the machine; Goes
-- relates its answers to runs of the machine, Exprs and Statements follow the code of
-- expressions and statements, and Safe is about where the evaluator can get stuck. Pipeline/Tests runs
-- two programs of `main`, and Pipeline/Examples applies the theorems to concrete programs. Base holds
-- the shared helpers: Boolean tests, lists over the native numbers, maps and words.
--
-- Beside it stands the interner of Rust-Architect-Book/listings/part-17/ch04-02-interner.rs:
-- - `Symbol` and `Interner`: Interner/Defs is the code, RoundTrip has the proofs, and Examples applies
--   them. A symbol is a number below 2 ^ 32; the `u32` of an index wraps around, and the theorems ask
--   for room. The counting allocator and the timings of its `main` are not modelled.
--
-- The key-value server of Rust-Architect-Book/listings/part-13/project-05-ferrite-v2.rs is in Ferrite:
-- - `mod store`: Store/Contract is the trait `KvStore` with its laws, Store/Defs is `ShardedStore`;
--   Shards, Refines and Behaves hold the proofs. The lock of a shard is held from the start of a call to
--   its end, so a call is one step on the store; a lock is the flag of its poison. `len` and `shard_lens`
--   are modelled with no other call between their locks. The keyed hash is a parameter.
-- - `mod protocol`: Protocol/Defs is the code over any store that keeps the contract; Words, Parse,
--   RoundTrip, Refines and Lines hold the proofs. A text is the list of its bytes, and the ranges of
--   `is_utf8` are those of the standard library.
-- - `mod codec`: Codec/Defs is `LineCodec`, Split the lines of a text byte by byte; Decode and Feed hold
--   the proofs, Feed about a reader that drives `decode` as a framed reader does. The crate `memchr` is a
--   parameter with the laws of its documentation; the reader's fuel is one more than the bytes of its
--   buffer, since a line takes a byte at least.
-- - `mod server`: Server/Defs is `serve`, turn by turn, over what `select` and the timeouts give it, with
--   `FramedWrite` as a parameter; Serve and Counters hold the proofs. Server/Limit is `run`, a step
--   relation on the free permits and the numbers of tasks in each state; Bounded and Drain hold the
--   proofs. A counter is a number without a bound.
-- Ferrite/Concrete instantiates the parameters, and Ferrite/Examples applies the theorems.
--
-- The HTTP server of Rust-Architect-Book/listings/part-11/project-03-http-server.rs is in Http:
-- - `mod pool`: Pool/Defs is `WorkerPool` with `try_submit`, `close_and_join` and `worker_loop`, a step
--   relation on the queue and on the numbers of workers that are awake, asleep, at an item, or returned.
--   What a thread does under the lock is one step, a notification another; a sleeper can wake up for no
--   reason. Invariant, Reached and Drain hold the proofs.
-- - `mod http`: Message/Defs has the data and the texts, Message/Read `read_line` and `read_request`;
--   Limits, Whole and RoundTrip hold the proofs. A connection is the bytes that come and what a read
--   gets behind
--   them. The loop over the headers counts down the headers that may still come, so it needs no fuel.
--   The limit of a line is a number of 64 bits, and one more than the largest wraps around, as it does in a
--   build without overflow checks; the theorem on a whole request asks for a smaller limit.
-- - `mod app` and `handle_connection`: Server/Defs, with the proofs in Connection. A panic of the handler
--   is a value, and whether a write succeeds is a function of its number.
-- Http/Examples applies the theorems.
--
-- The back end of Rust-Architect-Book/listings/part-17/ch08-01-regalloc.rs is in Regalloc:
-- - `Opnd`, `Tac`, `apply` and `interpret`: Code/Defs. The place in the code and the values of the
--   registers are the state of one loop, `run`, which the emulator is too.
-- - `uses_defs` and `liveness`: Live/Defs. Sets has lemmas on sorted lists, Reads what instructions
--   read, define and go on to, apart from the code, and Solved and Equations what a result means;
--   Ascending, Grows, Tame, Ends and Total are about the end of the loop: the sets only grow, and
--   have a bound, so that a round for each member that they can have, and one more, are enough.
-- - `intervals` and `linear_scan`: Scan/Defs. Members has lemmas on its lists; Fair is what
--   holds while the scan runs, Assign and Spill the two ways to place an interval, and Sound the
--   whole; Spans and Covers are about the intervals.
-- - `place`, `select`, `read`, `write` and `emulate`: Select/Defs. Texts, Layout, Chunks and Jumps are
--   about the lines of one instruction, Alive about what memory holds, and Assigned and Simulates
--   about the emulator beside the interpreter. A line of assembly is its mnemonic and its operands, and
--   each form of the texts that `place` prints is a constructor, the registers by their numbers.
--   The offset of an argument is a `u32` that panics where it overflows; that of a slot is a `usize`, which
--   as many slots as there are registers of 32 bits cannot make overflow.
-- - `program` and `main`: Driver/Defs, without what is printed. Sound is about the passes in a row, and
--   Verified about the comparison with the interpreter.
-- A virtual register, an index, a slot and `mem_ops` are numbers without a bound.
-- A hash map is a function from its keys, except for the intervals, which are a list. A sort is by
-- insertion. The analysis, the interpreter and the emulator have bounds on their rounds, which
-- the program does not have; the results about them name them. Regalloc/Examples applies the theorems.
--
-- An `i64` is its bit pattern, a number below 2 ^ 64; a position and a slot are numbers without a
-- bound. Outside Regalloc a `HashMap` is a list of pairs whose newest pair comes first, which hides
-- the older ones of
-- its key. An outcome is a value, an error, a panic (an index out of range, an `unwrap` or `expect` of
-- nothing, `unreachable`), or the end of the fuel, which the program does not have. A text that the
-- program formats is a constructor of `Message`; the one for an unexpected character holds its first
-- byte. The lexer has a unit of fuel for each byte and one more, the parser eight for each token and
-- ten more: a round of the lexer takes a byte at least, and the parser makes at most eight calls from
-- one token to the next. The machine's loop has a bound on its rounds, a parameter of every statement,
-- since a program need not end.
--
-- Not modelled: what `compile` prints when `verbose` is set, `sexpr`, `print_stmts` and `main`, which
-- write to standard output; the depth of the native stack; `steps` and `pc` as machine integers. Of
-- Ferrite: sockets, `bind`, `linger`, the client, its tests and `main`. Of Http: sockets,
-- the accept loop, the clients and `main`. Of Regalloc: what `main` prints. The other listings of the book
-- are not modelled.
pub mod Base
pub mod Ferrite
pub mod Http
pub mod Interner
pub mod Pipeline
pub mod Regalloc
