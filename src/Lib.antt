-- ===== src/Lib.antt =====
-- Stockfish, a chess engine: its data model, positions and their moves, the generation and the
-- picking of moves, the transposition table, and the statistics and score conversions of the
-- search, as executable definitions with theorems about them.
--
-- The engine (src/engine) searches a tree of positions. A position is changed by making a move and
-- restored by taking it back; keys, sets of squares and counters are kept up to date on the way. A
-- worker of the search probes the transposition table with the key of a position, gets a copy of
-- an entry and a writer to a place, and writes what it found through the writer; between searches
-- the table ages, and it is resized and cleared over the allocator and the thread pool that the
-- host (src/engine/host.h) supplies. The moves it tries come from a picker, which generates them
-- in stages (captures first, then the rest) and orders them by history statistics, which the
-- worker updates with bonuses. Values that are mates or tablebase results are adjusted to the
-- distance from the root when they enter or leave the table.
--
-- The files and what they model:
--   Base           lists, integers, bits and machine words that the other files share
--   Basetypes      src/engine/basetypes.h, `mul_hi64` with both bodies
--   Types.Board    src/engine/types.h, colours, pieces, squares
--   Types.Moves    src/engine/types.h, `Move`
--   Types.Scores   src/engine/types.h, values, depths and bounds
--   Types.Castling src/engine/types.h, castling rights
--   Bitboard       src/engine/bitboard.h, sets of squares
--   Attacks        src/engine/attacks.h and attacks.cpp
--   Position.Placement   src/engine/position.h, the squares, sets and numbers of pieces: put_piece,
--                  remove_piece, move_piece, swap_piece
--   Position.State, Attackers, Keys, Castling, Making, Play   src/engine/position.h and position.cpp:
--                  StateInfo, Position, attackers_to, set_extra_bitboards, set_state, do_castling,
--                  do_move, undo_move, do_null_move, undo_null_move
--   Position.MoveTests, Exchange   src/engine/position.h and position.cpp: capture, capture_stage,
--                  gives_check, prefetch_key, is_repetition, has_repeated, see_ge
--   Position.Keys.FullKey  what the key of a position is meant to be
--   MoveGen        src/engine/movegen.h and movegen.cpp: Pawns, Pieces (with the cache of the sliders'
--                  attacks) and Generating (generate_all, generate, generate_cached, generate<ALL>);
--                  MoveGen.Legality is `Position::legal` of position.cpp
--   MovePicker     src/engine/movepick.h and movepick.cpp: Sorting (sort_all,
--                  partial_insertion_sort), Scoring (score), Stages (the constructors, select,
--                  generate_stage, walk_lists, next_move, skip_quiet_moves), AtPosition
--                  (gen_and_score)
--   Fen            src/engine/position.cpp, the first two fields of a FEN string: `Position::set` and
--                  `Position::fen`
--   Notation       src/engine/position.cpp and src/shell/uci.cpp, the texts of squares and moves:
--                  square_name, move_to_uci, to_lower, to_move
--   Transposition.Entry  src/engine/tt.cpp, `TTEntry`: read, save, relative_age, penalize
--   Transposition.Table  src/engine/tt.cpp, `TranspositionTable`: probe, new_search, hashfull, and
--                  `TTWriter`
--   Transposition.Host   src/engine/tt.cpp, `resize` and `clear`
--   History        src/engine/history.h, `StatsEntry`, `shared_slice`, `DynStats::clear_range`
--   Search.TableValues   src/engine/search.cpp, `value_to_tt`, `value_from_tt`
--
-- A module that stands below another one and names no code (Transposition.Table.Probing) holds
-- theorems about the definitions of its parent. Modules called Tests hold instances at concrete
-- values.
--
-- State is passed explicitly: an operation takes the table and returns the new one. Numbers are
-- natural numbers, with the reduction modulo 2^w written out where the code computes in w bits;
-- signed numbers are integers, reduced where they are stored in fewer bits. A pointer to an entry
-- is the index of its cluster and its place in it. Loops are structural recursion on the list they
-- walk, so no fuel is needed there; a ray of attacks has at most seven steps and gets eight, and a
-- set of squares has at most 64, and an exchange takes a piece off in each turn but its last. The
-- members of `Position` that describe the squares are the record `Placement`, its arrays are
-- functions of the index, and what a generator writes at its cursor is the list that it returns.
-- The cache of the sliders' attacks is such an array too, without the code's end at 16 slots;
-- MoveGen.Caching.Fitting is about that bound, where the side to move has at most 16 pieces, as
-- `pos_is_ok` asserts. The picker works on an array of moves with indexes for its pointers; the
-- lists that it generates are a `Node`, and `node_at` makes this of a position and the history
-- tables, which are an argument. A walk over a range of the array is recursion on the number of
-- slots that are left. The chain of `previous` states is a list. The allocator and the order in
-- which the thread pool runs its jobs are parameters (`Transposition.Host.Host`), with what the
-- engine relies on as `IsHost`.
--
-- Not modelled: the vector bodies of the move writers and of the sorter, which other builds use in
-- place of those modelled; how the history tables are stored; the fields of a FEN string after the
-- side to move; the lists of changes that `do_move` writes for the evaluation network, the network
-- and its vector code, the platform layer (threads, memory, NUMA, shared memory), the shell's
-- input and output, and src/incbin, which is vendored. An entry of the table is read and written
-- as a whole here; the code's relaxed accesses to its fields by several threads at once are not
-- modelled.
pub mod Attacks
pub mod Base
pub mod Basetypes
pub mod Bitboard
pub mod Fen
pub mod History
pub mod MoveGen
pub mod MovePicker
pub mod Notation
pub mod Position
pub mod Search
pub mod Transposition
pub mod Types
