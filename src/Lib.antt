-- ===== src/Lib.antt =====
-- Flight recorder: a program is recorded step by step into a database, which a debugger then
-- examines in both directions.
--
-- The recorder (record/) runs the program under ptrace. At each statement it looks the address up
-- in its cache, and it passes what it sees (steps, heap operations, changed segments of memory) as
-- messages through channels to worker threads, which write them to the database. Memory is compared
-- with a copy of it, segment by segment. The examiner (examine/) answers a debugger's requests from
-- the database: it keeps a current position and moves it.
--
--   Prelude      numbers, tests and lists that all modules share
--   Memdiff      record/memdiff.c: memdiff8, memdiff16, memdiff32, memdiff64 and best_memdiff
--     Ranges, Lanes, Exact: buffers and lanes of vectors, and what the routines compute
--   Bisect       the binary search, a loop on two bounds, of the recorder's caches
--   Lookup       record/run.c: struct cached_line, struct cached_unit and lookup_cache
--     Lines, Units: the search for a line in a unit, and for the unit
--   Channel      record/channel.c: all functions, and the reading loop of record/db_workers.c
--     Fifo, Threads: the queue that a channel holds, and interleaved threads
--   Memory       memory as a function from addresses, and the message about one segment
--   Query        WHERE, ORDER BY and LIMIT over lists of rows
--     Append: rows of one list behind another
--   Session      examine/requests.c: process_next, process_stepin, process_stepout,
--                process_stepback, set_first_step and set_last_step
--     Continue, Breakpoints, Stack: process_continue and process_revcontinue,
--                process_breakpoints, process_stack, each with its loops
--     Moves, Stops, Recorded: where the requests go, and the invariant of the position
--   Memcache     record/memcache.c: find_page, process_page, cache_add_region, proc_dirty_mem
--     Regions, Loop, Page: the sorted array, the loop over the segments, and one page
--     Follows, History, Values, Added: the rows that follow the cache, what they show, new regions
--     Start: init_cache
--   Run          record/run.c: process_breakpoint, with a function for each of its parts
--     Code, Events: set_breakpoints, and bpf_callback
--     Traps, Code.Planting: the traps in the program's code
--     Frames, Stops, Depth: what a stop records, and the depth of the calls
--     Debugged: the number that the panel shows
--     Mapped, Timeline, Shown, Signals: new regions, stops and events in any order, and what the
--                debugger reads of them
--   Workers      record/db_workers.c: wrk_insert_step, wrk_insert_heap and wrk_insert_mem
--     Exact: what the workers write, and when they fail
--   Dab          dab/dab.c: the binding and the fetching, dab_exec, dab_cursor_open, transactions
--     RoundTrip: what is bound is fetched again
--   ResetDirty   record/reset_dirty.c: all functions, as steps of the recorder and of the thread
--   VarValue     examine/vars.c: get_var_value
--     Select, Chunks, Exact: the selected rows, their assembly, and what comes out
--   Heap         record/db_workers.c: the statements of wrk_insert_heap, and examine/vars.c:
--                get_pointer_size
--     Rows, Life, Status: how the row of an address changes, the life of its memory, and both together
--   References   examine/vars.c: get_var_ref
--     Stable: the references that were given stay
--   Variables    examine/vars.c: get_type_size, func_name, and the texts of numbers
--     Item, Blocks, Entry: add_var_entry, with its request and answer, its branches for pointers and
--                arrays, and a function for each other kind of type
--       Alias, Numbers, Strings, Failure: the loop over aliases, what is shown of numbers and of
--                arrays of characters, and values that cannot be read
--     Items      add_var_items and add_var_fields
--       Exact, Expand: which items are shown, and what the reference of a structure leads to
--     Location   get_location, get_var_address and add_var
--       Select: the entry of a location list that is taken, and the variables of a function
--     Scopes     examine/requests.c: process_scopes and process_variables
--       Frames: which variables are shown of a frame
--   Symbols      record/dbginfo.c: proc_symbols, proc_func, proc_block and proc_var, over a tree of
--                entries with the answers of libdwarf
--     Entry, Forest: what libdwarf answers, the rows, and scopes as a tree
--     Tree, Collect, Ancestors: the tree that is collected, and scope_ancestor of record/db.c
--   Expr         examine/expressions/expression.c: the tree and the binary operators
--     Evaluate   evaluate_node, with a function for each kind of node
--     Logic, Access: numbers and conditions, and the checks on items
--     Value      var_value; Stored: the value of a variable is what is stored in it
--     Cache: query_expr_cache and update_expr_cache, the table of parsed expressions
--   Stingray     stingray/stingray.c: sr_new, sr_ensure_size, sr_copy and sr_cat
--     Content: what the strings hold
--
-- State is passed explicitly: the static variables of a function and the current position are
-- arguments and results. A call of the operating system or of the database that can fail is a
-- Boolean parameter, so that both branches are there. SQL is written out over lists of rows.
-- File and function names are numbers, which stand for the strings.
--
-- Bounds and fuel: addresses are 64 bits wide, and the sums and products of lookup_cache wrap.
-- The loops of memdiff have the size as fuel; each pass takes at least one byte. The searches have
-- as fuel one more than the number of entries; each pass shrinks the range. The loop over a channel
-- has one more than the number of messages. The loop over aliases has any fuel above a number that
-- decreases along them. A model that runs out of fuel says so in its result, and the theorems show
-- that it does not happen. The chain of the scopes around a scope ends when its fuel does, which is
-- the number of scopes, and so is more than the depth of any scope in a tree.
--
-- Not modelled: the reading of units, lines, types and attributes of DWARF data (record/dbginfo.c),
-- the rest of the schema (record/db.c), the opening and closing of a database (dab/dab.c), the main
-- loop of the recorder, the kernel probe and the preloaded library (record/run.c, record/bpf.c,
-- record/preload.c), sockets, JSON and options, the editor extension, and the test tool, which
-- mostly call system interfaces. The printing of values into dynamic strings (stingray/) is not
-- modelled either. The doubles of an expression are their 64 bits, and the processor's operations
-- on them, with what the evaluation asks of the database, a parameter.
pub mod Prelude
pub mod Memdiff
pub mod Bisect
pub mod Lookup
pub mod Channel
pub mod Memory
pub mod Memcache
pub mod Run
pub mod ResetDirty
pub mod Stingray
pub mod References
pub mod Symbols
pub mod Variables
pub mod Query
pub mod Session
pub mod VarValue
pub mod Workers
pub mod Dab
pub mod Expr
pub mod Heap
