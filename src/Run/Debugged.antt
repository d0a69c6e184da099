-- ===== src/Run/Debugged.antt =====
-- From the program to the debugger's panel: record/run.c and record/memcache.c record what
-- examine/vars.c shows.
mod Tests
use mathlib.Core.Path.{ap₂}
use flightrec.Prelude.{
  ℕ, zero, suc, ◌+◌, ◌-◌, ◌*◌, ◌%◌, ◌≤◌, ◌<◌, ◌≡◌, ◌≢◌, refl, ◌∙◌, ap, List, [], ◌∷◌, ◌++◌, true,
  some, get_elem?, length,
}
use flightrec.Query.{In}
use flightrec.Memory.{Memory, MemMsg, segment, bytes}
use flightrec.Memdiff.{Cpu, best_memdiff}
use flightrec.Memdiff.Ranges.{IsBytes}
use flightrec.VarValue.{get_var_value}
use flightrec.Lookup.{CachedLine, CachedUnit, word, sub64}
use flightrec.Lookup.Units.{IsCache}
use flightrec.Memcache.{Region}
use flightrec.Memcache.Follows.{Follows}
use flightrec.Memcache.History.{Reported, IsComplete}
use flightrec.Run.{Stop, Recorder, peek, process_breakpoint, func_flag_start}
use flightrec.Run.Shown.{dirty_pages, stop_shows_memory}
use flightrec.Variables.{
  TypeRow, View, get_type_size, read_value, tkind, tkind_unsigned, unsigned_of, number, is_word,
}
use flightrec.Variables.Item.{Request, Answer, done, plain}
use flightrec.Variables.Entry.{add_var_entry}
use flightrec.Variables.Entry.Numbers.{unsigned_read}

-- The number that is read from the bytes at an address is the one that the processor has there.
unsigned_of-bytes :
    (img : Memory) (rest : List ℕ) (p n : ℕ) → unsigned_of n (bytes img p n ++ rest) ≡ peek img p n
unfolding unsigned_of bytes peek
unsigned_of-bytes img rest p zero = refl
unsigned_of-bytes img rest p (suc n) =
    ap (λ k. img p + 256 * k) (unsigned_of-bytes img rest (p + 1) n)

module _ (cpu : Cpu) (units : List CachedUnit) (c : IsCache units) (i j : ℕ) (u : CachedUnit)
    (line : CachedLine) (base : ℕ) (here : get_elem? units i ≡ some u)
    (present : get_elem? u.lines j ≡ some line) (stop : Stop)
    (address : sub64 (stop.ip - 1) base ≡ line.address) (r : Recorder)
    (inside : r.unit < length units) (count : r.step_id + 1 < word) (cb : IsBytes stop.child)
    (bb : IsBytes stop.buffer) (rows : List MemMsg) (f : Follows r.step_id r.cache rows)
    (regs : stop.regs_ok ≡ true) (inner : line.func_flag ≢ func_flag_start)
    (dirty : r.mem_dirty ≡ true) (reported : Reported stop.child r.cache (dirty_pages stop r))
    (complete : IsComplete (dirty_pages stop r)) (region : Region) (m : In region r.cache)
    (code : Memory) where
  abbrev pub sent : List MemMsg
  sent = (process_breakpoint (best_memdiff cpu segment) units base stop r code).messages.mems

  -- At a stop in the cache of statements that is not the first of a function, if the registers can
  -- be read, memory is dirty, the rows follow the cache, and the addresses that wait hold all pages
  -- on which the cache differs from the program's memory, each of which is read as a whole, then
  -- for a variable in a region, whose type, found under its own name, is unsigned, of 2, 4 or 8
  -- bytes and without indirections, a debugger that looks at this step, with the rows and those
  -- that the stop sends as its table, and whose query of the value succeeds, adds one item, with
  -- the variable's name and the number that the program has there, and no reference.
  pub stop_shows_number :
      (fuel : ℕ) (v : View) (q : Request) (answer : Answer) (row : TypeRow)
      → v.mem ≡ rows ++ sent
      → v.step ≡ r.step_id + 1
      → v.mem_ok ≡ true
      → v.mem_end ≡ true
      → get_type_size v q.type ≡ some row
      → q.indirect ≡ 0
      → tkind row.flags ≡ tkind_unsigned
      → is_word row.size ≡ true
      → region.start ≤ q.address
      → q.address + row.size ≤ region.end
      → add_var_entry fuel v q answer ≡ (
        record {
          items =
              answer.items
              ++ (plain q.key.child (number (peek stop.child q.address row.size)) ∷ []);
          refs = answer.refs;
        },
        done,
      )
  stop_shows_number fuel v q answer row table now opened ended known direct kind w low high =
      unsigned_read fuel v q answer row known direct
        (bytes stop.child q.address row.size ++ (0 ∷ [])) reads kind w
      ∙ ap
          (λ n. (
            record {
              items = answer.items ++ (plain q.key.child (number n) ∷ []);
              refs = answer.refs;
            },
            done,
          ))
          (unsigned_of-bytes stop.child (0 ∷ []) q.address row.size)
    where
      reads :
          read_value v q.address row.size ≡ some (bytes stop.child q.address row.size ++ (0 ∷ []))
      reads =
          ap₂ (λ o e. get_var_value o e v.mem q.address row.size v.step) opened ended
          ∙ ap₂ (λ l n. get_var_value true true l q.address row.size n) table now
          ∙ stop_shows_memory cpu units c i j u line base here present stop address r inside count
              cb bb rows f regs inner dirty reported complete region q.address row.size m low high
              code
