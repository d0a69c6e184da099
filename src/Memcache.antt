-- ===== src/Memcache.antt =====
-- record/memcache.c: the copy of the recorded program's memory, and how it follows the program.
-- The pages of a region are indexed by the program's own addresses, so a pointer `pages + i` of
-- the code is the address `start + i`. The messages that `ch_write` queues for the worker come out
-- as a list. Each call of `process_vm_readv` is described by the number of bytes that it reads.
pub mod Regions
pub mod Loop
pub mod Page
pub mod Follows
pub mod History
pub mod Values
pub mod Added
pub mod Start
pub mod Samples
mod Tests
use flightrec.Prelude.{
  ℕ, zero, suc, ◌+◌, ◌-◌, ◌*◌, ◌/◌, List, [], ◌∷◌, ◌++◌, Bool, true, false, Option, none, some, ltb,
  leb, ◌==◌, if◌then◌else◌, get_elem?, length, set, ◌&&◌,
}
use flightrec.Bisect.{Side, lower, upper, inside, Hit, at, bisect}
use flightrec.Memory.{Memory, MemMsg, segment, page_size, bytes}
use flightrec.Memdiff.{Buffer, advance}

-- `struct region`.
pub record Region : Type 0 where
  pub start : ℕ
  pub end : ℕ
  pub pages : Memory

abbrev pub side : ℕ → Region → Side
side address r = if ltb address r.start then lower else if leb r.end address then upper else inside

-- The index of the region and the address of the page. `none` is the returned 0. A region has
-- fewer than 2^31 pages, so the `int` of the page's number does not wrap.
unfoldable pub find_page : List Region → ℕ → Option (ℕ × ℕ)
unfolding bisect
find_page cache address = elim (bisect (side address) cache (suc (length cache)) 0 (length cache)) [
  | at index ↦ elim (get_elem? cache index) [
    | none ↦ none
    | some r ↦ some (index, r.start + (address - r.start) / page_size * page_size)
  ]
  | _ ↦ none
]

-- What `process_vm_readv` leaves in a buffer: the program's bytes as far as they were read.
abbrev pub after_read : ℕ → Memory → Memory → ℕ → Memory
after_read start child old count =
    λ i. if leb start i && ltb i (start + count) then child i else old i

-- `memcpy` of one segment.
abbrev pub copy_segment : ℕ → Memory → Memory → Memory
copy_segment address from to =
    λ i. if leb address i && ltb i (address + segment) then from i else to i

-- The function that `init_cache` puts into the pointer `memdiff`.
abbrev pub Compare : Type 0
Compare = Buffer → Buffer → ℕ → Option Bool

-- The loop over the segments of a page, `rounds` of which are left: the new copy, and the messages.
-- `none` means that a comparison ran out of fuel.
unfoldable pub segments : Compare → ℕ → Memory → ℕ → ℕ → Memory → Option (Memory × List MemMsg)
segments memdiff step buffer zero address cached = some (cached, [])
segments memdiff step buffer (suc rounds) address cached =
    elim (memdiff (advance address buffer) (advance address cached) segment) [
      | none ↦ none
      | some false ↦ segments memdiff step buffer rounds (address + segment) cached
      | some true ↦
          elim (segments memdiff step buffer rounds (address + segment)
            (copy_segment address buffer cached)) [
              | none ↦ none
              | some (cached', msgs) ↦ some (
                cached',
                record { step_id = step; address = address; content = bytes buffer address segment }
                    ∷ msgs,
              )
            ]
    ]

-- `count` bytes are read, and the buffer held `old` before. A failed read has fewer bytes than a
-- segment.
unfoldable pub process_page :
    Compare → Memory → Memory → ℕ → ℕ → Memory → ℕ → Option (Memory × List MemMsg)
unfolding segments
process_page memdiff child old count address cached step =
    if ltb count segment
    then some (cached, [])
    else segments memdiff step (after_read address child old count) (page_size / segment) address
        cached

-- The messages of a new region, one for each of its segments.
unfoldable pub region_msgs : ℕ → Memory → ℕ → ℕ → List MemMsg
region_msgs step pages zero address = []
region_msgs step pages (suc rounds) address =
    record { step_id = step; address = address; content = bytes pages address segment }
    ∷ region_msgs step pages rounds (address + segment)

unfoldable pub insert_region : Region → List Region → List Region
insert_region new [] = new ∷ []
insert_region new (r ∷ cache) =
    if leb r.start new.start then r ∷ insert_region new cache else new ∷ r ∷ cache

-- The allocated pages hold `old` before `count` bytes are read; the last segment may be partial.
unfoldable pub cache_add_region :
    Memory → Memory → ℕ → List Region → ℕ → ℕ → ℕ → List Region × List MemMsg
unfolding region_msgs insert_region
cache_add_region child old count cache address size step =
    let pages = after_read address child old count in
    let cache' =
      insert_region (record { start = address; end = address + size; pages = pages }) cache in
    if ltb count size
    then (cache', [])
    else (cache', region_msgs step pages ((size + segment - 1) / segment) address)

abbrev pub with_pages : List Region → ℕ → Memory → List Region
with_pages cache index pages = elim (get_elem? cache index) [
  | none ↦ cache
  | some r ↦ set cache index (record r { pages = pages })
]

-- One dirty address. A page at the address 0 is left alone, since 0 also means that there is none.
unfoldable pub proc_dirty_page :
    Compare → Memory → Memory → ℕ → List Region → ℕ → ℕ → Option (List Region × List MemMsg)
unfolding find_page process_page
proc_dirty_page memdiff child old count cache address step = elim (find_page cache address) [
  | none ↦ some (cache, [])
  | some (index, page) ↦ elim (get_elem? cache index) [
    | none ↦ none
    | some r ↦
        if page == 0
        then some (cache, [])
        else elim (process_page memdiff child old count page r.pages step) [
          | none ↦ none
          | some (pages', msgs) ↦ some (with_pages cache index pages', msgs)
        ]
  ]
]

-- The loop of `proc_dirty_mem` over the addresses that wait in the channel, with the bytes that each
-- page's read gets.
unfoldable pub proc_dirty_mem :
    Compare → Memory → Memory → List Region → List (ℕ × ℕ) → ℕ → Option (List Region × List MemMsg)
unfolding proc_dirty_page
proc_dirty_mem memdiff child old cache [] step = some (cache, [])
proc_dirty_mem memdiff child old cache ((address, count) ∷ dirty) step =
    elim (proc_dirty_page memdiff child old count cache address step) [
      | none ↦ none
      | some (cache', msgs) ↦ elim (proc_dirty_mem memdiff child old cache' dirty step) [
        | none ↦ none
        | some (cache'', msgs') ↦ some (cache'', msgs ++ msgs')
      ]
    ]
