-- ===== src/Memcache/Start.antt =====
-- record/memcache.c: `init_cache`, which takes the first regions from /proc/<pid>/maps. The fields
-- into which `strtok_r` cuts a line, and the two numbers that `sscanf` finds in the first, are given.
use flightrec.Prelude.{
  ℕ, ◌+◌, ◌-◌, ◌%◌, ◌≤◌, ◌<◌, ◌≡◌, ◌⊎◌, inl, inr, sym, ap, List, [], ◌∷◌, ◌++◌, Bool, true, false,
  not, ◌&&◌, ◌||◌, Option, none, some, ◌==◌, if◌then◌else◌, if_true, if_false, get_elem?, arith,
  Bool-cases, Option-cases,
}
use mathlib.Core.Path.{subst}
use mathlib.Core.List.{append_assoc}
use flightrec.Query.{In}
use flightrec.Memory.{Memory, MemMsg, page_size}
use flightrec.Memdiff.Ranges.{IsBytes}
use flightrec.Memcache.{Region, cache_add_region}
use flightrec.Memcache.Follows.{Follows, later-Follows}
use flightrec.Memcache.Added.{cache_add_region-Follows}

-- A line of the file, with how many bytes a read of its memory gets.
pub record MapLine : Type 0 where
  pub fields : List (List ℕ)
  pub range : Option (ℕ × ℕ)
  pub count : ℕ

-- `strcmp` finds two strings equal.
unfoldable pub same_text : List ℕ → List ℕ → Bool
same_text [] [] = true
same_text (a ∷ x) (b ∷ y) = let rest = same_text x y in (a == b) && rest
same_text _ _ = false

-- "[heap]" and "[stack]".
abbrev pub heap_name : List ℕ
heap_name = 91 ∷ 104 ∷ 101 ∷ 97 ∷ 112 ∷ 93 ∷ []

abbrev pub stack_name : List ℕ
stack_name = 91 ∷ 115 ∷ 116 ∷ 97 ∷ 99 ∷ 107 ∷ 93 ∷ []

-- The second field begins with 'r'.
abbrev pub is_readable : MapLine → Bool
is_readable line = elim (get_elem? line.fields 1) [ some (c ∷ _) ↦ c == 114 | _ ↦ false ]

-- There is no sixth field, or it is one of the names.
unfoldable pub is_followed : List ℕ → MapLine → Bool
unfolding same_text
is_followed exe_name line = elim (get_elem? line.fields 5) [
  | none ↦ true
  | some name ↦ same_text name heap_name || (same_text name stack_name || same_text name exe_name)
]

-- The loop over the lines.
unfoldable pub add_lines :
    Memory → Memory → List ℕ → List MapLine → List Region → List Region × List MemMsg
unfolding is_followed cache_add_region
add_lines child old exe_name [] cache = (cache, [])
add_lines child old exe_name (line ∷ lines) cache =
    if is_readable line && is_followed exe_name line
    then elim (line.range) [
      | none ↦ add_lines child old exe_name lines cache
      | some (head, tail) ↦
          let added = cache_add_region child old line.count cache head (tail - head) 1 in
          let rest = add_lines child old exe_name lines (added.0) in (rest.0, added.1 ++ rest.1)
    ]
    else add_lines child old exe_name lines cache

-- `link_ok` and `maps_ok` say whether the name of the program can be read, and its maps opened.
-- SUCCESS or FAILURE, the cache, and the messages.
unfoldable pub init_cache :
    Bool → Bool → Memory → Memory → List ℕ → List MapLine → Bool × List Region × List MemMsg
unfolding add_lines
init_cache link_ok maps_ok child old exe_name lines =
    if not (link_ok && maps_ok) then (false, [], []) else (
      true,
      (add_lines child old exe_name lines []).0,
      (add_lines child old exe_name lines []).1,
    )

-- A range of whole pages, away from 0 and from the regions that there are, that is read as a whole.
pub record RangeFits (count head tail : ℕ) (cache : List Region) : Type 0 where
  pub first : head % page_size ≡ 0
  pub whole : (tail - head) % page_size ≡ 0
  pub some_page : 0 < tail - head
  pub mapped : 0 < head
  pub apart : (r : Region) → In r cache → (r.end ≤ head) ⊎ (head + (tail - head) ≤ r.start)
  pub all : tail - head ≤ count

module _ (child old : Memory) (cb : IsBytes child) (ob : IsBytes old) (exe_name : List ℕ) where
  -- The ranges of the lines that are followed fit, each when its turn comes.
  abbrev pub LinesFit : List MapLine → List Region → Type 0
  LinesFit [] cache = Unit {0}
  LinesFit (line ∷ lines) cache =
      ((head tail : ℕ)
        → (is_readable line && is_followed exe_name line) ≡ true
        → line.range ≡ some (head, tail)
        → RangeFits line.count head tail cache
          × LinesFit lines (cache_add_region child old line.count cache head (tail - head) 1).0)
      × (((is_readable line && is_followed exe_name line) ≡ false) ⊎ (line.range ≡ none)
          → LinesFit lines cache)

  add_lines-Follows :
      (lines : List MapLine) (cache : List Region) (rows : List MemMsg)
      → LinesFit lines cache
      → Follows 1 cache rows
      → Follows 1
          (add_lines child old exe_name lines cache).0
          (rows ++ (add_lines child old exe_name lines cache).1)
  unfolding add_lines
  add_lines-Follows [] cache rows fits f = later-Follows 1 1 cache rows (omega arith) f
  add_lines-Follows (line ∷ lines) cache rows (fit, skip) f =
      elim (Bool-cases (is_readable line && is_followed exe_name line)) [
        | inr other ↦
            subst (λ (o : List Region × List MemMsg). Follows 1 o.0 (rows ++ o.1))
              (sym (if_false _ _ other)) (add_lines-Follows lines cache rows (skip (inl other)) f)
        | inl followed ↦
            subst (λ (o : List Region × List MemMsg). Follows 1 o.0 (rows ++ o.1))
              (sym (if_true _ _ followed))
              (elim (Option-cases (line.range)) [
                | inl unread ↦
                    subst (λ (o : List Region × List MemMsg). Follows 1 o.0 (rows ++ o.1))
                      (sym (ap at_range unread))
                      (add_lines-Follows lines cache rows (skip (inr unread)) f)
                | inr ((head, tail), read) ↦
                    let (r, rest) = fit head tail followed read in
                    let g =
                      cache_add_region-Follows child old cb ob 1 1 (omega arith) cache rows f head
                        (tail - head) line.count r.first r.whole r.some_page r.mapped r.apart
                        r.all in
                    let added = cache_add_region child old line.count cache head (tail - head) 1 in
                    let h = add_lines-Follows lines (added.0) (rows ++ added.1) rest g in
                    subst (λ (o : List Region × List MemMsg). Follows 1 o.0 (rows ++ o.1))
                      (sym (ap at_range read))
                      (subst (λ l. Follows 1 (add_lines child old exe_name lines (added.0)).0 l)
                        (append_assoc rows (added.1)
                          (add_lines child old exe_name lines (added.0)).1)
                        h)
              ])
      ]
    where
      at_range : Option (ℕ × ℕ) → List Region × List MemMsg
      at_range o = elim o [
        | none ↦ add_lines child old exe_name lines cache
        | some (head, tail) ↦
            let added = cache_add_region child old line.count cache head (tail - head) 1 in
            let rest = add_lines child old exe_name lines (added.0) in (rest.0, added.1 ++ rest.1)
      ]

  -- If the ranges of all lines that are followed are whole pages, away from 0 and from the regions of
  -- the lines before, and are read as a whole, then, also where `init_cache` fails, its messages
  -- follow the cache at the first step.
  pub init_cache-Follows :
      (link_ok maps_ok : Bool) (lines : List MapLine)
      → LinesFit lines []
      → Follows 1
          (init_cache link_ok maps_ok child old exe_name lines).1
          (init_cache link_ok maps_ok child old exe_name lines).2
  unfolding init_cache
  init_cache-Follows link_ok maps_ok lines fits = elim (Bool-cases (not (link_ok && maps_ok))) [
    | inl bad ↦
        subst (λ (o : Bool × List Region × List MemMsg). Follows 1 o.1 o.2) (sym (if_true _ _ bad))
          nothing
    | inr good ↦
        subst (λ (o : Bool × List Region × List MemMsg). Follows 1 o.1 o.2)
          (sym (if_false _ _ good)) (add_lines-Follows lines [] [] fits nothing)
  ]
    where
      nothing : Follows 1 [] []
      nothing = record {
        sorted = tt;
        aligned = λ m i. elim i [ ];
        past = λ m i. elim i [ ];
        shows = λ r m. elim m [ ];
      }
