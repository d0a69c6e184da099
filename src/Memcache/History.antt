-- ===== src/Memcache/History.antt =====
-- Processing dirty memory: the recorded rows follow the cache, and show the program's own memory
-- where all that changed was reported as dirty; what was recorded before stays as it is.
use mathlib.Core.Path.{subst}
use flightrec.Prelude.{
  ℕ, ◌+◌, ◌-◌, ◌/◌, ◌%◌, ◌≤◌, ◌<◌, ◌≡◌, ◌≢◌, ◌⊎◌, inl, inr, refl, sym, ◌∙◌, ap, List, [], ◌∷◌, ◌++◌,
  Option, none, some, get_elem?, get_elem?-lt, get_elem?-set_self, get_elem?-set_ne, set, arith,
  dec_lt, ℕ_discrete, test_ne,
}
use mathlib.Core.List.{append_assoc}
use flightrec.Query.{In}
use flightrec.Query.Append.{get_elem?-In, In-get_elem?, In-append}
use flightrec.Memory.{Memory, MemMsg, page_size}
use flightrec.Memdiff.Ranges.{IsBytes}
use flightrec.Memcache.{Region, Compare, find_page, proc_dirty_page, proc_dirty_mem, with_pages}
use flightrec.Memcache.Regions.{IsCache, In-IsRegion, find_page_finds}
use flightrec.Memcache.Loop.{IsExact}
use flightrec.Memcache.Page.{process_page_lem, find_page_cases}
use flightrec.Memcache.Follows.{later-Follows, Follows, with_pages-Follows, set-cases}

-- An address whose page is in the list.
abbrev pub Waits : List (ℕ × ℕ) → ℕ → Type 0
Waits dirty i = (d : ℕ × ℕ) × In d dirty × (d.0 / page_size ≡ i / page_size)

-- Each page of the list is read as a whole.
abbrev pub IsComplete : List (ℕ × ℕ) → Type 0
IsComplete dirty = (d : ℕ × ℕ) → In d dirty → d.1 ≡ page_size

-- Where the cache differs from the program's memory, the page waits to be processed.
abbrev pub Reported : Memory → List Region → List (ℕ × ℕ) → Type 0
Reported child cache dirty =
    (r : Region)
    → In r cache
    → (i : ℕ) → r.start ≤ i
    → i < r.end
    → (r.pages i ≡ child i) ⊎ Waits dirty i

-- The regions of one cache, with other pages perhaps, are in another.
abbrev pub KeepsRegions : List Region → List Region → Type 0
KeepsRegions cache cache' =
    (r : Region) → In r cache → (q : Region) × In q cache' × (q.start ≡ r.start) × (q.end ≡ r.end)

-- What is known when some addresses are processed.
pub record Processed (child : Memory) (now : ℕ) (cache : List Region) (rows : List MemMsg)
    (dirty rest : List (ℕ × ℕ)) (cache' : List Region) (msgs : List MemMsg) : Type 0 where
  pub follows : Follows now cache' (rows ++ msgs)
  pub stamped : (m : MemMsg) → In m msgs → m.step_id ≡ now
  pub regions : KeepsRegions cache cache'
  pub reported : IsComplete dirty → Reported child cache dirty → Reported child cache' rest

module _ (memdiff : Compare) (exact : IsExact memdiff) (child old : Memory) (cb : IsBytes child)
    (ob : IsBytes old) where
  not_missing :
      (cache : List Region) (address : ℕ)
      → IsCache cache
      → find_page cache address ≡ none
      → (r : Region) → In r cache
      → (i : ℕ) → r.start ≤ i
      → i < r.end
      → address / page_size ≡ i / page_size
      → ⊥
  not_missing cache address c missing r m i l u e =
      let v = In-IsRegion cache r c m in
      let (j, k) = In-get_elem? cache r m in
      let found =
        find_page_finds cache c address j r k (omega (arith, v.first)) (omega (arith, v.last)) in
      cc

  -- One address.
  proc_dirty_page_lem :
      (step now count address : ℕ) (cache : List Region) (rows : List MemMsg) (rest : List (ℕ × ℕ))
      → step ≤ now
      → Follows step cache rows
      → (cache' : List Region) × (msgs : List MemMsg) × (proc_dirty_page memdiff child old count
            cache address now
          ≡ some (cache', msgs))
        × Processed child now cache rows ((address, count) ∷ rest) rest cache' msgs
  unfolding proc_dirty_page
  proc_dirty_page_lem step now count address cache rows rest order f =
      elim (find_page_cases cache address f.sorted) [
        | inl missing ↦ (
          cache,
          [],
          rw (proc_dirty_page, missing) refl,
          record {
            follows = later-Follows step now cache rows order f;
            stamped = λ m i. elim i [ ];
            regions = λ r m. (r, m, refl, refl);
            reported = λ all h r m i l u. elim (h r m i l u) [
              | inl same ↦ inl same
              | inr (d, n, e) ↦ elim n [
                | inr later ↦ inr (d, later, e)
                | inl first ↦ absurd (
                    not_missing cache address f.sorted missing r m i l u
                      (ap (λ (x : ℕ × ℕ). x.0 / page_size) (sym first) ∙ e))
              ]
            ];
          },
        )
        | inr (i, r, here, low, high, found) ↦
            let v = In-IsRegion cache r f.sorted (get_elem?-In cache i r here) in
            let page = address - address % page_size in
            let (pages, msgs, e, w, new) =
              process_page_lem memdiff exact child old cb ob count now r page v (omega arith)
                (omega (arith, v.first)) (omega (arith, v.last)) in
            (
              with_pages cache i pages,
              msgs,
              rw
                  (
                    proc_dirty_page,
                    found,
                    here,
                    test_ne page 0 (λ z. omega (arith, v.mapped, v.first)),
                    e,
                  )
                  refl,
              record {
                follows = with_pages-Follows step now order cache rows f i r here pages msgs w;
                stamped = w.stamped;
                regions = keeps cache i r pages here;
                reported = λ all h.
                    refreshed cache i r address count rest pages f.sorted here found
                      (new.fresh (all (address, count) (inl refl))) new.kept h;
              },
            )
      ]
    where
      keeps :
          (cache : List Region) (i : ℕ) (r : Region) (pages : Memory)
          → get_elem? cache i ≡ some r
          → KeepsRegions cache (with_pages cache i pages)
      keeps cache i r pages here q m =
          let e =
            ap (λ o. elim o [ none ↦ cache | some x ↦ set cache i (record x { pages = pages }) ])
              here in
          let (j, k) = In-get_elem? cache q m in
          elim (ℕ_discrete i j) [
            | yes same ↦
                let mine : r ≡ q = content_of (sym here ∙ ap (get_elem? cache) same ∙ k) in
                let new =
                  get_elem?-set_self cache i (record r { pages = pages })
                    (get_elem?-lt cache i here) in
                (
                  record r { pages = pages },
                  subst (λ l. In (record r { pages = pages }) l) (sym e)
                      (get_elem?-In (set cache i (record r { pages = pages })) i
                        (record r { pages = pages }) new),
                  ap (λ (x : Region). x.start) mine,
                  ap (λ (x : Region). x.end) mine,
                )
            | no other ↦ (
              q,
              subst (λ l. In q l) (sym e)
                  (get_elem?-In (set cache i (record r { pages = pages })) j q
                    (get_elem?-set_ne cache (record r { pages = pages }) other ∙ k)),
              refl,
              refl,
            )
          ]
        where
          content_of : {x y : Region} → some x ≡ some y → x ≡ y
          content_of e = cc

      refreshed :
          (cache : List Region) (i : ℕ) (r : Region) (address count : ℕ) (rest : List (ℕ × ℕ))
          (pages : Memory)
          → IsCache cache
          → get_elem? cache i ≡ some r
          → find_page cache address ≡ some (i, address - address % page_size)
          → ((j : ℕ)
              → address - address % page_size ≤ j
              → j < address - address % page_size + page_size
              → pages j ≡ child j)
          → ((j : ℕ)
              → (j < address - address % page_size)
                ⊎ (address - address % page_size + page_size ≤ j)
              → pages j ≡ r.pages j)
          → Reported child cache ((address, count) ∷ rest)
          → Reported child (with_pages cache i pages) rest
      refreshed cache i r address count rest pages c here found fresh kept h q m j l u =
          let m' =
            subst (λ l. In q l)
              (ap (λ o. elim o [ none ↦ cache | some x ↦ set cache i (record x { pages = pages }) ])
                here)
              m in
          elim (set-cases (record r { pages = pages }) cache i q m') [
            | inr (k, other, there) ↦ wait q k other there j l u
            | inl same ↦
                subst (λ (x : Region). (x.pages j ≡ child j) ⊎ Waits rest j) (sym same)
                  (own j (omega (arith, ap (λ (x : Region). x.start) same))
                    (omega (arith, ap (λ (x : Region). x.end) same)))
          ]
        where
          index_of : {a b x y : ℕ} → ◌≡◌ {A = Option (ℕ × ℕ)} (some (a, x)) (some (b, y)) → a ≡ b
          index_of e = cc

          wait :
              (x : Region) (k : ℕ)
              → i ≢ k
              → get_elem? cache k ≡ some x
              → (j : ℕ) → x.start ≤ j
              → j < x.end
              → (x.pages j ≡ child j) ⊎ Waits rest j
          wait x k other there j l u = elim (h x (get_elem?-In cache k x there) j l u) [
            | inl same ↦ inl same
            | inr (d, n, e) ↦ elim n [
              | inr later ↦ inr (d, later, e)
              | inl first ↦
                  let near : address / page_size ≡ j / page_size =
                    ap (λ (y : ℕ × ℕ). y.0 / page_size) (sym first) ∙ e in
                  let b = In-IsRegion cache x c (get_elem?-In cache k x there) in
                  let again =
                    find_page_finds cache c address k x there (omega (arith, b.first))
                      (omega (arith, b.last)) in
                  absurd (other (index_of (sym found ∙ again)))
            ]
          ]

          away :
              (j : ℕ)
              → r.start ≤ j
              → j < r.end
              → (j < address - address % page_size)
                ⊎ (address - address % page_size + page_size ≤ j)
              → (pages j ≡ child j) ⊎ Waits rest j
          away j l u out = elim (h r (get_elem?-In cache i r here) j l u) [
            | inl same ↦ inl (kept j out ∙ same)
            | inr (d, n, e) ↦ elim n [
              | inr later ↦ inr (d, later, e)
              | inl first ↦
                  let near : address / page_size ≡ j / page_size =
                    ap (λ (y : ℕ × ℕ). y.0 / page_size) (sym first) ∙ e in
                  elim out [ inl before ↦ absurd (omega arith) | inr behind ↦ absurd (omega arith) ]
            ]
          ]

          own : (j : ℕ) → r.start ≤ j → j < r.end → (pages j ≡ child j) ⊎ Waits rest j
          own j l u = elim (dec_lt j (address - address % page_size)) [
            | yes before ↦ away j l u (inl before)
            | no later ↦ elim (dec_lt j (address - address % page_size + page_size)) [
              | yes here' ↦ inl (fresh j (omega arith) here')
              | no behind ↦ away j l u (inr (omega arith))
            ]
          ]

  -- All addresses.
  pub proc_dirty_mem_lem :
      (step now : ℕ) (dirty : List (ℕ × ℕ)) (cache : List Region) (rows : List MemMsg)
      → step ≤ now
      → Follows step cache rows
      → (cache' : List Region) × (msgs : List MemMsg) × (proc_dirty_mem memdiff child old cache
            dirty now
          ≡ some (cache', msgs))
        × Processed child now cache rows dirty [] cache' msgs
  unfolding proc_dirty_mem
  proc_dirty_mem_lem step now [] cache rows order f = (
    cache,
    [],
    refl,
    record {
      follows = later-Follows step now cache rows order f;
      stamped = λ m i. elim i [ ];
      regions = λ r m. (r, m, refl, refl);
      reported = λ all h. h;
    },
  )
  proc_dirty_mem_lem step now ((address, count) ∷ dirty) cache rows order f =
      let (cache', msgs, e, p) =
        proc_dirty_page_lem step now count address cache rows dirty order f in
      let (cache'', msgs', k, q) =
        proc_dirty_mem_lem now now dirty cache' (rows ++ msgs) (omega arith) p.follows in
      (
        cache'',
        msgs ++ msgs',
        rw (proc_dirty_mem, e, k) refl,
        record {
          follows = subst (λ l. Follows now cache'' l) (append_assoc rows msgs msgs') q.follows;
          stamped = λ m i. elim (In-append m msgs msgs' i) [
            | inl n ↦ p.stamped m n
            | inr n ↦ q.stamped m n
          ];
          regions = λ r m.
              let (x, n, b, d) = p.regions r m in
              let (y, o, g, h) = q.regions x n in (y, o, g ∙ b, h ∙ d);
          reported = λ all h. q.reported (λ d n. all d (inr n)) (p.reported all h);
        },
      )
