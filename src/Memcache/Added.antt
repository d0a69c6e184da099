-- ===== src/Memcache/Added.antt =====
-- A new region: `cache_add_region` records all of it.
use flightrec.Prelude.{
  ℕ, zero, suc, ◌+◌, ◌-◌, ◌*◌, ◌/◌, ◌%◌, ◌≤◌, ◌<◌, ◌≡◌, ◌⊎◌, inl, inr, refl, sym, ◌∙◌, ap, List, [],
  ◌++◌, false, Option, none, some, ltb, arith, if_false, dec_lt,
}
use mathlib.Core.Path.{subst}
use flightrec.Query.{In}
use flightrec.Query.Append.{In-append}
use flightrec.Memory.{Memory, MemMsg, segment, page_size, bytes}
use flightrec.Memdiff.Ranges.{IsBytes}
use flightrec.VarValue.{latest}
use flightrec.VarValue.Select.{latest-address, latest-In, latest-some}
use flightrec.Memcache.{Region, after_read, region_msgs, insert_region, cache_add_region}
use flightrec.Memcache.Regions.{IsRegion, insert_region-IsCache, insert_region-In}
use flightrec.Memcache.Page.{after_read-IsBytes}
use flightrec.Memcache.Follows.{Follows, latest-newer, past_now, unsaid-shows}

region_msgs-In :
    (step : ℕ) (pages : Memory) (n p : ℕ) (m : MemMsg)
    → p % segment ≡ 0
    → In m (region_msgs step pages n p)
    → (m.step_id ≡ step)
      × (m.address % segment ≡ 0)
      × (p ≤ m.address)
      × (m.address < p + n * segment)
      × (m.content ≡ bytes pages m.address segment)
unfolding region_msgs
region_msgs-In step pages zero p m a i = elim i [ ]
region_msgs-In step pages (suc n) p m a (inl e) =
    let here = ap (λ (w : MemMsg). w.address) e in
    (
      ap (λ (w : MemMsg). w.step_id) e,
      omega arith,
      omega arith,
      omega arith,
      ap (λ (w : MemMsg). w.content) e ∙ ap (λ q. bytes pages q segment) (sym here),
    )
region_msgs-In step pages (suc n) p m a (inr i) =
    let (s, x, l, u, k) = region_msgs-In step pages n (p + segment) m (omega arith) i in
    (s, x, omega arith, omega arith, k)

region_msgs-all :
    (step : ℕ) (pages : Memory) (n p c : ℕ)
    → p % segment ≡ 0
    → c % segment ≡ 0
    → p ≤ c
    → c < p + n * segment
    → (m : MemMsg) × In m (region_msgs step pages n p) × (m.address ≡ c)
unfolding region_msgs
region_msgs-all step pages zero p c a b l u = absurd (omega arith)
region_msgs-all step pages (suc n) p c a b l u = elim (dec_lt p c) [
  | yes later ↦
      let (m, i, e) =
        region_msgs-all step pages n (p + segment) c (omega arith) b (omega arith) (omega arith) in
      (m, inr i, e)
  | no here ↦ (
    record { step_id = step; address = p; content = bytes pages p segment },
    inl refl,
    omega arith,
  )
]

module _ (child old : Memory) (cb : IsBytes child) (ob : IsBytes old) (step now : ℕ)
    (order : step ≤ now) (cache : List Region) (rows : List MemMsg) (f : Follows step cache rows)
    (address size count : ℕ) (first : address % page_size ≡ 0) (whole : size % page_size ≡ 0)
    (some_page : 0 < size) (mapped : 0 < address)
    (apart : (r : Region) → In r cache → (r.end ≤ address) ⊎ (address + size ≤ r.start)) where
  abbrev pages : Memory
  pages = after_read address child old count

  abbrev new_region : Region
  new_region = record { start = address; end = address + size; pages = pages }

  abbrev msgs : List MemMsg
  msgs = region_msgs now pages ((size + segment - 1) / segment) address

  new_region-IsRegion : IsRegion new_region
  new_region-IsRegion = record {
    first = first;
    last = omega arith;
    some_page = omega arith;
    mapped = mapped;
    content = after_read-IsBytes address child old count cb ob;
  }

  stamped : (m : MemMsg) → In m msgs → m.step_id ≡ now
  stamped m i =
      (region_msgs-In now pages ((size + segment - 1) / segment) address m (omega arith) i).0

  added-Follows : Follows now (insert_region new_region cache) (rows ++ msgs)
  added-Follows = record {
    sorted = insert_region-IsCache new_region cache new_region-IsRegion f.sorted apart;
    aligned = λ m i. elim (In-append m rows msgs i) [
      | inl n ↦ f.aligned m n
      | inr n ↦
          (region_msgs-In now pages ((size + segment - 1) / segment) address m (omega arith) n).1
    ];
    past = λ m i. elim (In-append m rows msgs i) [
      | inl n ↦ past_now step now order cache rows f m n
      | inr n ↦ let s = stamped m n in omega arith
    ];
    shows = λ r m c a l u. elim (insert_region-In new_region cache r m) [
      | inl same ↦
          subst
            (λ (x : Region).
              (row : MemMsg) × (latest c (rows ++ msgs) ≡ some row)
              × (row.content ≡ bytes x.pages c segment))
            (sym same)
            (own c a (omega (arith, ap (λ (x : Region). x.start) same))
              (omega (arith, ap (λ (x : Region). x.end) same)) (latest c msgs) refl)
      | inr n ↦
          unsaid-shows step now order cache rows f msgs r r.pages c n a l u
            (silent r c n l u (latest c msgs) refl) stamped refl
    ];
  }
    where
      own :
          (c : ℕ)
          → c % segment ≡ 0
          → address ≤ c
          → c < address + size
          → (o : Option MemMsg) → latest c msgs ≡ o
          → (row : MemMsg) × (latest c (rows ++ msgs) ≡ some row)
            × (row.content ≡ bytes pages c segment)
      own c a l u none e =
          let (m, i, k) =
            region_msgs-all now pages ((size + segment - 1) / segment) address c (omega arith) a l
              (omega arith) in
          absurd (latest-some c msgs m i k e)
      own c a l u (some x) e =
          let at_c = latest-address c msgs x e in
          let (s, y, low, high, k) =
            region_msgs-In now pages ((size + segment - 1) / segment) address x (omega arith)
              (latest-In c msgs x e) in
          (
            x,
            latest-newer c now msgs stamped rows x (past_now step now order cache rows f) e,
            k ∙ ap (λ p. bytes pages p segment) at_c,
          )

      silent :
          (r : Region) (c : ℕ)
          → In r cache
          → r.start ≤ c
          → c < r.end
          → (o : Option MemMsg) → latest c msgs ≡ o
          → latest c msgs ≡ none
      silent r c n l u none e = e
      silent r c n l u (some x) e =
          let at_c = latest-address c msgs x e in
          let (s, y, low, high, k) =
            region_msgs-In now pages ((size + segment - 1) / segment) address x (omega arith)
              (latest-In c msgs x e) in
          elim (apart r n) [ inl b ↦ absurd (omega arith) | inr b ↦ absurd (omega arith) ]

  -- If the rows follow the cache at a step, and a region of whole pages that meets no other and does
  -- not start at 0 is added at a step that is not earlier, and is read as a whole, then the rows
  -- with the new messages follow the new cache.
  pub cache_add_region-Follows :
      size ≤ count
      → Follows now
          (cache_add_region child old count cache address size now).0
          (rows ++ (cache_add_region child old count cache address size now).1)
  unfolding cache_add_region
  cache_add_region-Follows all =
      let full : ltb count size ≡ false = ground arith in
      let e =
        if_false (insert_region new_region cache, []) (insert_region new_region cache, msgs) full in
      subst (λ (o : List Region × List MemMsg). Follows now o.0 (rows ++ o.1)) (sym e) added-Follows
