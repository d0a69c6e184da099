-- ===== src/Memcache/Follows.antt =====
-- The rows of the recorded memory follow the cache, whatever is added to it or refreshed in it.
use mathlib.Core.Path.{subst}
use mathlib.Core.List.{append-nil}
use flightrec.Prelude.{
  ℕ, zero, suc, ◌%◌, ◌≤◌, ◌<◌, ◌≡◌, ◌≢◌, ◌⊎◌, inl, inr, refl, sym, ◌∙◌, ap, List, [], ◌∷◌, ◌++◌,
  false, Option, none, some, ltb, ◌==◌, if◌then◌else◌, get_elem?, get_elem?-set_ne, set, arith,
  Bool-cases, if_false, if_true, ℕ_discrete, lt_trichotomy,
}
use flightrec.Query.{In}
use flightrec.Query.Append.{get_elem?-In, In-get_elem?, In-append}
use flightrec.Memory.{Memory, MemMsg, segment, bytes}
use flightrec.VarValue.{latest}
use flightrec.VarValue.Select.{latest-address, latest-In}
use flightrec.VarValue.Exact.{IsAligned}
use flightrec.Memcache.{Region, with_pages}
use flightrec.Memcache.Regions.{IsRegion, IsCache, In-IsRegion, IsCache-order}
use flightrec.Memcache.Page.{Updated}

-- The last row of a segment, among older rows and newer ones.
module _ (c step : ℕ) (msgs : List MemMsg) (now : (m : MemMsg) → In m msgs → m.step_id ≡ step) where
  pub latest-newer :
      (rows : List MemMsg) (x : MemMsg)
      → ((m : MemMsg) → In m rows → m.step_id ≤ step)
      → latest c msgs ≡ some x
      → latest c (rows ++ msgs) ≡ some x
  unfolding latest
  latest-newer [] x past e = e
  latest-newer (row ∷ rows) x past e =
      let rec = latest-newer rows x (λ m i. past m (inr i)) e in
      let old = past row (inl refl) in
      let new = now x (latest-In c msgs x e) in
      let keep : ltb x.step_id row.step_id ≡ false = ground arith in
      elim (Bool-cases (row.address == c)) [
        | inl here ↦
            if_true _ _ here
            ∙ ap
                (λ o. elim o [
                  | none ↦ some row
                  | some other ↦ if ltb other.step_id row.step_id then some row else some other
                ])
                rec
            ∙ if_false _ _ keep
        | inr there ↦ if_false _ _ there ∙ rec
      ]

  pub latest-older :
      (rows : List MemMsg) → latest c msgs ≡ none → latest c (rows ++ msgs) ≡ latest c rows
  unfolding latest
  latest-older [] e = e
  latest-older (row ∷ rows) e =
      ap
        (λ o.
          if row.address == c
          then elim o [
            | none ↦ some row
            | some other ↦ if ltb other.step_id row.step_id then some row else some other
          ]
          else o)
        (latest-older rows e)

-- Each segment of the cache is shown by the last of the rows of its address.
pub record Follows (step : ℕ) (cache : List Region) (rows : List MemMsg) : Type 0 where
  pub sorted : IsCache cache
  pub aligned : IsAligned rows
  pub past : (m : MemMsg) → In m rows → m.step_id ≤ step
  pub shows :
      (r : Region)
      → In r cache
      → (c : ℕ) → c % segment ≡ 0
      → r.start ≤ c
      → c < r.end
      → (row : MemMsg) × (latest c rows ≡ some row) × (row.content ≡ bytes r.pages c segment)

-- A region of the cache gets other pages.
module _ (new : Region) (v : IsRegion new) where
  set-start :
      (cache : List Region) (i : ℕ) (r q : Region)
      → get_elem? cache i ≡ some r
      → new.start ≡ r.start
      → In q (set cache i new)
      → (w : Region) × In w cache × (w.start ≡ q.start)
  set-start [] i r q e s m = elim m [ ]
  set-start (x ∷ cache) zero r q e s (inl k) =
      let same : x ≡ r = cc in
      (
        x,
        inl refl,
        ap (λ (w : Region). w.start) same ∙ sym s ∙ ap (λ (w : Region). w.start) (sym k),
      )
  set-start (x ∷ cache) zero r q e s (inr m) = (q, inr m, refl)
  set-start (x ∷ cache) (suc i) r q e s (inl k) =
      (x, inl refl, ap (λ (w : Region). w.start) (sym k))
  set-start (x ∷ cache) (suc i) r q e s (inr m) =
      let (w, n, k) = set-start cache i r q e s m in (w, inr n, k)

  set-IsCache :
      (cache : List Region) (i : ℕ) (r : Region)
      → get_elem? cache i ≡ some r
      → new.start ≡ r.start
      → new.end ≡ r.end
      → IsCache cache
      → IsCache (set cache i new)
  set-IsCache [] i r e s t c = tt
  set-IsCache (x ∷ cache) zero r e s t (w, h, c) =
      let same : x ≡ r = cc in
      (v, λ q m. let b = h q m in omega (arith, ap (λ (y : Region). y.end) same), c)
  set-IsCache (x ∷ cache) (suc i) r e s t (w, h, c) = (
    w,
    λ q m. let (y, n, k) = set-start cache i r q e s m in let b = h y n in omega arith,
    set-IsCache cache i r e s t c,
  )

module _ (new : Region) where
  -- The regions of the new cache are the new one and the others of the old cache.
  pub set-cases :
      (cache : List Region) (i : ℕ) (q : Region)
      → In q (set cache i new)
      → (q ≡ new) ⊎ ((j : ℕ) × (i ≢ j) × (get_elem? cache j ≡ some q))
  set-cases cache i q m =
      let (j, e) = In-get_elem? (set cache i new) q m in
      elim (ℕ_discrete i j) [
        | no other ↦ inr (j, other, sym (get_elem?-set_ne cache new other) ∙ e)
        | yes same ↦ inl (hit cache i j q same e)
      ]
    where
      hit :
          (cache : List Region) (i j : ℕ) (q : Region)
          → i ≡ j
          → get_elem? (set cache i new) j ≡ some q
          → q ≡ new
      hit [] i j q k e = absurd (cc)
      hit (x ∷ cache) zero zero q k e = cc
      hit (x ∷ cache) zero (suc j) q k e = absurd (omega arith)
      hit (x ∷ cache) (suc i) zero q k e = absurd (omega arith)
      hit (x ∷ cache) (suc i) (suc j) q k e = hit cache i j q (omega arith) e

module _ (step now : ℕ) (order : step ≤ now) (cache : List Region) (rows : List MemMsg)
    (f : Follows step cache rows) where
  pub past_now : (m : MemMsg) → In m rows → m.step_id ≤ now
  past_now m i = let p = f.past m i in omega arith

  -- Where the messages say nothing of a segment, its row stays.
  pub unsaid-shows :
      (msgs : List MemMsg) (r : Region) (pages : Memory) (c : ℕ)
      → In r cache
      → c % segment ≡ 0
      → r.start ≤ c
      → c < r.end
      → latest c msgs ≡ none
      → ((m : MemMsg) → In m msgs → m.step_id ≡ now)
      → bytes pages c segment ≡ bytes r.pages c segment
      → (row : MemMsg) × (latest c (rows ++ msgs) ≡ some row)
        × (row.content ≡ bytes pages c segment)
  unsaid-shows msgs r pages c m a l u quiet stamped same =
      let (row, e, k) = f.shows r m c a l u in
      (row, latest-older c now msgs stamped rows quiet ∙ e, k ∙ sym same)

  module _ (i : ℕ) (r : Region) (here : get_elem? cache i ≡ some r) (pages : Memory)
      (msgs : List MemMsg) (w : Updated now r pages msgs) where
    abbrev pub new_region : Region
    new_region = record r { pages = pages }

    pub with_pages-Follows : Follows now (with_pages cache i pages) (rows ++ msgs)
    with_pages-Follows =
        subst (λ l. Follows now l (rows ++ msgs))
          (sym (
            ap (λ o. elim o [ none ↦ cache | some q ↦ set cache i (record q { pages = pages }) ])
              here))
          (record {
            sorted = set-IsCache new_region wf cache i r here refl refl f.sorted;
            aligned = λ row m. elim (In-append row rows msgs m) [
              | inl n ↦ f.aligned row n
              | inr n ↦ (w.placed row n).0
            ];
            past = λ row m. elim (In-append row rows msgs m) [
              | inl n ↦ past_now row n
              | inr n ↦ let s = w.stamped row n in omega arith
            ];
            shows = λ q m c a l u. elim (set-cases new_region cache i q m) [
              | inl same ↦
                  subst
                    (λ (x : Region).
                      (row : MemMsg) × (latest c (rows ++ msgs) ≡ some row)
                      × (row.content ≡ bytes x.pages c segment))
                    (sym same)
                    (own c a (omega (arith, ap (λ (x : Region). x.start) same))
                      (omega (arith, ap (λ (x : Region). x.end) same)) (latest c msgs) refl)
              | inr (j, other, there) ↦
                  unsaid-shows msgs q q.pages c (get_elem?-In cache j q there) a l u
                    (silent q c j other there l u (latest c msgs) refl) w.stamped refl
            ];
          })
      where
        old : IsRegion r
        old = In-IsRegion cache r f.sorted (get_elem?-In cache i r here)

        wf : IsRegion (record r { pages = pages })
        wf = record {
          first = old.first;
          last = old.last;
          some_page = old.some_page;
          mapped = old.mapped;
          content = w.content;
        }

        own :
            (c : ℕ)
            → c % segment ≡ 0
            → r.start ≤ c
            → c < r.end
            → (o : Option MemMsg) → latest c msgs ≡ o
            → (row : MemMsg) × (latest c (rows ++ msgs) ≡ some row)
              × (row.content ≡ bytes pages c segment)
        own c a l u none e =
            unsaid-shows msgs r pages c (get_elem?-In cache i r here) a l u e w.stamped
              (w.unsaid c a l u e)
        own c a l u (some x) e =
            let at_c = latest-address c msgs x e in
            let (y, low, high, k) = w.placed x (latest-In c msgs x e) in
            (
              x,
              latest-newer c now msgs w.stamped rows x past_now e,
              k ∙ ap (λ p. bytes pages p segment) at_c,
            )

        silent :
            (q : Region) (c j : ℕ)
            → i ≢ j
            → get_elem? cache j ≡ some q
            → q.start ≤ c
            → c < q.end
            → (o : Option MemMsg) → latest c msgs ≡ o
            → latest c msgs ≡ none
        silent q c j other there l u none e = e
        silent q c j other there l u (some x) e =
            let at_c = latest-address c msgs x e in
            let (y, low, high, k) = w.placed x (latest-In c msgs x e) in
            elim (lt_trichotomy i j) [
              | inl before ↦
                  let b = IsCache-order cache i j r q f.sorted before here there in
                  absurd (omega arith)
              | inr (inl same) ↦ absurd (other same)
              | inr (inr behind) ↦
                  let b = IsCache-order cache j i q r f.sorted behind there here in
                  absurd (omega arith)
            ]

-- As of a later step the rows follow the same cache.
pub later-Follows :
    (step now : ℕ) (cache : List Region) (rows : List MemMsg)
    → step ≤ now
    → Follows step cache rows
    → Follows now cache (rows ++ [])
later-Follows step now cache rows order f =
    subst (λ l. Follows now cache l) (sym (append-nil rows))
      (record {
        sorted = f.sorted;
        aligned = f.aligned;
        past = λ m i. let p = f.past m i in omega arith;
        shows = f.shows;
      })
