-- ===== src/Memcache/Regions.antt =====
-- The sorted array of regions: `find_page` finds the page of each address, and adding a region keeps
-- the array sorted.
use mathlib.Core.Path.{subst}
use flightrec.Prelude.{
  ℕ, zero, suc, ◌+◌, ◌-◌, ◌*◌, ◌/◌, ◌%◌, ◌≤◌, ◌<◌, ◌≡◌, ◌⊎◌, inl, inr, refl, sym, ◌∙◌, ap, List, [],
  ◌∷◌, some, leb, get_elem?, get_elem?-lt, length, arith, Bool-cases,
}
use flightrec.Query.{In}
use flightrec.Query.Append.{get_elem?-In}
use flightrec.Bisect.{lower, upper, inside, Points, bisect_finds}
use flightrec.Memory.{page_size}
use flightrec.Memdiff.Ranges.{IsBytes}
use flightrec.Memcache.{Region, side, find_page, insert_region}

-- A region is made of pages that hold bytes, and does not start at 0.
pub record IsRegion (r : Region) : Type 0 where
  pub first : r.start % page_size ≡ 0
  pub last : r.end % page_size ≡ 0
  pub some_page : r.start < r.end
  pub mapped : 0 < r.start
  pub content : IsBytes r.pages

-- Regions in the order of their addresses, that do not overlap.
abbrev pub IsCache : List Region → Type 0
IsCache [] = Unit {0}
IsCache (r ∷ cache) = IsRegion r × ((q : Region) → In q cache → r.end ≤ q.start) × IsCache cache

pub In-IsRegion : (cache : List Region) (r : Region) → IsCache cache → In r cache → IsRegion r
In-IsRegion (q ∷ cache) r (v, h, c) (inl e) = subst IsRegion (sym e) v
In-IsRegion (q ∷ cache) r (v, h, c) (inr m) = In-IsRegion cache r c m
In-IsRegion [] r c m = elim m [ ]

pub IsCache-order :
    (cache : List Region) (i j : ℕ) (r q : Region)
    → IsCache cache
    → i < j
    → get_elem? cache i ≡ some r
    → get_elem? cache j ≡ some q
    → r.end ≤ q.start
IsCache-order [] i j r q c l e k = absurd (cc)
IsCache-order (x ∷ cache) i zero r q c l e k = absurd (omega arith)
IsCache-order (x ∷ cache) zero (suc j) r q (v, h, c) l e k =
    let same : x ≡ r = cc in
    let b = h q (get_elem?-In cache j q k) in omega (arith, ap (λ (w : Region). w.end) same)
IsCache-order (x ∷ cache) (suc i) (suc j) r q (v, h, c) l e k =
    IsCache-order cache i j r q c (omega arith) e k

module _ (cache : List Region) (c : IsCache cache) (address : ℕ) where
  side-inside : (r : Region) → r.start ≤ address → address < r.end → side address r ≡ inside
  side-inside r l u = ground arith

  side-upper : (r : Region) → r.start ≤ address → r.end ≤ address → side address r ≡ upper
  side-upper r l u = ground arith

  side-lower : (r : Region) → address < r.start → side address r ≡ lower
  side-lower r l = ground arith

  module _ (i : ℕ) (r : Region) (here : get_elem? cache i ≡ some r) (low : r.start ≤ address)
      (high : address < r.end) where
    region-Points : Points (side address) cache i
    region-Points = record {
      here = λ x e.
          let same : r ≡ x = some_injective (sym here ∙ e) in
          side-inside x (omega (arith, ap (λ (w : Region). w.start) same))
            (omega (arith, ap (λ (w : Region). w.end) same));
      before = λ j x l e.
          let q = IsCache-order cache j i x r c l e here in
          let v = In-IsRegion cache x c (get_elem?-In cache j x e) in
          side-upper x (omega (arith, v.some_page)) (omega arith);
      behind =
          λ j x l e. let q = IsCache-order cache i j r x c l here e in side-lower x (omega arith);
    }
      where
        some_injective : {x y : Region} → some x ≡ some y → x ≡ y
        some_injective e = cc

    -- In a sorted array of regions, the page that is found for an address in a region is the one
    -- of that region in which the address lies.
    pub find_page_finds : find_page cache address ≡ some (i, address - address % page_size)
    unfolding find_page
    find_page_finds =
        let found =
          bisect_finds (side address) cache i region-Points (suc (length cache)) 0 (length cache)
            (omega arith) (omega arith) (get_elem?-lt cache i here) (omega arith) in
        let v = In-IsRegion cache r c (get_elem?-In cache i r here) in
        rw (find_page, found, here) (ap (λ (p : ℕ). some (i, p)) (page (v.first)))
      where
        page :
            r.start % page_size ≡ 0
            → r.start + (address - r.start) / page_size * page_size ≡ address - address % page_size
        page e = omega arith

-- Adding a region that overlaps with none keeps the array sorted.
pub insert_region-In :
    (new : Region) (cache : List Region) (x : Region)
    → In x (insert_region new cache)
    → (x ≡ new) ⊎ In x cache
unfolding insert_region
insert_region-In new [] x m = m
insert_region-In new (r ∷ cache) x m = elim (Bool-cases (leb r.start new.start)) [
  | inl e ↦ elim (rw e at m) [
    | inl k ↦ inr (inl k)
    | inr n ↦ elim (insert_region-In new cache x n) [ inl k ↦ inl k | inr l ↦ inr (inr l) ]
  ]
  | inr e ↦ rw e at m
]

In-insert_region :
    (new : Region) (cache : List Region) (x : Region)
    → (x ≡ new) ⊎ In x cache
    → In x (insert_region new cache)
unfolding insert_region
In-insert_region new [] x m = m
In-insert_region new (r ∷ cache) x m = elim (Bool-cases (leb r.start new.start)) [
  | inl e ↦ rw e (elim m [
    | inl k ↦ inr (In-insert_region new cache x (inl k))
    | inr n ↦ elim n [ inl k ↦ inl k | inr l ↦ inr (In-insert_region new cache x (inr l)) ]
  ])
  | inr e ↦ rw e m
]

pub insert_region-IsCache :
    (new : Region) (cache : List Region)
    → IsRegion new
    → IsCache cache
    → ((r : Region) → In r cache → (r.end ≤ new.start) ⊎ (new.end ≤ r.start))
    → IsCache (insert_region new cache)
unfolding insert_region
insert_region-IsCache new [] v c apart = (v, λ q m. elim m [ ], tt)
insert_region-IsCache new (r ∷ cache) v (w, h, c) apart =
    elim (Bool-cases (leb r.start new.start)) [
      | inl e ↦
          let front : r.end ≤ new.start = elim (apart r (inl refl)) [
            | inl k ↦ k
            | inr k ↦ absurd (ground (arith, v.some_page))
          ] in
          rw e (
            w,
            λ q m. elim (insert_region-In new cache q m) [
              | inl k ↦ omega (arith, ap (λ (x : Region). x.start) k)
              | inr n ↦ h q n
            ],
            insert_region-IsCache new cache v c (λ q m. apart q (inr m)),
          )
      | inr e ↦
          let behind : new.end ≤ r.start = elim (apart r (inl refl)) [
            | inl k ↦ absurd (ground (arith, w.some_page))
            | inr k ↦ k
          ] in
          rw e (
            v,
            λ q m. elim m [
              | inl k ↦ omega (arith, ap (λ (x : Region). x.start) k)
              | inr n ↦ let l = h q n in omega (arith, w.some_page)
            ],
            (w, h, c),
          )
    ]
