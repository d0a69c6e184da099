-- ===== src/Memcache/Page.antt =====
-- One page: what `process_page` leaves of the region, and where `find_page` leads.
use flightrec.Prelude.{
  ℕ, suc, ◌+◌, ◌-◌, ◌/◌, ◌%◌, ◌≤◌, ◌<◌, ◌≡◌, ◌⊎◌, inl, inr, refl, sym, ◌∙◌, List, [], none, some,
  ltb, get_elem?, length, arith, Bool-cases, dec_lt, if_false, if_true,
}
use flightrec.Query.{In}
use flightrec.Bisect.{inside, Hit, at, bisect, bisect_sound}
use flightrec.Memory.{Memory, MemMsg, segment, page_size, bytes, bytes_cong}
use flightrec.Memdiff.Ranges.{IsBytes}
use flightrec.VarValue.{latest}
use flightrec.Memcache.{Region, Compare, side, after_read, process_page, find_page}
use flightrec.Memcache.Regions.{IsRegion, IsCache, find_page_finds}
use flightrec.Memcache.Loop.{IsExact, segments-Copied}

-- Messages that tell the difference between the old and the new content of a region.
pub record Updated (step : ℕ) (r : Region) (pages : Memory) (msgs : List MemMsg) : Type 0 where
  pub content : IsBytes pages
  pub stamped : (m : MemMsg) → In m msgs → m.step_id ≡ step
  pub placed :
      (m : MemMsg)
      → In m msgs
      → (m.address % segment ≡ 0)
        × (r.start ≤ m.address)
        × (m.address < r.end)
        × (m.content ≡ bytes pages m.address segment)
  pub unsaid :
      (c : ℕ)
      → c % segment ≡ 0
      → r.start ≤ c
      → c < r.end
      → latest c msgs ≡ none
      → bytes pages c segment ≡ bytes r.pages c segment

-- The new content is the program's on the page, if all of it was read, and the old one elsewhere.
pub record Refreshed (child old : Memory) (p count : ℕ) (pages : Memory) : Type 0 where
  pub fresh : count ≡ page_size → (i : ℕ) → p ≤ i → i < p + page_size → pages i ≡ child i
  pub kept : (i : ℕ) → (i < p) ⊎ (p + page_size ≤ i) → pages i ≡ old i

pub after_read-IsBytes :
    (p : ℕ) (child old : Memory) (count : ℕ)
    → IsBytes child
    → IsBytes old
    → IsBytes (after_read p child old count)
after_read-IsBytes p child old count c o i = ground (arith, c i, o i)

pub after_read-all :
    (p : ℕ) (child old : Memory) (count : ℕ) (i : ℕ)
    → p ≤ i
    → i < p + count
    → after_read p child old count i ≡ child i
after_read-all p child old count i l u = ground arith

module _ (memdiff : Compare) (exact : IsExact memdiff) (child old : Memory) (cb : IsBytes child)
    (ob : IsBytes old) (count step : ℕ) where
  pub process_page_lem :
      (r : Region) (p : ℕ)
      → IsRegion r
      → p % page_size ≡ 0
      → r.start ≤ p
      → p + page_size ≤ r.end
      → (pages : Memory) × (msgs : List MemMsg) × (process_page memdiff child old count p r.pages
            step
          ≡ some (pages, msgs))
        × Updated step r pages msgs
        × Refreshed child r.pages p count pages
  unfolding process_page
  process_page_lem r p v a low high = elim (Bool-cases (ltb count segment)) [
    | inl short ↦ (
      r.pages,
      [],
      if_true _ _ short,
      record {
        content = v.content;
        stamped = λ m i. elim i [ ];
        placed = λ m i. elim i [ ];
        unsaid = λ c x l u e. refl;
      },
      record { fresh = λ e i l u. absurd (ground arith); kept = λ i h. refl },
    )
    | inr enough ↦
        let buffer = after_read p child old count in
        let (pages, msgs, e, w) =
          segments-Copied memdiff exact step buffer (after_read-IsBytes p child old count cb ob)
            (page_size / segment) p r.pages v.content (omega arith) in
        (
          pages,
          msgs,
          if_false _ _ enough ∙ e,
          record {
            content = w.content;
            stamped = w.stamped;
            placed = λ m i.
                let (x, l, u, k) = w.placed m i in
                (
                  x,
                  omega arith,
                  omega arith,
                  k
                      ∙ bytes_cong buffer pages m.address segment
                          (λ j y z. sym (w.inside j (omega arith) (omega arith))),
                );
            unsaid = λ c x l u k. elim (dec_lt c p) [
              | yes before ↦
                  bytes_cong pages r.pages c segment (λ j y z. w.outside j (inl (omega arith)))
              | no later ↦ elim (dec_lt c (p + page_size)) [
                | no behind ↦
                    bytes_cong pages r.pages c segment (λ j y z. w.outside j (inr (omega arith)))
                | yes here ↦
                    let same = w.unsaid c x (omega arith) (omega arith) k in
                    bytes_cong pages r.pages c segment
                      (λ j y z. w.inside j (omega arith) (omega arith) ∙ sym (same j y z))
              ]
            ];
          },
          record {
            fresh = λ q i l u.
                w.inside i l (omega arith) ∙ after_read-all p child old count i l (omega arith);
            kept = λ i h. w.outside i (elim h [ inl l ↦ inl l | inr l ↦ inr (omega arith) ]);
          },
        )
  ]

-- The page that is found is one of a region that holds the address; or no page is found.
pub find_page_cases :
    (cache : List Region) (address : ℕ)
    → IsCache cache
    → (find_page cache address ≡ none)
      ⊎ ((i : ℕ) × (r : Region) × (get_elem? cache i ≡ some r)
          × (r.start ≤ address)
          × (address < r.end)
          × (find_page cache address ≡ some (i, address - address % page_size)))
unfolding find_page
find_page_cases cache address c =
    split (bisect (side address) cache (suc (length cache)) 0 (length cache)) refl
  where
    bounds : (r : Region) → side address r ≡ inside → (r.start ≤ address) × (address < r.end)
    bounds r e = ground arith

    split :
        (h : Hit)
        → bisect (side address) cache (suc (length cache)) 0 (length cache) ≡ h
        → (find_page cache address ≡ none)
          ⊎ ((i : ℕ) × (r : Region) × (get_elem? cache i ≡ some r)
              × (r.start ≤ address)
              × (address < r.end)
              × (find_page cache address ≡ some (i, address - address % page_size)))
    split (at i) e =
        let (r, k, s) =
          bisect_sound (side address) cache (suc (length cache)) 0 (length cache) i e in
        let (l, u) = bounds r s in inr (i, r, k, l, u, find_page_finds cache c address i r k l u)
    split Hit.missed e = inl (rw (find_page, e) refl)
    split Hit.out_of_bounds e = inl (rw (find_page, e) refl)
    split Hit.out_of_fuel e = inl (rw (find_page, e) refl)
