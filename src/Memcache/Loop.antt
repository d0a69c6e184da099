-- ===== src/Memcache/Loop.antt =====
-- The loop over the segments of a page.
use flightrec.Prelude.{
  ℕ, zero, suc, ◌+◌, ◌*◌, ◌%◌, ◌≤◌, ◌<◌, ◌≡◌, ◌≢◌, ◌⊎◌, inl, inr, refl, sym, ◌∙◌, ap, List, [], ◌∷◌,
  Bool, true, false, none, some, arith, dec_lt, if_false, test_ne, ℕ_discrete,
}
use flightrec.Query.{In}
use flightrec.Memory.{Memory, MemMsg, segment, bytes}
use flightrec.Memdiff.{Buffer, advance}
use flightrec.Memdiff.Ranges.{IsBytes, Agree, Decides, Agree-at}
use flightrec.VarValue.{latest}
use flightrec.VarValue.Select.{latest-some}
use flightrec.Memcache.{Compare, copy_segment, segments}

-- A comparison that ends on all buffers of bytes, and is right on segments.
abbrev pub IsExact : Compare → Type 0
IsExact memdiff =
    (a b : Buffer)
    → IsBytes a
    → IsBytes b
    → (r : Bool) × (memdiff a b segment ≡ some r) × Decides r (Agree a b 0 segment)

-- What the loop leaves when `n` segments from `p` on are done: the copy holds the buffer there and
-- what it held elsewhere; the messages show the buffer, and where there is none nothing changed.
pub record Copied (step : ℕ) (buffer cached : Memory) (p n : ℕ) (cached' : Memory)
    (msgs : List MemMsg) : Type 0 where
  pub content : IsBytes cached'
  pub inside : (i : ℕ) → p ≤ i → i < p + n * segment → cached' i ≡ buffer i
  pub outside : (i : ℕ) → (i < p) ⊎ (p + n * segment ≤ i) → cached' i ≡ cached i
  pub stamped : (m : MemMsg) → In m msgs → m.step_id ≡ step
  pub placed :
      (m : MemMsg)
      → In m msgs
      → (m.address % segment ≡ 0)
        × (p ≤ m.address)
        × (m.address < p + n * segment)
        × (m.content ≡ bytes buffer m.address segment)
  pub unsaid :
      (c : ℕ)
      → c % segment ≡ 0
      → p ≤ c
      → c < p + n * segment
      → latest c msgs ≡ none
      → Agree cached buffer c (c + segment)

copy_segment-IsBytes :
    (p : ℕ) (from to : Memory) → IsBytes from → IsBytes to → IsBytes (copy_segment p from to)
copy_segment-IsBytes p from to f t i = ground (arith, f i, t i)

copy_segment-inside :
    (p : ℕ) (from to : Memory) (i : ℕ) → p ≤ i → i < p + segment → copy_segment p from to i ≡ from i
copy_segment-inside p from to i l u = ground arith

copy_segment-outside :
    (p : ℕ) (from to : Memory) (i : ℕ)
    → (i < p) ⊎ (p + segment ≤ i)
    → copy_segment p from to i ≡ to i
copy_segment-outside p from to i h = ground arith

latest-skip :
    (c : ℕ) (m : MemMsg) (msgs : List MemMsg) → m.address ≢ c → latest c (m ∷ msgs) ≡ latest c msgs
unfolding latest
latest-skip c m msgs h = if_false _ _ (test_ne m.address c h)

module _ (step : ℕ) (buffer cached : Memory) (p n : ℕ) (aligned : p % segment ≡ 0)
    (cached' : Memory) (msgs : List MemMsg) where
  -- A segment that is the same.
  same-Copied :
      Agree buffer cached p (p + segment)
      → Copied step buffer cached (p + segment) n cached' msgs
      → Copied step buffer cached p (suc n) cached' msgs
  same-Copied same v = record {
    content = v.content;
    inside = λ i l u. elim (dec_lt i (p + segment)) [
      | yes here ↦ v.outside i (inl here) ∙ sym (same i l here)
      | no there ↦ v.inside i (omega arith) (omega arith)
    ];
    outside = λ i h. v.outside i (elim h [ inl l ↦ inl (omega arith) | inr l ↦ inr (omega arith) ]);
    stamped = v.stamped;
    placed = λ m i. let (a, l, u, e) = v.placed m i in (a, omega arith, omega arith, e);
    unsaid = λ c a l u e. elim (dec_lt c (p + segment)) [
      | yes here ↦ λ i low high. sym (same i (omega arith) (omega arith))
      | no there ↦ v.unsaid c a (omega arith) (omega arith) e
    ];
  }

  -- A segment that changed.
  changed-Copied :
      Copied step buffer (copy_segment p buffer cached) (p + segment) n cached' msgs
      → Copied step buffer cached p
          (suc n)
          cached'
          (record { step_id = step; address = p; content = bytes buffer p segment } ∷ msgs)
  changed-Copied v = record {
    content = v.content;
    inside = λ i l u. elim (dec_lt i (p + segment)) [
      | yes here ↦ v.outside i (inl here) ∙ copy_segment-inside p buffer cached i l here
      | no there ↦ v.inside i (omega arith) (omega arith)
    ];
    outside = λ i h.
        v.outside i (elim h [ inl l ↦ inl (omega arith) | inr l ↦ inr (omega arith) ])
        ∙ copy_segment-outside p buffer cached i
            (elim h [ inl l ↦ inl l | inr l ↦ inr (omega arith) ]);
    stamped = λ m i. elim i [ inl e ↦ ap (λ (w : MemMsg). w.step_id) e | inr j ↦ v.stamped m j ];
    placed = λ m i. elim i [
      | inl e ↦
          let here = ap (λ (w : MemMsg). w.address) e in
          (
            omega arith,
            omega arith,
            omega arith,
            ap (λ (w : MemMsg). w.content) e ∙ ap (λ q. bytes buffer q segment) (sym here),
          )
      | inr j ↦ let (a, l, u, e) = v.placed m j in (a, omega arith, omega arith, e)
    ];
    unsaid = λ c a l u e. elim (ℕ_discrete p c) [
      | yes here ↦ absurd (
          latest-some c
            (record { step_id = step; address = p; content = bytes buffer p segment } ∷ msgs)
            (record { step_id = step; address = p; content = bytes buffer p segment }) (inl refl)
            here e)
      | no other ↦
          let later = v.unsaid c a (omega arith) (omega arith) (
            sym (
              latest-skip c
                (record { step_id = step; address = p; content = bytes buffer p segment }) msgs
                other)
            ∙ e) in
          λ i low high.
            sym (copy_segment-outside p buffer cached i (inr (omega arith))) ∙ later i low high
    ];
  }

module _ (memdiff : Compare) (exact : IsExact memdiff) (step : ℕ) (buffer : Memory)
    (b : IsBytes buffer) where
  pub segments-Copied :
      (n p : ℕ) (cached : Memory)
      → IsBytes cached
      → p % segment ≡ 0
      → (cached' : Memory) × (msgs : List MemMsg) × (segments memdiff step buffer n p cached
          ≡ some (cached', msgs))
        × Copied step buffer cached p n cached' msgs
  unfolding segments
  segments-Copied zero p cached c a = (
    cached,
    [],
    refl,
    record {
      content = c;
      inside = λ i l u. absurd (omega arith);
      outside = λ i h. refl;
      stamped = λ m i. elim i [ ];
      placed = λ m i. elim i [ ];
      unsaid = λ k x l u e. absurd (omega arith);
    },
  )
  segments-Copied (suc n) p cached c a =
      let (r, e, d) =
        exact (advance p buffer) (advance p cached) (λ i. b (p + i)) (λ i. c (p + i)) in
      round r e d (segments-Copied n (p + segment) cached c (omega arith)) (
        segments-Copied n (p + segment) (copy_segment p buffer cached)
          (copy_segment-IsBytes p buffer cached b c) (omega arith))
    where
      round :
          (r : Bool)
          → memdiff (advance p buffer) (advance p cached) segment ≡ some r
          → Decides r (Agree (advance p buffer) (advance p cached) 0 segment)
          → ((cached' : Memory) × (msgs : List MemMsg) × (segments memdiff step buffer n
                  (p + segment)
                  cached
                ≡ some (cached', msgs))
              × Copied step buffer cached (p + segment) n cached' msgs)
          → ((cached' : Memory) × (msgs : List MemMsg) × (segments memdiff step buffer n
                  (p + segment)
                  (copy_segment p buffer cached)
                ≡ some (cached', msgs))
              × Copied step buffer (copy_segment p buffer cached) (p + segment) n cached' msgs)
          → (cached' : Memory) × (msgs : List MemMsg) × (segments memdiff step buffer
                (suc n)
                p
                cached
              ≡ some (cached', msgs))
            × Copied step buffer cached p (suc n) cached' msgs
      round false e d (cached', msgs, k, v) other = (
        cached',
        msgs,
        rw (segments, e) k,
        same-Copied step buffer cached p n a cached' msgs
            (Agree-at buffer cached p segment (d.0 refl)) v,
      )
      round true e d other (cached', msgs, k, v) = (
        cached',
        record { step_id = step; address = p; content = bytes buffer p segment } ∷ msgs,
        rw (segments, e, k) refl,
        changed-Copied step buffer cached p n a cached' msgs v,
      )
