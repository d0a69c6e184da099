-- ===== src/Stingray/Content.antt =====
-- What strings hold: copies and concatenations, within the allocated memory and closed by a 0.
use mathlib.Core.Path.{ap₂}
use flightrec.Prelude.{
  ℕ, zero, suc, ◌+◌, ◌-◌, ◌≤◌, ◌<◌, ◌≡◌, ◌≢◌, refl, sym, ◌∙◌, ap, List, [], ◌∷◌, ◌++◌, true, false,
  ◌&&◌, none, some, ltb, leb, ◌==◌, if◌then◌else◌, length, arith, if_true, if_false, inl, inr,
  Bool-cases,
}
use flightrec.Memory.{Memory, bytes, bytes-append, bytes_cong}
use flightrec.Stingray.{
  Sr, Source, ended, strncpy, put, sr_new, sr_ensure_size, source_len, source_val, sr_copy, sr_cat,
  extend, chars,
}

-- The length stays below the allocated size, and a 0 closes the string.
pub record IsSr (s : Sr) : Type 0 where
  pub fits : s.len < s.size
  pub closed : s.val s.len ≡ 0

-- The characters of a string.
abbrev pub content : Sr → List ℕ
content s = bytes s.val 0 s.len

not_ended : (src : Memory) (n : ℕ) → ((i : ℕ) → i < n → src i ≢ 0) → ended src n ≡ false
unfolding ended
not_ended src zero h = refl
not_ended src (suc n) h =
    let rec = not_ended src n (λ i l. h i (omega arith)) in
    let here = h n (omega arith) in ground (arith, rec, here)

-- The same bytes at another place.
bytes_moved :
    (f g : Memory) (p q n : ℕ)
    → ((i : ℕ) → i < n → f (p + i) ≡ g (q + i))
    → bytes f p n ≡ bytes g q n
unfolding bytes
bytes_moved f g p q zero h = refl
bytes_moved f g p q (suc n) h =
    ap₂ ◌∷◌ (ap f (omega arith) ∙ h 0 (omega arith) ∙ ap g (omega arith)) (
      bytes_moved f g (p + 1) (q + 1) n
        (λ i l. ap f (omega arith) ∙ h (suc i) (omega arith) ∙ ap g (omega arith)))

-- A source that has no 0 among its first bytes, written behind `p` bytes and closed.
module _ (val src : Memory) (p n last : ℕ) (there : p + n ≡ last)
    (plain : (i : ℕ) → i < n → src i ≢ 0) where
  abbrev written : Memory
  written = put (strncpy val p src n) last 0

  written_old : (i : ℕ) → i < p → written i ≡ val i
  unfolding strncpy
  written_old i l = ground arith

  written_new : (i : ℕ) → i < n → written (p + i) ≡ src i
  unfolding strncpy
  written_new i l =
      let e = not_ended src i (λ j k. plain j (omega arith)) in
      let at : p + i - p ≡ i = omega arith in
      if_false _ _ (let ne : (p + i == last) ≡ false = ground arith in ne)
      ∙ if_true _ _
          (let inside : (leb p (p + i) && ltb (p + i) (p + n)) ≡ true = ground arith in inside)
      ∙ ap (λ j. if ended src j then 0 else src j) at
      ∙ if_false _ _ e

  written_end : written last ≡ 0
  written_end = ground arith

  written-content : bytes written 0 last ≡ bytes val 0 p ++ bytes src 0 n
  written-content =
      ap (bytes written 0) (sym there)
      ∙ sym (bytes-append written 0 p n p (omega arith))
      ∙ ap₂ ◌++◌ (bytes_cong written val 0 p (λ i l u. written_old i (omega arith)))
          (bytes_moved written src p 0 n (λ i l. written_new i l ∙ ap src (omega arith)))

grown :
    (str : Sr) (minsize more : ℕ)
    → (d : Sr) × (sr_ensure_size true str minsize more ≡ some d)
      × (d.val ≡ str.val)
      × (d.len ≡ str.len)
      × (minsize ≤ d.size)
unfolding sr_ensure_size
grown str minsize more = elim (Bool-cases (ltb str.size minsize)) [
  | inl small ↦ (
    record str { size = if ltb minsize (str.size + more) then str.size + more else minsize },
    if_true _ _ small,
    refl,
    refl,
    ground arith,
  )
  | inr enough ↦ (str, if_false _ _ enough, refl, refl, ground arith)
]

module _ (dest : Sr) (source : Source) (max : ℕ)
    (plain : (i : ℕ) → i < source_len source max → source_val source i ≢ 0) where
  -- If there is memory to grow, and the used part of the source has no 0, then `sr_cat` puts it
  -- behind what the string has, up to the new length, which stays below the size, with a 0 behind it.
  pub sr_cat_appends :
      (d : Sr) × (sr_cat true dest source max ≡ some d)
      × IsSr d
      × (content d ≡ content dest ++ bytes (source_val source) 0 (source_len source max))
  unfolding sr_cat
  sr_cat_appends =
      let n = source_len source max in
      let (g, e, v, l, s) = grown dest (dest.len + n + 1) extend in
      (
        record {
          val = put (strncpy g.val g.len (source_val source) n) (g.len + n) 0;
          size = g.size;
          len = g.len + n;
        },
        ap
            (λ o. elim o [
              | none ↦ none
              | some d ↦ some (record {
                val = put (strncpy d.val d.len (source_val source) n) (d.len + n) 0;
                size = d.size;
                len = d.len + n;
              })
            ])
            e,
        record {
          fits = omega (arith, l, s);
          closed = written_end g.val (source_val source) g.len n (g.len + n) refl plain;
        },
        written-content g.val (source_val source) g.len n (g.len + n) refl plain
            ∙ ap (λ c. c ++ bytes (source_val source) 0 n) (ap₂ (λ m k. bytes m 0 k) v l),
      )

  -- If there is memory to grow, and the used part of the source has no 0, then `sr_copy` leaves just
  -- that in the string, below the size, with a 0 behind it.
  pub sr_copy_replaces :
      (d : Sr) × (sr_copy true dest source max ≡ some d)
      × IsSr d
      × (content d ≡ bytes (source_val source) 0 (source_len source max))
  unfolding sr_copy bytes
  sr_copy_replaces =
      let n = source_len source max in
      let (g, e, v, l, s) = grown dest (n + 1) extend in
      (
        record { val = put (strncpy g.val 0 (source_val source) n) n 0; size = g.size; len = n },
        ap
            (λ o. elim o [
              | none ↦ none
              | some d ↦ some (record {
                val = put (strncpy d.val 0 (source_val source) n) n 0;
                size = d.size;
                len = n;
              })
            ])
            e,
        record {
          fits = omega (arith, l, s);
          closed = written_end g.val (source_val source) 0 n n (omega arith) plain;
        },
        written-content g.val (source_val source) 0 n n (omega arith) plain,
      )

abbrev pub IsPlain : List ℕ → Type 0
IsPlain text = (i : ℕ) → i < length text → chars text i ≢ 0

bytes-chars : (text : List ℕ) → bytes (chars text) 0 (length text) ≡ text
unfolding bytes
bytes-chars [] = refl
bytes-chars (c ∷ text) =
    ap (λ l. c ∷ l)
      (bytes_moved (chars (c ∷ text)) (chars text) 1 0 (length text) (λ i l. shifted i)
        ∙ bytes-chars text)
  where
    shifted : (i : ℕ) → chars (c ∷ text) (1 + i) ≡ chars text (0 + i)
    shifted i =
        let a : 1 + i ≡ suc i = omega arith in
        let b : i ≡ 0 + i = omega arith in ap (chars (c ∷ text)) a ∙ ap (chars text) b

-- If there is memory, then a new string holds the characters that it is made from, which are not 0,
-- has at least the size that is asked for, which is more than its length, and is closed by a 0.
pub sr_new_holds :
    (fresh : Memory) (initval : List ℕ) (initsize : ℕ)
    → IsPlain initval
    → (s : Sr) × (sr_new true true fresh initval initsize ≡ some s)
      × IsSr s
      × (content s ≡ initval)
      × (initsize ≤ s.size)
unfolding sr_new bytes
sr_new_holds fresh initval initsize plain =
    let n = length initval in
    let enough = if leb initsize n then n + 1 else initsize in
    let size = if ltb enough extend then extend else enough in
    (
      record { val = put (strncpy (put fresh 0 0) 0 (chars initval) n) n 0; size = size; len = n },
      refl,
      record {
        fits = ground arith;
        closed = written_end (put fresh 0 0) (chars initval) 0 n n (omega arith) plain;
      },
      written-content (put fresh 0 0) (chars initval) 0 n n (omega arith) plain
          ∙ bytes-chars initval,
      ground arith,
    )
