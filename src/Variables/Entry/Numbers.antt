-- ===== src/Variables/Entry/Numbers.antt =====
-- The number that is shown of a variable is the number that is stored there.
use mathlib.Core.Path.{ap₂, subst}
use native.Mathlib.Nat.{pow-succ'}
use flightrec.Prelude.{
  ℕ, zero, suc, ◌+◌, ◌-◌, ◌*◌, ◌/◌, ◌%◌, ◌^◌, ◌≤◌, ◌<◌, ◌≡◌, ◌≢◌, refl, sym, ◌∙◌, ap, List, [], ◌∷◌,
  ◌++◌, true, false, none, some, ◌==◌, ◌&&◌, ◌||◌, if◌then◌else◌, ltb, leb, if_true, if_false,
  arith, test_eq, test_ne,
}
use flightrec.Memory.{Memory, segment, bytes, bytes_cong}
use flightrec.Run.{poke}
use flightrec.VarValue.Exact.{IsAligned, Shows, get_var_value_exact}
use flightrec.Variables.{
  TypeRow, View, get_type_size, read_value, get_var_value, tkind, tkind_signed, tkind_float,
  tkind_enum, tkind_alias, tkind_unsigned, unsigned_of, Shown, number, minus, tkind_pointer,
  tkind_array, signed_text, show_signed, show_unsigned, is_word,
}
use flightrec.Variables.Item.{Request, Answer, Reply, done, plain, reply_text}
use flightrec.Variables.Blocks.{is_compound}
use flightrec.Variables.Entry.{
  add_kind, add_scalar, scalar_text, add_resolved, add_var_entry, add_var_entry_lem,
}
use flightrec.Variables.Entry.Alias.{resolve_itself}

-- A byte has 256 values.
eight_bits : (m : ℕ) → 2 ^ (suc (suc (suc (suc (suc (suc (suc (suc m)))))))) ≡ 256 * 2 ^ m
eight_bits m = omega arith

pub pow_bytes : (n : ℕ) → 256 ^ n ≡ 2 ^ (8 * n)
pow_bytes zero = refl
pow_bytes (suc n) =
    pow-succ' 256 n
    ∙ ap (λ k. 256 * k) (pow_bytes n)
    ∙ sym (eight_bits (8 * n))
    ∙ ap (λ k. 2 ^ k) (omega arith)

above_poke :
    (code : Memory) (p n v : ℕ)
    → bytes (poke code p (suc n) v) (p + 1) n ≡ bytes (poke code (p + 1) n (v / 256)) (p + 1) n
unfolding poke
above_poke code p n v =
    bytes_cong (poke code p (suc n) v) (poke code (p + 1) n (v / 256)) (p + 1) n
      (λ i low high. if_false _ _ (test_ne i p (omega arith)))

-- The first bytes of a buffer with a number that was written are that number.
pub unsigned_of-poke :
    (code : Memory) (rest : List ℕ) (p n v : ℕ)
    → v < 256 ^ n
    → unsigned_of n (bytes (poke code p n v) p n ++ rest) ≡ v
unfolding unsigned_of bytes poke
unsigned_of-poke code rest p zero v l = omega arith
unsigned_of-poke code rest p (suc n) v l =
    let k : 256 ^ suc n ≡ 256 * 256 ^ n = pow-succ' 256 n in
    let here : poke code p (suc n) v p ≡ v % 256 = if_true _ _ (test_eq p p refl) in
    ap₂ (λ a b. a + 256 * b) here
      (ap (λ l. unsigned_of n (l ++ rest)) (above_poke code p n v)
        ∙ unsigned_of-poke code rest (p + 1) n (v / 256) (omega arith))
    ∙ omega arith

show_unsigned-number :
    (size : ℕ) (mem : List ℕ)
    → is_word size ≡ true
    → show_unsigned size mem ≡ number (unsigned_of size mem)
unfolding show_unsigned
show_unsigned-number size mem w = ground (arith, w)

show_signed-signed_text :
    (size : ℕ) (mem : List ℕ)
    → is_word size ≡ true
    → show_signed size mem ≡ signed_text size (unsigned_of size mem)
unfolding show_signed
show_signed-signed_text size mem w = ground (arith, w)

-- The text of an integer and the number of so many bytes that is its two's complement.
pub data Complement : ℕ → ℕ → Shown → Type 0 where
  positive : (size n : ℕ) → n < 2 ^ (8 * size - 1) → Complement size n (number n)
  negative :
      (size n m : ℕ) → m ≤ 2 ^ (8 * size - 1) → n + m ≡ 2 ^ (8 * size) → Complement size n (minus m)

signed_text_lem :
    (size n : ℕ) (text : Shown) → zero < size → Complement size n text → signed_text size n ≡ text
unfolding signed_text
signed_text_lem _ _ _ z (positive size n l) =
    if_true {b = ltb n (2 ^ (8 * size - 1))} _ _ (ground (arith, l))
signed_text_lem _ _ _ z (negative size n m l e) =
    let top : 2 ^ (8 * size) ≡ 2 * 2 ^ (8 * size - 1) =
      ap (λ k. 2 ^ k) (omega (arith, z)) ∙ pow-succ' 2 (8 * size - 1) in
    if_false {b = ltb n (2 ^ (8 * size - 1))} _ _ (ground (arith, l, e, top))
    ∙ ap minus (omega (arith, e))

-- What is shown of bytes that were read.
module _ (fuel : ℕ) (v : View) (q : Request) (answer : Answer) (row : TypeRow)
    (known : get_type_size v q.type ≡ some row) (direct : q.indirect ≡ 0) (mem : List ℕ)
    (reads : read_value v q.address row.size ≡ some mem) where
  -- A kind that is read as a number.
  add_scalar-read_value :
      (text : Shown)
      → leb tkind_signed (tkind row.flags) && leb (tkind row.flags) tkind_float ≡ true
      → scalar_text v q.type row mem ≡ some text
      → add_var_entry fuel v q answer ≡ (
        record { items = answer.items ++ (plain q.key.child text ∷ []); refs = answer.refs },
        done,
      )
  unfolding add_resolved add_kind add_scalar reply_text
  add_scalar-read_value text kind e =
      let plain_kind : row.flags ≢ tkind_alias = ground (arith, kind) in
      let shown = if q.indirect == 0 then tkind row.flags else tkind_pointer in
      let no_compound : is_compound shown ≡ false = ground (arith, kind, direct) in
      let no_pointer : (shown == tkind_pointer) ≡ false = ground (arith, kind, direct) in
      let no_array : (shown == tkind_array) ≡ false = ground (arith, kind, direct) in
      let scalar : ((leb tkind_signed (tkind row.flags) && leb (tkind row.flags) tkind_float)
            || (tkind row.flags == tkind_enum))
          ≡ true =
        ground (arith, kind) in
      add_var_entry_lem fuel v q answer row known
      ∙ ap (add_resolved v q answer) (resolve_itself fuel v q.type row plain_kind)
      ∙ ap
          (λ (r : Reply).
            (record { items = answer.items ++ (r.item ∷ []); refs = r.refs }, r.outcome))
          (if_false _ _ no_compound
            ∙ if_false _ _ no_pointer
            ∙ if_false _ _ no_array
            ∙ if_true _ _ scalar
            ∙ ap
                (λ o. elim o [
                  | none ↦ reply_text q.key.child answer.refs none
                  | some l ↦ reply_text q.key.child answer.refs (scalar_text v q.type row l)
                ])
                reads
            ∙ ap (reply_text q.key.child answer.refs) e)

  pub unsigned_read :
      tkind row.flags ≡ tkind_unsigned
      → is_word row.size ≡ true
      → add_var_entry fuel v q answer ≡ (
        record {
          items = answer.items ++ (plain q.key.child (number (unsigned_of row.size mem)) ∷ []);
          refs = answer.refs;
        },
        done,
      )
  unfolding scalar_text
  unsigned_read kind w =
      add_scalar-read_value (number (unsigned_of row.size mem)) (ground (arith, kind)) (
        if_false _ _ (test_ne (tkind row.flags) tkind_signed (omega (arith, kind)))
        ∙ if_true _ _ (test_eq (tkind row.flags) tkind_unsigned kind)
        ∙ ap some (show_unsigned-number row.size mem w))

  signed_read :
      (text : Shown)
      → Complement row.size (unsigned_of row.size mem) text
      → tkind row.flags ≡ tkind_signed
      → is_word row.size ≡ true
      → add_var_entry fuel v q answer ≡ (
        record { items = answer.items ++ (plain q.key.child text ∷ []); refs = answer.refs },
        done,
      )
  unfolding scalar_text
  signed_read text c kind w = add_scalar-read_value text (ground (arith, kind)) (
      if_true _ _ (test_eq (tkind row.flags) tkind_signed kind)
      ∙ ap some (
          show_signed-signed_text row.size mem w
          ∙ signed_text_lem row.size (unsigned_of row.size mem) text (ground (arith, w)) c))

module _ (fuel : ℕ) (v : View) (q : Request) (answer : Answer) (row : TypeRow)
    (known : get_type_size v q.type ≡ some row) (direct : q.indirect ≡ 0) (code : Memory)
    (value : ℕ) (a : IsAligned v.mem) (far : segment ≤ q.address)
    (fits : value < 2 ^ (8 * row.size))
    (s : Shows v.step v.mem (poke code q.address row.size value) q.address row.size)
    (opened : v.mem_ok ≡ true) (ended : v.mem_end ≡ true) where
  abbrev stored : List ℕ
  stored = bytes (poke code q.address row.size value) q.address row.size ++ (0 ∷ [])

  read_value-stored : read_value v q.address row.size ≡ some stored
  read_value-stored =
      ap₂ (λ b c. get_var_value b c v.mem q.address row.size v.step) opened ended
      ∙ get_var_value_exact v.step v.mem (poke code q.address row.size value) q.address row.size a
          far s

  unsigned_of-stored : unsigned_of row.size stored ≡ value
  unsigned_of-stored =
      unsigned_of-poke code (0 ∷ []) q.address row.size value
        (omega (arith, fits, pow_bytes row.size))

  -- If the rows show, at the variable, a memory into which a number that fits was written there, each row starts a segment,
  -- the variable is not in the first segment of memory, the query of its value succeeds, and its
  -- type, found under its own name, is unsigned, of 2, 4 or 8 bytes and without indirections, the entry succeeds: one item is
  -- added, with its name and that number, which cannot be expanded, and no reference.
  pub shown_unsigned :
      tkind row.flags ≡ tkind_unsigned
      → is_word row.size ≡ true
      → add_var_entry fuel v q answer ≡ (
        record {
          items = answer.items ++ (plain q.key.child (number value) ∷ []);
          refs = answer.refs;
        },
        done,
      )
  shown_unsigned kind w =
      unsigned_read fuel v q answer row known direct stored read_value-stored kind w
      ∙ ap
          (λ n. (
            record {
              items = answer.items ++ (plain q.key.child (number n) ∷ []);
              refs = answer.refs;
            },
            done,
          ))
          unsigned_of-stored

  -- If the rows show, at the variable, a memory into which the two's complement of an integer was
  -- written there, each row starts a segment, the variable is not in the first segment of memory,
  -- the query of its value succeeds, and its type, found under its own name, is signed, of 2, 4 or
  -- 8 bytes and without indirections, the entry succeeds: one item is added, with its name and that
  -- integer, which cannot be expanded, and no reference.
  pub shown_signed :
      (text : Shown)
      → Complement row.size value text
      → tkind row.flags ≡ tkind_signed
      → is_word row.size ≡ true
      → add_var_entry fuel v q answer ≡ (
        record { items = answer.items ++ (plain q.key.child text ∷ []); refs = answer.refs },
        done,
      )
  shown_signed text c kind w =
      signed_read fuel v q answer row known direct stored read_value-stored text
        (subst (λ n. Complement row.size n text) (sym unsigned_of-stored) c) kind w
