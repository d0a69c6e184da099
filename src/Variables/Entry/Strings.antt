-- ===== src/Variables/Entry/Strings.antt =====
-- Arrays of characters are shown as strings.
use mathlib.Core.Path.{ap₂}
use flightrec.Prelude.{
  ℕ, zero, suc, ◌+◌, ◌≤◌, ◌<◌, ◌≡◌, ◌≢◌, refl, ◌∙◌, ap, [], ◌∷◌, ◌++◌, true, false, none, some,
  ◌==◌, if◌then◌else◌, if_true, if_false, arith, length, take, test_eq, test_ne,
}
use flightrec.Memory.{Memory, segment, bytes, length-bytes}
use flightrec.VarValue.{get_var_value}
use flightrec.VarValue.Exact.{IsAligned, Shows, get_var_value_exact}
use flightrec.Variables.{
  TypeRow, View, Shown, get_type_size, tkind, tkind_array, tkind_pointer, tkind_func, whole_string,
  cut_string,
}
use flightrec.Variables.Item.{Request, Answer, Reply, done, failed, only_name, plain}
use flightrec.Variables.Blocks.{
  is_compound, is_text, until_zero, string_text, add_string, add_items, add_array,
}
use flightrec.Variables.Entry.{add_kind, add_resolved, add_var_entry, add_var_entry_lem}
use flightrec.Variables.Entry.Alias.{resolve_itself}

-- The text of at most `limit` characters at an address has `n`: it ends there with a 0, unless the limit does.
pub record IsText (img : Memory) (p n limit : ℕ) : Type 0 where
  pub fits : n ≤ limit
  pub inside : (i : ℕ) → i < n → img (p + i) ≢ 0
  pub closed : n < limit → img (p + n) ≡ 0

pub until_zero-bytes :
    (img : Memory) (p n limit : ℕ)
    → IsText img p n limit
    → until_zero (bytes img p limit) ≡ bytes img p n
unfolding until_zero bytes
until_zero-bytes img p zero zero t = refl
until_zero-bytes img p (suc n) zero t = absurd (omega (arith, t.fits))
until_zero-bytes img p zero (suc limit) t =
    if_true _ _ (test_eq (img p) 0 (ap img (omega arith) ∙ t.closed (omega arith)))
until_zero-bytes img p (suc n) (suc limit) t =
    let first : img p ≢ 0 = λ e. t.inside 0 (omega arith) (ap img (omega arith) ∙ e) in
    if_false _ _ (test_ne (img p) 0 first)
    ∙ ap (λ l. img p ∷ l)
        (until_zero-bytes img (p + 1) n limit record {
          fits = omega (arith, t.fits);
          inside = λ i l e. t.inside (suc i) (omega arith) (ap img (omega arith) ∙ e);
          closed = λ l. ap img (omega arith) ∙ t.closed (omega arith);
        })

-- How a text of `n` characters is printed.
abbrev pub printed : Memory → ℕ → ℕ → ℕ → Shown
printed img p n limit =
    if n == limit then cut_string p (bytes img p n) else whole_string p (bytes img p n)

take_front : (img : Memory) (p n : ℕ) → take n (bytes img p n ++ (0 ∷ [])) ≡ bytes img p n
unfolding bytes
take_front img p zero = refl
take_front img p (suc n) = ap (λ l. img p ∷ l) (take_front img (p + 1) n)

pub string_text-bytes :
    (img : Memory) (p n limit : ℕ)
    → IsText img p n limit
    → string_text p limit (bytes img p limit ++ (0 ∷ [])) ≡ printed img p n limit
unfolding string_text
string_text-bytes img p n limit t =
    ap (λ l. if length l == limit then cut_string p l else whole_string p l)
      (ap until_zero (take_front img p limit) ∙ until_zero-bytes img p n limit t)
    ∙ ap (λ k. if k == limit then cut_string p (bytes img p n) else whole_string p (bytes img p n))
        (length-bytes img p n)

module _ (fuel : ℕ) (v : View) (q : Request) (answer : Answer) (row base : TypeRow) (img : Memory)
    (n : ℕ) (known : get_type_size v q.type ≡ some row)
    (items : get_type_size v row.parent ≡ some base) (direct : q.indirect ≡ 0)
    (kind : tkind row.flags ≡ tkind_array) (chars : is_text base.size (tkind base.flags) ≡ true)
    (a : IsAligned v.mem) (far : segment ≤ q.address) (s : Shows v.step v.mem img q.address 32)
    (opened : v.mem_ok ≡ true) (ended : v.mem_end ≡ true) (t : IsText img q.address n 32) where
  shown_text : add_string v q.address 32 (only_name q.key.child) answer.refs ≡ record {
    item = plain q.key.child (printed img q.address n 32);
    refs = answer.refs;
    outcome = done;
  }
  unfolding add_string
  shown_text =
      let fetched =
        ap₂ (λ b c. get_var_value b c v.mem q.address 32 v.step) opened ended
        ∙ get_var_value_exact v.step v.mem img q.address 32 a far s in
      ap
        (λ o. elim o as (λ x. Reply) [
          | none ↦ record { item = only_name q.key.child; refs = answer.refs; outcome = done }
          | some mem ↦ record {
            item = plain q.key.child (string_text q.address 32 mem);
            refs = answer.refs;
            outcome = done;
          }
        ])
        fetched
      ∙ ap
          (λ (x : Shown). record { item = plain q.key.child x; refs = answer.refs; outcome = done })
          (string_text-bytes img q.address n 32 t)

  array_text :
      add_array v q q.address 0 q.type row row.dim (only_name q.key.child) answer.refs
      ≡ add_string v q.address 32 (only_name q.key.child) answer.refs
  unfolding add_array add_items
  array_text =
      let no_function : (tkind base.flags == tkind_func) ≡ false = ground (arith, chars) in
      if_true _ _ (test_eq q.indirect 0 direct)
      ∙ ap
          (λ o. elim o as (λ x. Reply) [
            | none ↦ record { item = only_name q.key.child; refs = answer.refs; outcome = failed }
            | some b ↦
                add_items v q q.address 0 q.type row row.dim b (only_name q.key.child) answer.refs
          ])
          items
      ∙ if_false _ _ no_function
      ∙ if_true _ _ chars

  -- If the type, found under its own name, is an array of characters of one byte, without indirections, the rows show a
  -- memory at the first 32 bytes of it, each row starts a segment, the variable is not in the first
  -- segment of memory and the query succeeds, one item is added: the characters up to the first 0,
  -- and at most 32, whatever the length of the array is.
  pub shown_array : add_var_entry fuel v q answer ≡ (
    record {
      items = answer.items ++ (plain q.key.child (printed img q.address n 32) ∷ []);
      refs = answer.refs;
    },
    done,
  )
  unfolding add_resolved add_kind
  shown_array =
      let shown = if q.indirect == 0 then tkind row.flags else tkind_pointer in
      let no_compound : is_compound shown ≡ false = ground (arith, kind, direct) in
      let no_pointer : (shown == tkind_pointer) ≡ false = ground (arith, kind, direct) in
      let array : (shown == tkind_array) ≡ true = ground (arith, kind, direct) in
      add_var_entry_lem fuel v q answer row known
      ∙ ap (add_resolved v q answer) (resolve_itself fuel v q.type row (ground (arith, kind)))
      ∙ ap
          (λ (r : Reply).
            (record { items = answer.items ++ (r.item ∷ []); refs = r.refs }, r.outcome))
          (if_false _ _ no_compound
            ∙ if_false _ _ no_pointer
            ∙ if_true _ _ array
            ∙ array_text
            ∙ shown_text)
