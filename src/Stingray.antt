-- ===== src/Stingray.antt =====
-- stingray/stingray.c: strings that keep their length and grow, without the printing of values.
-- A string that is the source of its own copy is not modelled.
pub mod Content
mod Tests
use flightrec.Prelude.{
  ℕ, zero, suc, ◌+◌, ◌-◌, ◌^◌, List, [], ◌∷◌, Bool, true, false, ◌||◌, ◌&&◌, not, Option, none,
  some, ltb, leb, ◌==◌, if◌then◌else◌, get_elem?, length,
}
use flightrec.Memory.{Memory}

-- `struct sr`.
pub record Sr : Type 0 where
  pub val : Memory
  pub size : ℕ
  pub len : ℕ

-- STR_NATIVE and STR_SR: a C string by its characters, without the 0 behind them.
pub data Source : Type 0 where
  native : List ℕ → Source
  managed : Sr → Source

abbrev pub extend : ℕ
extend = 64

abbrev pub size_max : ℕ
size_max = 2 ^ 64 - 1

-- The bytes that a C string points to.
abbrev pub chars : List ℕ → Memory
chars text i = elim (get_elem? text i) [ none ↦ 0 | some c ↦ c ]

-- Whether there is a 0 among the first `i` bytes.
unfoldable pub ended : Memory → ℕ → Bool
ended src zero = false
ended src (suc i) = let before = ended src i in before || (src i == 0)

-- `strncpy` of `n` bytes to the place `p`: behind the first 0 of the source, zeros are written.
unfoldable pub strncpy : Memory → ℕ → Memory → ℕ → Memory
unfolding ended
strncpy val p src n i =
    if leb p i && ltb i (p + n) then (if ended src (i - p) then 0 else src (i - p)) else val i

abbrev pub put : Memory → ℕ → ℕ → Memory
put val p byte = λ i. if i == p then byte else val i

-- `struct_ok` and `val_ok` say whether the calls of `malloc` succeed; `fresh` is what the new memory
-- holds.
unfoldable pub sr_new : Bool → Bool → Memory → List ℕ → ℕ → Option Sr
unfolding strncpy
sr_new struct_ok val_ok fresh initval initsize =
    let len = length initval in
    let enough = if leb initsize len then len + 1 else initsize in
    let allocated = if ltb enough extend then extend else enough in
    if not (struct_ok && val_ok)
    then none
    else some (record {
      val = put (strncpy (put fresh 0 0) 0 (chars initval) len) len 0;
      size = allocated;
      len = len;
    })

-- `none` means that the process exits, since `realloc` fails.
unfoldable pub sr_ensure_size : Bool → Sr → ℕ → ℕ → Option Sr
sr_ensure_size realloc_ok str minsize more =
    if ltb str.size minsize
    then (if realloc_ok
        then some (record str {
          size = if ltb minsize (str.size + more) then str.size + more else minsize;
        })
        else none)
    else some str

-- How many bytes of the source are used, and where they are.
unfoldable pub source_len : Source → ℕ → ℕ
source_len (native text) max = if max == size_max then length text else max
source_len (managed s) max = if ltb max s.len then max else s.len

abbrev pub source_val : Source → Memory
source_val (native text) = chars text
source_val (managed s) = s.val

unfoldable pub sr_copy : Bool → Sr → Source → ℕ → Option Sr
unfolding sr_ensure_size source_len strncpy
sr_copy realloc_ok dest source max =
    let len = source_len source max in
    elim (sr_ensure_size realloc_ok dest (len + 1) extend) [
      | none ↦ none
      | some d ↦ some (record {
        val = put (strncpy d.val 0 (source_val source) len) len 0;
        size = d.size;
        len = len;
      })
    ]

unfoldable pub sr_cat : Bool → Sr → Source → ℕ → Option Sr
unfolding sr_ensure_size source_len strncpy
sr_cat realloc_ok dest source max =
    let len = source_len source max in
    elim (sr_ensure_size realloc_ok dest (dest.len + len + 1) extend) [
      | none ↦ none
      | some d ↦ some (record {
        val = put (strncpy d.val d.len (source_val source) len) (d.len + len) 0;
        size = d.size;
        len = d.len + len;
      })
    ]
