-- ===== src/Dab.antt =====
-- dab/dab.c: the layer over SQLite. A variadic call is a list of arguments with their types; numbers
-- are their bits, and a dynamic string is its content. What SQLite makes of a column that is read
-- as another type is an interface, `Columns`, and which of its calls succeed is given. The connection
-- of a thread is the state.
pub mod RoundTrip
mod Tests
use flightrec.Prelude.{
  ℕ, zero, suc, ◌+◌, ◌-◌, ◌*◌, ◌%◌, ◌^◌, List, [], ◌∷◌, Bool, true, false, not, ◌&&◌, Option, none,
  some, ltb, ◌==◌, if◌then◌else◌,
}

-- DAB_OK, DAB_FAIL, DAB_NO_DATA, DAB_INVALID and DAB_UNEXPECTED.
pub data Status : Type 0 where
  dab_ok fail no_data invalid unexpected : Status

-- GEN_DATATYPE_XXX of the integers.
pub data IntKind : Type 0 where
  chr uchr shrt ushrt int uint lng ulng llng ullng : IntKind

pub data ArgKind : Type 0 where
  integer_kind : IntKind → ArgKind
  str_kind flt_kind dbl_kind sr_kind other_kind : ArgKind

pub data Arg : Type 0 where
  integer : IntKind → ℕ → Arg
  str : Option (List ℕ) → Arg
  flt dbl : ℕ → Arg
  sr : List ℕ → Arg
  other : Arg

-- What SQLite stores: integers of 64 bits, doubles by their bits, texts.
pub data Column : Type 0 where
  null_column : Column
  integer_column real_column : ℕ → Column
  text_column : List ℕ → Column

-- Reading a column as some type, and the processor's conversions between float and double.
pub record Columns : Type 0 where
  pub as_integer : Column → ℕ
  pub as_real : Column → ℕ
  pub as_text : Column → Option (List ℕ)
  pub as_blob : Column → List ℕ
  pub widen : ℕ → ℕ
  pub narrow : ℕ → ℕ

unfoldable pub bits : IntKind → ℕ
bits chr = 8
bits uchr = 8
bits shrt = 16
bits ushrt = 16
bits int = 32
bits uint = 32
bits lng = 64
bits ulng = 64
bits llng = 64
bits ullng = 64

unfoldable pub is_signed : IntKind → Bool
is_signed chr = true
is_signed shrt = true
is_signed int = true
is_signed lng = true
is_signed llng = true
is_signed uchr = false
is_signed ushrt = false
is_signed uint = false
is_signed ulng = false
is_signed ullng = false

-- A signed number of `from` bits as one of `to` bits.
abbrev pub sign_extend : ℕ → ℕ → ℕ → ℕ
sign_extend from to n = if ltb n (2 ^ (from - 1)) then n else n + (2 ^ to - 2 ^ from)

-- The default promotions make an `int` of the short types, and `sqlite3_bind_int` takes an `int`
-- also where the argument is an `unsigned int`.
unfoldable pub stored : IntKind → ℕ → ℕ
unfolding bits is_signed
stored k n =
    if bits k == 64
    then n
    else sign_extend 32 64 (if is_signed k then sign_extend (bits k) 32 n else n)

-- `sqlite3_column_int` takes the low 32 bits, and the assignment those of the type.
unfoldable pub fetched : IntKind → ℕ → ℕ
unfolding bits
fetched k n = if bits k == 64 then n else n % 2 ^ 32 % 2 ^ bits k

unfoldable pub bind_column : Columns → Arg → Option Column
unfolding stored
bind_column c (integer k n) = some (integer_column (stored k n))
bind_column c (str none) = some null_column
bind_column c (str (some text)) = some (text_column text)
bind_column c (flt n) = some (real_column (c.widen n))
bind_column c (dbl n) = some (real_column n)
bind_column c (sr content) = some (text_column content)
bind_column c other = none

-- The loop over the arguments behind `index` of them; SQLite refuses an index above the number of
-- placeholders, and `works` says what else succeeds.
unfoldable pub cursor_bind_from : Columns → (ℕ → Bool) → ℕ → ℕ → List Arg → Status × List Column
unfolding bind_column
cursor_bind_from c works count index [] = (if count == index then dab_ok else invalid, [])
cursor_bind_from c works count index (arg ∷ args) =
    let (status, columns) = cursor_bind_from c works count (index + 1) args in
    elim (bind_column c arg) [
      | none ↦ (invalid, [])
      | some column ↦
          if ltb count (index + 1)
          then (fail, [])
          else if not (works (index + 1))
          then (fail, [])
          else (status, column ∷ columns)
    ]

abbrev pub cursor_bind : Columns → (ℕ → Bool) → ℕ → List Arg → Status × List Column
cursor_bind c works count args = cursor_bind_from c works count 0 args

-- A statement's next row.
pub data StepResult : Type 0 where
  row : List Column → StepResult
  step_done step_error : StepResult

unfoldable pub fetch_column : Columns → ArgKind → Column → Option Arg
unfolding fetched
fetch_column c (integer_kind k) column = some (integer k (fetched k (c.as_integer column)))
fetch_column c str_kind column = some (str (c.as_text column))
fetch_column c flt_kind column = some (flt (c.narrow (c.as_real column)))
fetch_column c dbl_kind column = some (dbl (c.as_real column))
fetch_column c sr_kind column = some (sr (c.as_blob column))
fetch_column c other_kind column = none

-- A column behind the last one is read as NULL.
unfoldable pub fetch_columns : Columns → List ArgKind → List Column → Status × List Arg
unfolding fetch_column
fetch_columns c [] columns = (dab_ok, [])
fetch_columns c (kind ∷ kinds) columns =
    let column = elim columns as (λ x. Column) [ [] ↦ null_column | first ∷ others ↦ first ] in
    let rest = elim columns as (λ x. List Column) [ [] ↦ [] | first ∷ others ↦ others ] in
    let (status, args) = fetch_columns c kinds rest in
    elim (fetch_column c kind column) [ none ↦ (invalid, []) | some arg ↦ (status, arg ∷ args) ]

unfoldable pub dab_cursor_fetch : Columns → Bool → StepResult → List ArgKind → Status × List Arg
unfolding fetch_columns
dab_cursor_fetch c stmt step kinds = if not stmt then (invalid, []) else elim step [
  | step_done ↦ (no_data, [])
  | step_error ↦ (fail, [])
  | row columns ↦ fetch_columns c kinds columns
]

-- `db` says whether the connection is open, `prepare` whether the statement is prepared.
unfoldable pub sql_common : Columns → Bool → Bool → (ℕ → Bool) → ℕ → List Arg → Status × List Column
unfolding cursor_bind_from
sql_common c db prepare works count args =
    if not db
    then (invalid, [])
    else if not prepare
    then (fail, [])
    else cursor_bind c works count args

unfoldable pub dab_exec :
    Columns → Bool → Bool → Bool → (ℕ → Bool) → ℕ → List Arg → StepResult → Status
unfolding sql_common
dab_exec c text db prepare works count args step =
    if not text then invalid else elim (sql_common c db prepare works count args).0 [
      | dab_ok ↦ elim step [ step_done ↦ dab_ok | row columns ↦ unexpected | step_error ↦ fail ]
      | fail ↦ fail
      | no_data ↦ no_data
      | invalid ↦ invalid
      | unexpected ↦ unexpected
    ]

abbrev pub dab_cursor_open :
    Columns → Bool → Bool → Bool → (ℕ → Bool) → ℕ → List Arg → Status × List Column
dab_cursor_open c text db prepare works count args =
    if not text then (invalid, []) else sql_common c db prepare works count args

-- The connection: whether it is open, and whether no transaction is.
pub record Db : Type 0 where
  pub handle : Bool
  pub autocommit : Bool

unfoldable pub dab_begin : Bool → Db → Status × Db
dab_begin works db =
    if not db.handle
    then (invalid, db)
    else if not db.autocommit
    then (dab_ok, db)
    else if works
    then (dab_ok, record db { autocommit = false })
    else (fail, db)

-- SQLite refuses a COMMIT and a ROLLBACK outside a transaction.
abbrev pub end_transaction : Bool → Db → Status × Db
end_transaction works db =
    if not db.handle
    then (invalid, db)
    else if works && not db.autocommit
    then (dab_ok, record db { autocommit = true })
    else (fail, db)

unfoldable pub dab_commit : Bool → Db → Status × Db
dab_commit works db = end_transaction works db

unfoldable pub dab_rollback : Bool → Db → Status × Db
dab_rollback works db = end_transaction works db
