-- ===== src/References.antt =====
-- examine/vars.c: `get_var_ref`, which numbers the variables and parts of variables that the
-- debugger shows. The statements on the table `local.ref` are written out; names are numbers.
pub mod Stable
use flightrec.Prelude.{
  ℕ, ◌+◌, List, [], ◌∷◌, ◌++◌, Bool, not, ◌&&◌, Option, none, some, ◌==◌, if◌then◌else◌,
}
use flightrec.Query.{where_rows, first_row}

-- What a reference is for: UNIQUE (parent_type, parent, child).
pub record Key : Type 0 where
  pub parent_type : ℕ
  pub parent : ℕ
  pub child : ℕ

-- What it refers to.
pub record Target : Type 0 where
  pub address : ℕ
  pub type : ℕ
  pub indirect : ℕ

pub record RefRow : Type 0 where
  pub id : ℕ
  pub key : Key
  pub target : Target

-- The rows, and the id that AUTOINCREMENT gives next.
pub record RefTable : Type 0 where
  pub rows : List RefRow
  pub next_id : ℕ

abbrev pub same_key : Key → Key → Bool
same_key a b = (a.parent_type == b.parent_type) && ((a.parent == b.parent) && (a.child == b.child))

-- SELECT id WHERE parent_type = ? AND parent = ? AND child = ?
unfoldable pub find_ref : Key → List RefRow → Option RefRow
unfolding where_rows
find_ref key rows = first_row (where_rows (λ r. same_key r.key key) rows)

-- UPDATE local.ref SET address = ?, type = ?, indirect = ? WHERE id = ?
abbrev pub with_target : Target → ℕ → RefRow → RefRow
with_target target id r = if r.id == id then record r { target = target } else r

unfoldable pub update_ref : Target → ℕ → List RefRow → List RefRow
update_ref target id [] = []
update_ref target id (r ∷ rows) = with_target target id r ∷ update_ref target id rows

-- The flags say whether the SELECT, the UPDATE and the INSERT succeed. The table, and the reference;
-- `none` is FAILURE.
unfoldable pub get_var_ref : Bool → Bool → Bool → Key → Target → RefTable → RefTable × Option ℕ
unfolding find_ref update_ref
get_var_ref select_ok update_ok insert_ok key target table =
    if not select_ok then (table, none) else elim (find_ref key table.rows) [
      | some r ↦
          if update_ok
          then (record table { rows = update_ref target r.id table.rows }, some r.id)
          else (table, none)
      | none ↦
          if insert_ok
          then (
            record {
              rows = table.rows ++ (record { id = table.next_id; key = key; target = target } ∷ []);
              next_id = table.next_id + 1;
            },
            some table.next_id,
          )
          else (table, none)
    ]
