-- ===== src/Variables/Item.antt =====
-- examine/vars.c: what `add_var_entry` is asked for and what it answers. The JSON calls, which only
-- build the answer, are the fields of a record.
use flightrec.Prelude.{ℕ, List, Option, none, some}
use flightrec.References.{Key, RefTable}
use flightrec.Variables.{Shown, type_text}

-- The JSON object of one variable.
pub record Item : Type 0 where
  pub name : ℕ
  pub value : Option Shown
  pub reference : Option ℕ
  pub named : Option ℕ
  pub indexed : Option ℕ

pub data Outcome : Type 0 where
  done failed undefined endless : Outcome

-- The container, and the table of references.
pub record Answer : Type 0 where
  pub items : List Item
  pub refs : RefTable

-- What is shown: the parent, the name, the address, the type and its indirections.
pub record Request : Type 0 where
  pub key : Key
  pub address : ℕ
  pub type : ℕ
  pub indirect : ℕ

abbrev pub only_name : ℕ → Item
only_name n = record { name = n; value = none; reference = none; named = none; indexed = none }

-- An item that cannot be expanded.
abbrev pub plain : ℕ → Shown → Item
plain n text = record (only_name n) { value = some text; reference = some 0 }

-- The item, the table of references and how the call ends. Behind the declaration of a second `ret`,
-- RETCLEAN(FAILURE) sets that one, and the function returns the SUCCESS of the first: `done`.
pub record Reply : Type 0 where
  pub item : Item
  pub refs : RefTable
  pub outcome : Outcome

abbrev pub kind_name : Request → Shown
kind_name q = type_text q.type q.indirect

-- An item whose value cannot be found: the text, if there is one, else only the name.
unfoldable pub reply_text : ℕ → RefTable → Option Shown → Reply
reply_text n refs none = record { item = only_name n; refs = refs; outcome = done }
reply_text n refs (some text) = record { item = plain n text; refs = refs; outcome = done }
