-- ===== src/Run/Debugged/Tests.antt =====
-- A number in the debugger's panel, from a stop of the recorded program.
use flightrec.Prelude.{◌≡◌, refl, [], ◌∷◌, ◌++◌, some, arith}
use flightrec.Query.{where_rows}
use flightrec.Lookup.Samples.{line_at, util_unit, two_units, two_units-IsCache}
use flightrec.Memcache.Samples.{
  one_nine, sevens-IsBytes, one_nine-IsBytes, any_cpu, first_rows, first-Follows, first_region,
  first-In, first_start, first_end, all_dirty, first-Reported,
}
use flightrec.Run.{peek}
use flightrec.Run.Samples.{stop_at_50, recorder, trapped_code}
use flightrec.Run.Debugged.{sent, stop_shows_number}
use flightrec.Variables.{View, get_type_size, number}
use flightrec.Variables.Item.{Request, Answer, done, plain}
use flightrec.Variables.Entry.{add_var_entry}
use flightrec.Variables.Samples.{view_of}

abbrev no_answer : Answer
no_answer = record { items = []; refs = record { rows = []; next_id = 1 } }

-- The debugger's tables after this stop, and a variable of four bytes in the region.
abbrev view_at_50 : View
view_at_50 =
    record (view_of (
      first_rows
      ++ sent any_cpu two_units two_units-IsCache 1 1 util_unit (line_at 50) 0 refl refl stop_at_50
          refl recorder (omega arith) (omega arith) one_nine-IsBytes sevens-IsBytes first_rows
          first-Follows refl (λ e. omega arith) refl first-Reported all_dirty first_region first-In
          trapped_code)) { step = 2 }

abbrev var_at_4098 : Request
var_at_4098 = record {
  key = record { parent_type = 1; parent = 2; child = 30 };
  address = 4098;
  type = 5;
  indirect = 0;
}

type_at_50 :
    get_type_size view_at_50 5
    ≡ some (record { offset = 5; size = 4; dim = 0; flags = 2; parent = 0 })
unfolding get_type_size where_rows
type_at_50 = refl

stop_shows_number_example : add_var_entry 0 view_at_50 var_at_4098 no_answer ≡ (
  record { items = plain 30 (number (peek one_nine 4098 4)) ∷ []; refs = no_answer.refs },
  done,
)
stop_shows_number_example =
    stop_shows_number any_cpu two_units two_units-IsCache 1 1 util_unit (line_at 50) 0 refl refl
      stop_at_50 refl recorder (omega arith) (omega arith) one_nine-IsBytes sevens-IsBytes
      first_rows first-Follows refl (λ e. omega arith) refl first-Reported all_dirty first_region
      first-In trapped_code 0 view_at_50 var_at_4098 no_answer
      (record { offset = 5; size = 4; dim = 0; flags = 2; parent = 0 }) refl refl refl refl
      type_at_50 refl refl refl (omega (arith, first_start)) (omega (arith, first_end))
