-- ===== src/Stingray/Tests.antt =====
-- A string of two characters, and two more of a C string.
use flightrec.Prelude.{
  ℕ, zero, suc, ◌<◌, ◌≡◌, ◌≢◌, List, [], ◌∷◌, ◌++◌, true, some, arith, ◌==◌, if◌then◌else◌,
}
use flightrec.Memory.{Memory, bytes}
use flightrec.Stingray.{Sr, native, source_len, source_val, sr_cat, size_max}
use flightrec.Stingray.Content.{IsSr, content, sr_cat_appends}

abbrev xy : List ℕ
xy = 120 ∷ 121 ∷ []

abbrev fresh : Memory
fresh = λ i. 1

xy-IsPlain : (i : ℕ) → i < source_len (native xy) size_max → source_val (native xy) i ≢ 0
unfolding source_len
xy-IsPlain zero h e = omega arith
xy-IsPlain (suc zero) h e = omega arith
xy-IsPlain (suc (suc i)) h e = omega arith

abbrev ab_string : Sr
ab_string = record {
  val = λ i. if i == 0 then 97 else if i == 1 then 98 else 0;
  size = 64;
  len = 2;
}

sr_cat_appends_example :
    (d : Sr) × (sr_cat true ab_string (native xy) size_max ≡ some d)
    × IsSr d
    × (content d
        ≡ content ab_string ++ bytes (source_val (native xy)) 0 (source_len (native xy) size_max))
sr_cat_appends_example = sr_cat_appends ab_string (native xy) size_max xy-IsPlain
