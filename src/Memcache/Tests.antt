-- ===== src/Memcache/Tests.antt =====
-- The theorems on the cache at a region of one page, at 4096, that holds 7 everywhere; later the program
-- writes 9 at 4100.
use flightrec.Prelude.{
  ◌≡◌, refl, ap, [], ◌∷◌, true, false, none, Option, ℕ, sym, ◌∙◌, some, arith, inl, inr,
}
use flightrec.Memcache.Start.{
  MapLine, same_text, heap_name, is_followed, init_cache, LinesFit, init_cache-Follows,
}
use flightrec.Memcache.Samples.{sevens, sevens-IsBytes}
use flightrec.Memcache.Follows.{Follows}

-- A line for the heap, from 4096 to 8192, and one of a library, which is not followed.
abbrev heap_line : MapLine
heap_line = record {
  fields = [] ∷ (114 ∷ []) ∷ [] ∷ [] ∷ [] ∷ heap_name ∷ [];
  range = some (4096, 8192);
  count = 4096;
}

abbrev library_line : MapLine
library_line = record {
  fields = [] ∷ (114 ∷ []) ∷ [] ∷ [] ∷ [] ∷ (47 ∷ []) ∷ [];
  range = some (12288, 16384);
  count = 4096;
}

heap_followed : is_followed [] heap_line ≡ true
unfolding is_followed same_text
heap_followed = refl

library_ignored : is_followed [] library_line ≡ false
unfolding is_followed same_text
library_ignored = refl

lines_fit :
    LinesFit sevens sevens sevens-IsBytes sevens-IsBytes [] (heap_line ∷ library_line ∷ []) []
lines_fit = (
  λ head tail e read.
      let h : 4096 ≡ head = ap (λ (o : Option (ℕ × ℕ)). elim o [ none ↦ 0 | some p ↦ p.0 ]) read in
      let t : 8192 ≡ tail = ap (λ (o : Option (ℕ × ℕ)). elim o [ none ↦ 0 | some p ↦ p.1 ]) read in
      (
        record {
          first = omega arith;
          whole = omega arith;
          some_page = omega arith;
          mapped = omega arith;
          apart = λ r m. elim m [ ];
          all = omega arith;
        },
        (
          λ head' tail' e' read'. let bad : true ≡ false = sym e' ∙ library_ignored in absurd (cc),
          λ other. tt,
        ),
      ),
  λ other. elim other [
    | inl e ↦ let bad : true ≡ false = sym heap_followed ∙ e in absurd (cc)
    | inr e ↦ absurd (cc)
  ],
)

init_cache-Follows_example :
    Follows 1
      (init_cache true true sevens sevens [] (heap_line ∷ library_line ∷ [])).1
      (init_cache true true sevens sevens [] (heap_line ∷ library_line ∷ [])).2
init_cache-Follows_example =
    init_cache-Follows sevens sevens sevens-IsBytes sevens-IsBytes [] true true
      (heap_line ∷ library_line ∷ []) lines_fit
