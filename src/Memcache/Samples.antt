-- ===== src/Memcache/Samples.antt =====
-- One region of one page, at 4096, that holds 7 everywhere; later the program writes 9 at 4100.
use flightrec.Prelude.{
  ℕ, ◌≡◌, refl, ap, List, [], ◌∷◌, true, false, arith, inl, inr, ◌==◌, if◌then◌else◌,
}
use flightrec.Query.{In}
use flightrec.Memory.{Memory, MemMsg}
use flightrec.Memdiff.{Cpu}
use flightrec.Memdiff.Ranges.{IsBytes}
use flightrec.Memcache.{Region, cache_add_region, after_read, insert_region}
use flightrec.Memcache.Follows.{Follows}
use flightrec.Memcache.History.{Reported, IsComplete}
use flightrec.Memcache.Added.{cache_add_region-Follows}

abbrev pub sevens : Memory
sevens = λ i. 7

abbrev pub one_nine : Memory
one_nine = λ i. if i == 4100 then 9 else 7

pub sevens-IsBytes : IsBytes sevens
sevens-IsBytes i = omega arith

pub one_nine-IsBytes : IsBytes one_nine
one_nine-IsBytes i = ground arith

abbrev pub any_cpu : Cpu
any_cpu = record { avx512dq = false; avx2 = true; sse2 = true }

pub nothing-Follows : Follows 1 [] []
nothing-Follows = record {
  sorted = tt;
  aligned = λ m i. elim i [ ];
  past = λ m i. elim i [ ];
  shows = λ r m. elim m [ ];
}

unfoldable pub first_cache : List Region
first_cache = (cache_add_region sevens sevens 4096 [] 4096 4096 1).0

unfoldable pub first_rows : List MemMsg
first_rows = (cache_add_region sevens sevens 4096 [] 4096 4096 1).1

pub first-Follows : Follows 1 first_cache first_rows
unfolding first_cache first_rows
first-Follows =
    cache_add_region-Follows sevens sevens sevens-IsBytes sevens-IsBytes 1 1 (omega arith) [] []
      nothing-Follows 4096 4096 4096 refl refl (omega arith) (omega arith) (λ r m. elim m [ ])
      (omega arith)

unfoldable pub first_region : Region
first_region = record { start = 4096; end = 8192; pages = after_read 4096 sevens sevens 4096 }

pub first-In : In first_region first_cache
unfolding first_cache first_region cache_add_region insert_region
first-In = inl refl

pub first_start : first_region.start ≡ 4096
unfolding first_region
first_start = refl

pub first_end : first_region.end ≡ 8192
unfolding first_region
first_end = refl

pub first_only : (r : Region) → In r first_cache → r ≡ first_region
unfolding first_cache first_region cache_add_region insert_region
first_only r m = elim m [ inl e ↦ e | inr n ↦ elim n [ ] ]

pub all_dirty : IsComplete ((4100, 4096) ∷ [])
all_dirty d i = elim i [ inl e ↦ ap (λ (x : ℕ × ℕ). x.1) e | inr n ↦ elim n [ ] ]

pub first-Reported : Reported one_nine first_cache ((4100, 4096) ∷ [])
first-Reported r m i l u =
    let e = first_only r m in
    inr (
      (4100, 4096),
      inl refl,
      omega (
        arith,
        ap (λ (x : Region). x.start) e,
        ap (λ (x : Region). x.end) e,
        first_start,
        first_end,
      ),
    )
