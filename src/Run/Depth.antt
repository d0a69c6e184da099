-- ===== src/Run/Depth.antt =====
-- The depths that the stops record: those of the nested calls of functions.
use mathlib.Core.Path.{subst}
use flightrec.Prelude.{ℕ, suc, ◌+◌, ◌<◌, ◌≡◌, ◌≢◌, ◌∙◌, List, [], ◌∷◌, ◌++◌, arith}
use flightrec.Lookup.{CachedLine, word}
use flightrec.Run.{Recorder, enter, leave, func_flag_start, func_flag_end}

-- What the program runs through in a function: statements, and calls of functions, each from the
-- first statement of the function to its last.
pub data Body : Type 0 where
  done : Body
  plain : CachedLine → Body → Body
  call : CachedLine → Body → CachedLine → Body → Body

-- The flags are those of the statements' places.
abbrev pub IsFlagged : Body → Type 0
IsFlagged done = Unit {0}
IsFlagged (plain l rest) =
    (l.func_flag ≢ func_flag_start) × (l.func_flag ≢ func_flag_end) × IsFlagged rest
IsFlagged (call s body e rest) =
    (s.func_flag ≡ func_flag_start)
    × (e.func_flag ≡ func_flag_end)
    × IsFlagged body
    × IsFlagged rest

-- How deep the calls go.
abbrev pub height : Body → ℕ
height done = 0
height (plain l rest) = height rest
height (call s body e rest) = suc (height body) + height rest

-- Statements with the depth of the function that they are in, which itself is at depth `d`.
abbrev pub nested : ℕ → Body → List (CachedLine × ℕ)
nested d done = []
nested d (plain l rest) = (l, d) ∷ nested d rest
nested d (call s body e rest) = (s, d + 1) ∷ (nested (d + 1) body ++ ((e, d + 1) ∷ nested d rest))

-- From one stop to the next, the variables go through `enter` and `leave`; the stop records the
-- depth in between.
pub data Stops : Recorder → List (CachedLine × ℕ) → Recorder → Type 0 where
  none_left : (r : Recorder) → Stops r [] r
  stop :
      (line : CachedLine) (r q : Recorder) (rest : List (CachedLine × ℕ))
      → Stops (leave line (enter line r)) rest q
      → Stops r ((line, (enter line r).depth) ∷ rest) q

Stops-append :
    (r q t : Recorder) (xs ys : List (CachedLine × ℕ))
    → Stops r xs q
    → Stops q ys t
    → Stops r (xs ++ ys) t
Stops-append _ _ t xs ys (none_left r) b = b
Stops-append _ _ t _ ys (stop line r q rest a) b =
    stop line r t (rest ++ ys) (Stops-append (leave line (enter line r)) q t rest ys a b)

plain_depth :
    (l : CachedLine) (r : Recorder)
    → l.func_flag ≢ func_flag_start
    → l.func_flag ≢ func_flag_end
    → ((enter l r).depth ≡ r.depth) × ((leave l (enter l r)).depth ≡ r.depth)
unfolding enter leave
plain_depth l r a b = ground arith

start_depth :
    (l : CachedLine) (r : Recorder)
    → l.func_flag ≡ func_flag_start
    → r.depth + 1 < word
    → ((enter l r).depth ≡ r.depth + 1) × ((leave l (enter l r)).depth ≡ r.depth + 1)
unfolding enter leave
start_depth l r a b = ground arith

end_depth :
    (l : CachedLine) (r : Recorder) (d : ℕ)
    → l.func_flag ≡ func_flag_end
    → r.depth ≡ d + 1
    → d + 1 < word
    → ((enter l r).depth ≡ d + 1) × ((leave l (enter l r)).depth ≡ d)
unfolding enter leave
end_depth l r d a b small = ground arith

stop_at :
    (line : CachedLine) (r q : Recorder) (rest : List (CachedLine × ℕ)) (d : ℕ)
    → (enter line r).depth ≡ d
    → Stops (leave line (enter line r)) rest q
    → Stops r ((line, d) ∷ rest) q
stop_at line r q rest d e s = subst (λ n. Stops r ((line, n) ∷ rest) q) e (stop line r q rest s)

-- If the first and last statements of functions are flagged as such, and no others, and the depth
-- does not reach 2^64, then the stops of what runs in a function, with all functions that it calls,
-- record each statement with the depth of its own function, and end at the depth of the first.
pub nested-Stops :
    (body : Body) (r : Recorder) (d : ℕ)
    → IsFlagged body
    → r.depth ≡ d
    → d + height body < word
    → (q : Recorder) × Stops r (nested d body) q × (q.depth ≡ d)
nested-Stops done r d f e small = (r, none_left r, e)
nested-Stops (plain l rest) r d (a, b, f) e small =
    let (x, y) = plain_depth l r a b in
    let (q, s, k) = nested-Stops rest (leave l (enter l r)) d f (y ∙ e) small in
    (q, stop_at l r q (nested d rest) d (x ∙ e) s, k)
nested-Stops (call s body l rest) r d (a, b, f, g) e small =
    let (x, y) = start_depth s r a (omega arith) in
    let (q, inner, k) =
      nested-Stops body (leave s (enter s r)) (d + 1) f (y ∙ omega arith) (omega arith) in
    let (z, w) = end_depth l q d b k (omega arith) in
    let (t, outer, j) = nested-Stops rest (leave l (enter l q)) d g w (omega arith) in
    (
      t,
      stop_at s r t (nested (d + 1) body ++ ((l, d + 1) ∷ nested d rest)) (d + 1) (x ∙ omega arith)
          (Stops-append (leave s (enter s r)) q t (nested (d + 1) body) ((l, d + 1) ∷ nested d rest)
            inner (stop_at l q t (nested d rest) (d + 1) z outer)),
      j,
    )
