-- ===== src/Channel/Fifo.antt =====
-- The linked list of a channel is a first-in first-out queue of messages.
use flightrec.Prelude.{
  ℕ, suc, ◌+◌, ◌≤◌, ◌<◌, ◌≡◌, ◌∙◌, ap, refl, List, [], ◌∷◌, ◌++◌, Option, none, some, true, arith,
  length,
}
use mathlib.Core.Path.{subst, sym}
use mathlib.Core.List.{append-nil, append_assoc}
use flightrec.Channel.{
  Message, Channel, no_errors, ok, end_of_data, Flag, read_block, read_loop, on_reply, write_all,
  update, set_next, enqueue, dequeue, deliver, ch_create, ch_write, ch_read, ch_finish,
}

-- What a message carries: its payload and its size.
abbrev pub Item : Type 0 → Type 0
Item P = Option P × ℕ

module _ {P : Type 0} where
  abbrev pub node : Item P → Option ℕ → Message P
  node (payload, size) next = record { payload = payload; size = size; next = next }

  -- From the cell `p` to the cell `last` the list holds these items, at rising addresses.
  abbrev pub Chain : (ℕ → Option (Message P)) → ℕ → ℕ → List (Item P) → Type 0
  Chain cells p last [] = ⊥
  Chain cells p last (x ∷ []) = (cells p ≡ some (node x none)) × (p ≡ last)
  Chain cells p last (x ∷ y ∷ xs) =
      (q : ℕ) × (cells p ≡ some (node x (some q))) × (p < q) × Chain cells q last (y ∷ xs)

  -- The channel holds these items, oldest first.
  abbrev pub Holds : Channel P → List (Item P) → Type 0
  Holds ch [] = (ch.head ≡ none) × (ch.tail ≡ none)
  Holds ch (x ∷ xs) =
      (p : ℕ) × (last : ℕ) × (ch.head ≡ some p)
      × (ch.tail ≡ some last)
      × (last < ch.fresh)
      × Chain ch.cells p last (x ∷ xs)

  Chain-le :
      (cells : ℕ → Option (Message P)) (p last : ℕ) (x : Item P) (xs : List (Item P))
      → Chain cells p last (x ∷ xs)
      → p ≤ last
  Chain-le cells p last x [] (e, same) = omega arith
  Chain-le cells p last x (y ∷ xs) (q, e, less, rest) =
      omega (arith, Chain-le cells q last y xs rest)

  -- Two heaps that agree between the ends of a chain hold the same chain.
  Chain-cong :
      (cells cells' : ℕ → Option (Message P)) (p last : ℕ) (x : Item P) (xs : List (Item P))
      → ((a : ℕ) → p ≤ a → a ≤ last → cells' a ≡ cells a)
      → Chain cells p last (x ∷ xs)
      → Chain cells' p last (x ∷ xs)
  Chain-cong cells cells' p last x [] agree (e, same) =
      (agree p (omega arith) (omega arith) ∙ e, same)
  Chain-cong cells cells' p last x (y ∷ xs) agree (q, e, less, rest) =
      let le = Chain-le cells q last y xs rest in
      (
        q,
        agree p (omega arith) (omega arith) ∙ e,
        less,
        Chain-cong cells cells' q last y xs (λ a l h. agree a (omega arith) h) rest,
      )

  -- A node behind the last one makes the chain one item longer.
  Chain-append :
      (cells cells' : ℕ → Option (Message P)) (p last new : ℕ) (x : Item P) (xs : List (Item P))
      (z : Item P)
      → last < new
      → ((a : ℕ) → a < last → cells' a ≡ cells a)
      → ((m : Message P) → cells last ≡ some m → cells' last ≡ some (record m { next = some new }))
      → cells' new ≡ some (node z none)
      → Chain cells p last (x ∷ xs)
      → Chain cells' p new (x ∷ xs ++ (z ∷ []))
  Chain-append cells cells' p last new x [] z less keep link end (e, same) =
      (new, rw same (link (node x none) (rw same at e)), omega arith, (end, refl))
  Chain-append cells cells' p last new x (y ∷ xs) z less keep link end (q, e, h, rest) =
      let le = Chain-le cells q last y xs rest in
      (
        q,
        keep p (omega arith) ∙ e,
        h,
        Chain-append cells cells' q last new y xs z less keep link end rest,
      )

  set_next-new :
      (cells : ℕ → Option (Message P)) (last new : ℕ) (m : Message P)
      → last < new
      → set_next (update cells new (some m)) last new new ≡ some m
  set_next-new cells last new m below = ground arith

  -- `enqueue` appends.
  pub enqueue-Holds :
      (ch : Channel P) (items : List (Item P)) (buf : Option P) (size : ℕ)
      → Holds ch items
      → Holds (enqueue ch buf size) (items ++ ((buf, size) ∷ []))
  unfolding enqueue
  enqueue-Holds ch [] buf size (h, t) =
      rw (enqueue, t) (ch.fresh, ch.fresh, refl, refl, omega arith, (ground arith, refl))
  enqueue-Holds ch (x ∷ xs) buf size (p, last, h, t, below, chain) =
      let cells = update ch.cells ch.fresh (some (node (buf, size) none)) in
      let cells' = set_next cells last ch.fresh in
      let enqueued : enqueue ch buf size
          ≡ record ch { tail = some ch.fresh; cells = cells'; fresh = suc ch.fresh } =
        rw (enqueue, t) refl in
      subst (λ c. Holds c (x ∷ (xs ++ ((buf, size) ∷ [])))) (sym enqueued)
        (
          p,
          ch.fresh,
          h,
          refl,
          omega arith,
          Chain-append ch.cells cells' p last ch.fresh x xs (buf, size) below
              (λ a less. ground arith) (λ m e. ground arith)
              (set_next-new ch.cells last ch.fresh (node (buf, size) none) below) chain,
        )

  -- `dequeue` takes the oldest.
  pub dequeue-Holds :
      (ch : Channel P) (payload : Option P) (size : ℕ) (items : List (Item P))
      → Holds ch ((payload, size) ∷ items)
      → (m : Message P) × (ch' : Channel P) × (dequeue ch ≡ some (m, ch'))
        × (m.payload ≡ payload)
        × (m.size ≡ size)
        × (ch'.sem ≡ ch.sem)
        × Holds ch' items
  unfolding dequeue
  dequeue-Holds ch payload size [] (p, last, h, t, below, (e, same)) = (
    node (payload, size) none,
    record ch { head = none; tail = none; cells = update ch.cells p none },
    rw (dequeue, h, e) refl,
    refl,
    refl,
    refl,
    (refl, refl),
  )
  dequeue-Holds ch payload size (y ∷ ys) (p, last, h, t, below, (q, e, less, rest)) = (
    node (payload, size) (some q),
    record ch { head = some q; cells = update ch.cells p none },
    rw (dequeue, h, e) refl,
    refl,
    refl,
    refl,
    (
      q,
      last,
      refl,
      t,
      below,
      Chain-cong ch.cells (update ch.cells p none) q last y ys (λ a l k. ground arith) rest,
    ),
  )

  pub Holds-sem :
      (ch : Channel P) (n : ℕ) (items : List (Item P))
      → Holds ch items
      → Holds (record ch { sem = n }) items
  Holds-sem ch n [] h = h
  Holds-sem ch n (x ∷ xs) h = h

  pub sem-enqueue :
      (ch : Channel P) (buf : Option P) (size : ℕ) → (enqueue ch buf size).sem ≡ ch.sem
  unfolding enqueue
  sem-enqueue ch buf size = ground arith

  -- With no failing system call, a message that is written stands behind those of
  -- the channel, and the semaphore counts one more.
  pub ch_write-Holds :
      (ch : Channel P) (items : List (Item P)) (buf : Option P) (size : ℕ)
      → Holds ch items
      → ((ch_write no_errors ch buf size).0 ≡ ok)
        × Holds (ch_write no_errors ch buf size).1 (items ++ ((buf, size) ∷ []))
        × ((ch_write no_errors ch buf size).1.sem ≡ suc ch.sem)
  unfolding ch_write
  ch_write-Holds ch items buf size h = (
    refl,
    Holds-sem (enqueue ch buf size) ((enqueue ch buf size).sem + 1) (items ++ ((buf, size) ∷ []))
        (enqueue-Holds ch items buf size h),
    ground (arith, sem-enqueue ch buf size),
  )

  pub ch_read-Holds :
      (ch : Channel P) (flag : Flag) (expected : ℕ) (payload : Option P) (size : ℕ)
      (items : List (Item P)) (n : ℕ)
      → Holds ch ((payload, size) ∷ items)
      → ch.sem ≡ suc n
      → (m : Message P) × (ch' : Channel P) × (ch_read no_errors flag ch expected
          ≡ (deliver m expected, ch'))
        × (m.payload ≡ payload)
        × (m.size ≡ size)
        × (ch'.sem ≡ n)
        × Holds ch' items
  unfolding ch_read
  ch_read-Holds ch flag expected payload size items n h e =
      let (m, ch', d, p, s, k, rest) = dequeue-Holds (record ch { sem = n }) payload size items h in
      (m, ch', rw (ch_read, e, d) refl, p, s, k, rest)

  -- The messages that carry these payloads.
  abbrev pub messages : ℕ → List P → List (Item P)
  messages size [] = []
  messages size (p ∷ ps) = (some p, size) ∷ messages size ps

  deliver_end :
      (m : Message P) (expected : ℕ)
      → m.payload ≡ none
      → deliver m expected ≡ (end_of_data, none, 0)
  unfolding deliver
  deliver_end m expected e = rw (deliver, e) refl

  deliver-some :
      (m : Message P) (size : ℕ) (x : P)
      → m.payload ≡ some x
      → m.size ≡ size
      → deliver m size ≡ (ok, some x, size)
  unfolding deliver
  deliver-some m size x e s = ground arith

  loop_end :
      (fuel size : ℕ) (ch ch' : Channel P) (m : Message P)
      → ch_read no_errors read_block ch size ≡ (deliver m size, ch')
      → deliver m size ≡ (end_of_data, none, 0)
      → read_loop (suc fuel) ch size ≡ ([], end_of_data, ch')
  unfolding read_loop
  loop_end fuel size ch ch' m e d = ap (λ r. on_reply r (read_loop fuel)) (e ∙ ap (λ r. (r, ch')) d)

  loop_more :
      (fuel size : ℕ) (ch ch' ch'' : Channel P) (m : Message P) (x : P) (ps : List P)
      → ch_read no_errors read_block ch size ≡ (deliver m size, ch')
      → deliver m size ≡ (ok, some x, size)
      → read_loop fuel ch' size ≡ (ps, end_of_data, ch'')
      → read_loop (suc fuel) ch size ≡ (x ∷ ps, end_of_data, ch'')
  unfolding read_loop
  loop_more fuel size ch ch' ch'' m x ps e d rest =
      ap (λ r. on_reply r (read_loop fuel)) (e ∙ ap (λ r. (r, ch')) d)
      ∙ ap (λ l. (x ∷ l.0, l.1, l.2)) rest

  pub read_loop-Holds :
      (size : ℕ) (ps : List P) (rest : List (Item P)) (extra : ℕ) (ch : Channel P)
      → Holds ch (messages size ps ++ ((none, 0) ∷ rest))
      → ch.sem ≡ length ps + suc extra
      → (ch' : Channel P) × (read_loop (suc (length ps)) ch size ≡ (ps, end_of_data, ch'))
        × Holds ch' rest
  read_loop-Holds size [] rest extra ch h e =
      let (m, ch', r, p, s, k, holds) =
        ch_read-Holds ch read_block size none 0 rest extra h (omega arith) in
      (ch', loop_end 0 size ch ch' m r (deliver_end m size p), holds)
  read_loop-Holds size (x ∷ ps) rest extra ch h e =
      let (m, ch', r, p, s, k, holds) =
        ch_read-Holds ch read_block size (some x) size (messages size ps ++ ((none, 0) ∷ rest))
          (length ps + suc extra) h (omega arith) in
      let (ch'', loop, final) = read_loop-Holds size ps rest extra ch' holds k in
      (
        ch'',
        loop_more (suc (length ps)) size ch ch' ch'' m x ps r (deliver-some m size x p s) loop,
        final,
      )

  pub write_all-Holds :
      (size : ℕ) (ps : List P) (ch : Channel P) (items : List (Item P))
      → Holds ch items
      → Holds (write_all size ps ch) (items ++ messages size ps)
        × ((write_all size ps ch).sem ≡ ch.sem + length ps)
  unfolding write_all
  write_all-Holds size [] ch items h = (rw append-nil h, omega arith)
  write_all-Holds size (p ∷ ps) ch items h =
      let (_, holds, count) = ch_write-Holds ch items (some p) size h in
      let (all, total) =
        write_all-Holds size ps (ch_write no_errors ch (some p) size).1
          (items ++ ((some p, size) ∷ [])) holds in
      (rw append_assoc at all, omega arith)

-- What one thread writes before it ends the stream, the loop of a worker reads, all of it and in the
-- order of the writes, and it ends with CHANNEL_END. The sizes are those that the worker expects, and no system call fails.
pub ch_stream :
    {P : Type 0} (size : ℕ) (ps : List P) (ch : Channel P)
    → ch_create true true ≡ some ch
    → (ch' : Channel P) × (read_loop
          (suc (length ps))
          (ch_finish no_errors (write_all size ps ch)).1
          size
        ≡ (ps, end_of_data, ch'))
unfolding ch_create ch_finish
ch_stream size ps ch e =
    let (holds, count) = write_all-Holds size ps ch [] (ground arith) in
    let (_, all, total) = ch_write-Holds (write_all size ps ch) (messages size ps) none 0 holds in
    let (ch', loop, _) = read_loop-Holds size ps [] 0 _ all (ground arith) in (ch', loop)
