-- ===== src/Channel/Threads.antt =====
-- Threads on one channel. `ch_write` and `ch_read` hold the mutex only while they link or unlink a
-- message, so a write is two atomic steps, and so is a read: another thread may run between them.
use flightrec.Prelude.{
  ℕ, suc, ◌+◌, ◌≡◌, ◌≢◌, refl, sym, ap, ◌∙◌, List, [], ◌∷◌, ◌++◌, Option, none, some, arith, length,
  length-append, ◌⊎◌, inl, inr, true,
}
use mathlib.Core.List.{append_assoc}
use mathlib.Core.Path.{subst}
use flightrec.Channel.{Channel, Message, enqueue, dequeue, ch_create}
use flightrec.Channel.Fifo.{Item, Holds, Holds-sem, enqueue-Holds, dequeue-Holds, sem-enqueue}

-- The channel, the writes that have still to post the semaphore, the reads that have passed it and
-- have still to take their message, and what was written and read so far, oldest first.
pub record Shared (P : Type 0) : Type 0 where
  pub ch : Channel P
  pub to_post : ℕ
  pub to_take : ℕ
  pub sent : List (Item P)
  pub received : List (Item P)

module _ {P : Type 0} where
  -- The atomic steps of the threads; the last one is the read that finds no head.
  pub data Step : Shared P → Shared P → Type 0 where
    link :
        (s : Shared P) (buf : Option P) (size : ℕ)
        → Step s (record s {
          ch = enqueue s.ch buf size;
          to_post = suc s.to_post;
          sent = s.sent ++ ((buf, size) ∷ []);
        })
    post :
        (s : Shared P) (n : ℕ)
        → s.to_post ≡ suc n
        → Step s (record s { ch = record s.ch { sem = suc s.ch.sem }; to_post = n })
    acquire :
        (s : Shared P) (n : ℕ)
        → s.ch.sem ≡ suc n
        → Step s (record s { ch = record s.ch { sem = n }; to_take = suc s.to_take })
    take :
        (s : Shared P) (n : ℕ) (m : Message P) (ch' : Channel P)
        → s.to_take ≡ suc n
        → dequeue s.ch ≡ some (m, ch')
        → Step s (record s {
          ch = ch';
          to_take = n;
          received = s.received ++ ((m.payload, m.size) ∷ []);
        })

  pub data Reach (s : Shared P) : Shared P → Type 0 where
    start : Reach s s
    next : {t u : Shared P} → Reach s t → Step t u → Reach s u

  -- The queue holds what was sent and not received, and the semaphore with the pending calls counts it.
  pub record IsConsistent (s : Shared P) : Type 0 where
    pub queue : List (Item P)
    pub holds : Holds s.ch queue
    pub order : s.sent ≡ s.received ++ queue
    pub count : length queue ≡ s.ch.sem + s.to_post + s.to_take

  abbrev sem_of : Channel P → ℕ
  sem_of c = c.sem

  abbrev payload_of : Message P → Option P
  payload_of m = m.payload

  abbrev size_of : Message P → ℕ
  size_of m = m.size

  Step-IsConsistent : {s t : Shared P} → Step s t → IsConsistent s → IsConsistent t
  Step-IsConsistent (link s buf size) v = record {
    queue = v.queue ++ ((buf, size) ∷ []);
    holds = enqueue-Holds s.ch v.queue buf size v.holds;
    order =
        ap (λ l. l ++ ((buf, size) ∷ [])) v.order
        ∙ append_assoc s.received v.queue ((buf, size) ∷ []);
    count =
        omega (arith, length-append v.queue ((buf, size) ∷ []), sem-enqueue s.ch buf size, v.count);
  }
  Step-IsConsistent (post s n e) v = record {
    queue = v.queue;
    holds = Holds-sem s.ch (suc s.ch.sem) v.queue v.holds;
    order = v.order;
    count = omega (arith, v.count);
  }
  Step-IsConsistent (acquire s n e) v = record {
    queue = v.queue;
    holds = Holds-sem s.ch n v.queue v.holds;
    order = v.order;
    count = omega (arith, v.count);
  }
  Step-IsConsistent (take s n m ch' e d) v = taken v.queue refl
    where
      taken :
          (q : List (Item P))
          → v.queue ≡ q
          → IsConsistent (record s {
            ch = ch';
            to_take = n;
            received = s.received ++ ((m.payload, m.size) ∷ []);
          })
      taken [] same = absurd (ground (arith, v.count, ap length same))
      taken ((buf, size) ∷ q) same =
          let (m', ch'', d', p, z, k, rest) =
            dequeue-Holds s.ch buf size q (subst (Holds s.ch) same v.holds) in
          let both : ◌≡◌ {A = Option (Message P × Channel P)} (some (m, ch')) (some (m', ch'')) =
            sym d ∙ d' in
          let m-eq : m ≡ m' = cc in
          let ch-eq : ch' ≡ ch'' = cc in
          let item : ◌≡◌ {A = Item P} (buf, size) (m.payload, m.size) =
            λ i. (sym (ap payload_of m-eq ∙ p) i, sym (ap size_of m-eq ∙ z) i) in
          record {
            queue = q;
            holds = subst (λ c. Holds c q) (sym ch-eq) rest;
            order =
                v.order
                ∙ ap (λ l. s.received ++ l) (same ∙ λ i. item i ∷ q)
                ∙ sym (append_assoc s.received ((m.payload, m.size) ∷ []) q);
            count = omega (arith, v.count, e, k, ap length same, ap sem_of ch-eq);
          }

  -- No thread has begun a call yet.
  abbrev pub idle : Channel P → Shared P
  idle ch = record { ch = ch; to_post = 0; to_take = 0; sent = []; received = [] }

  Reach-IsConsistent :
      (ch : Channel P)
      → ch_create true true ≡ some ch
      → {t : Shared P} → Reach (idle ch) t
      → IsConsistent t
  unfolding ch_create
  Reach-IsConsistent ch e start = record {
    queue = [];
    holds = ground arith;
    order = refl;
    count = ground arith;
  }
  Reach-IsConsistent ch e (next r st) = Step-IsConsistent st (Reach-IsConsistent ch e r)

-- However the threads that use a new channel interleave, the messages that were read are the first of those
-- that were written, in the same order; the others are counted by the semaphore, the writes that have still to post it
-- and the reads that have passed it; and a read that has passed it finds a message.
pub threads_in_order :
    {P : Type 0} (ch : Channel P) (t : Shared P)
    → ch_create true true ≡ some ch
    → Reach (idle ch) t
    → (queue : List (Item P)) × (t.sent ≡ t.received ++ queue)
      × (length queue ≡ t.ch.sem + t.to_post + t.to_take)
      × ((t.to_take ≡ 0) ⊎ (dequeue t.ch ≢ none))
threads_in_order {P} ch t e r =
    let v = Reach-IsConsistent ch e r in (v.queue, v.order, v.count, ready v v.queue refl)
  where
    ready :
        (v : IsConsistent t) (q : List (Item P))
        → v.queue ≡ q
        → (t.to_take ≡ 0) ⊎ (dequeue t.ch ≢ none)
    ready v [] same = inl (omega (arith, v.count, ap length same))
    ready v ((buf, size) ∷ q) same =
        let (m, c, d, _, _, _, _) =
          dequeue-Holds t.ch buf size q (subst (Holds t.ch) same v.holds) in
        inr (λ n. ground arith)
