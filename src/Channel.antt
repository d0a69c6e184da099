-- ===== src/Channel.antt =====
-- record/channel.c: the queue of messages between threads. The nodes of the linked list stand in an
-- explicit heap; `malloc` returns the cell at `fresh`, and `free` empties a cell. A payload that is
-- `none` is the null pointer by which `ch_finish` ends the stream. What the system calls on the
-- mutex and on the semaphore answer comes in as `Calls`.
pub mod Fifo
pub mod Threads
mod Tests
use flightrec.Prelude.{
  ℕ, zero, suc, ◌+◌, ◌-◌, Bool, true, false, Option, none, some, ◌==◌, ◌&&◌, not, if◌then◌else◌,
  List, [], ◌∷◌,
}

-- `struct message`, for payloads of the type `P`.
pub record Message (P : Type 0) : Type 0 where
  pub payload : Option P
  pub size : ℕ
  pub next : Option ℕ

-- `struct channel`, with the heap of its messages.
pub record Channel (P : Type 0) : Type 0 where
  pub sem : ℕ
  pub head : Option ℕ
  pub tail : Option ℕ
  pub cells : ℕ → Option (Message P)
  pub fresh : ℕ

-- CHANNEL_OK, CHANNEL_FAIL, CHANNEL_MISREAD, CHANNEL_END and CHANNEL_NODATA. A blocking read of
-- an empty channel does not return (`blocked`), and a null `head` is dereferenced (`fault`).
pub data Status : Type 0 where
  ok fail misread end_of_data no_data blocked fault : Status

pub data Flag : Type 0 where
  read_block read_nonblock : Flag

-- Each call succeeds or not. `wait` stands for `sem_wait` and `sem_trywait`, apart from EAGAIN.
pub record Calls : Type 0 where
  pub lock : Bool
  pub unlock : Bool
  pub post : Bool
  pub wait : Bool

abbrev pub no_errors : Calls
no_errors = record { lock = true; unlock = true; post = true; wait = true }

abbrev pub update {ℓ} : {A : Type ℓ} → (ℕ → A) → ℕ → A → ℕ → A
update f p v q = if p == q then v else f q

module _ {P : Type 0} where
  unfoldable pub ch_create : Bool → Bool → Option (Channel P)
  ch_create sem_init mutex_init =
      if not sem_init
      then none
      else if not mutex_init
      then none
      else some (record { sem = 0; head = none; tail = none; cells = λ p. none; fresh = 1 })

  -- `ch->tail->next = msg`; a dangling tail changes nothing.
  abbrev pub set_next : (ℕ → Option (Message P)) → ℕ → ℕ → ℕ → Option (Message P)
  set_next cells p msg = elim (cells p) [
    | none ↦ cells
    | some m ↦ update cells p (some (record m { next = some msg }))
  ]

  -- The part of `ch_write` under the mutex.
  unfoldable pub enqueue : Channel P → Option P → ℕ → Channel P
  enqueue ch buf bufsize =
      let msg = ch.fresh in
      let cells =
        update ch.cells msg (some (record { payload = buf; size = bufsize; next = none })) in
      elim (ch.tail) [
        | some t ↦ record ch { tail = some msg; cells = set_next cells t msg; fresh = suc msg }
        | none ↦ record ch { head = some msg; tail = some msg; cells = cells; fresh = suc msg }
      ]

  unfoldable pub ch_write : Calls → Channel P → Option P → ℕ → Status × Channel P
  ch_write calls ch buf bufsize =
      if not calls.lock
      then (fail, ch)
      else (let ch' = enqueue ch buf bufsize in
          if not calls.unlock
          then (fail, ch')
          else if not calls.post
          then (fail, ch')
          else (ok, record ch' { sem = ch'.sem + 1 }))

  unfoldable pub ch_finish : Calls → Channel P → Status × Channel P
  ch_finish calls ch = ch_write calls ch none 0

  -- The part of `ch_read` under the mutex: the message at the head, unlinked and freed.
  unfoldable pub dequeue : Channel P → Option (Message P × Channel P)
  dequeue ch = elim (ch.head) [
    | none ↦ none
    | some p ↦ elim (ch.cells p) [
      | none ↦ none
      | some msg ↦ some (
        msg,
        record ch {
          head = msg.next;
          tail = elim (msg.next) [ none ↦ none | some q ↦ ch.tail ];
          cells = update ch.cells p none;
        },
      )
    ]
  ]

  -- The answer on a message that was read, `expected` being the incoming `*bufsize`: the status,
  -- and the outgoing `*buf` and `*bufsize`.
  unfoldable pub deliver : Message P → ℕ → Status × Option P × ℕ
  deliver msg expected = elim (msg.payload) [
    | none ↦ (end_of_data, none, 0)
    | some p ↦
        if not (expected == 0) && not (expected == msg.size)
        then (misread, none, 0)
        else (ok, some p, msg.size)
  ]

  -- `*buf` is `none` where the function leaves it as it was.
  unfoldable pub ch_read : Calls → Flag → Channel P → ℕ → (Status × Option P × ℕ) × Channel P
  ch_read calls flag ch expected =
      if not calls.wait then ((fail, none, expected), ch) else elim (ch.sem) [
        | zero ↦ elim flag [
          | read_block ↦ ((blocked, none, expected), ch)
          | read_nonblock ↦ ((no_data, none, expected), ch)
        ]
        | suc n ↦
            let taken = record ch { sem = n } in
            if not calls.lock then ((fail, none, expected), taken) else elim (dequeue taken) [
              | none ↦ ((fault, none, expected), taken)
              | some (msg, ch') ↦
                  if not calls.unlock
                  then ((fail, msg.payload, expected), ch')
                  else (deliver msg expected, ch')
            ]
      ]

  -- The loop of `ch_destroy` frees the list from the head on, for as many nodes as fuel allows.
  unfoldable pub free_messages : ℕ → Channel P → Option (Channel P)
  free_messages zero ch = none
  free_messages (suc fuel) ch = elim (ch.head) [
    | none ↦ some ch
    | some p ↦ elim (ch.cells p) [
      | none ↦ none
      | some msg ↦
          free_messages fuel (record ch { head = msg.next; cells = update ch.cells p none })
    ]
  ]

  -- A thread that writes these payloads, all of one size.
  unfoldable pub write_all : ℕ → List P → Channel P → Channel P
  write_all size [] ch = ch
  write_all size (p ∷ ps) ch = write_all size ps (ch_write no_errors ch (some p) size).1

  -- What the loop below does with the answer of a read: `loop` is its next round.
  abbrev pub on_reply :
      (Status × Option P × ℕ) × Channel P
      → (Channel P → ℕ → List P × Status × Channel P)
      → List P × Status × Channel P
  on_reply ((status, buf, size), ch) loop = elim status [
    | ok ↦ elim buf [
      | none ↦ ([], ok, ch)
      | some p ↦ let (ps, status', ch') = loop ch size in (p ∷ ps, status', ch')
    ]
    | other ↦ ([], other, ch)
  ]

  -- `while (CHANNEL_OK == ch_read(ch, &msg, &size, READ_BLOCK))`, as in the workers: the payloads
  -- read, the status that ended the loop, and the channel left.
  unfoldable pub read_loop : ℕ → Channel P → ℕ → List P × Status × Channel P
  read_loop zero ch size = ([], blocked, ch)
  read_loop (suc fuel) ch size = on_reply (ch_read no_errors read_block ch size) (read_loop fuel)
