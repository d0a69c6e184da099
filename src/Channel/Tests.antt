-- ===== src/Channel/Tests.antt =====
-- Runs of a channel, and its theorems at an input.
use flightrec.Prelude.{ℕ, ◌+◌, ◌≡◌, ◌≢◌, ◌⊎◌, refl, List, [], ◌∷◌, ◌++◌, none, some, true, length}
use flightrec.Channel.{
  Channel, no_errors, enqueue, dequeue, deliver, ch_create, ch_write, ch_read, ch_finish,
  free_messages, write_all, read_loop, misread, no_data, blocked, read_block, read_nonblock,
}
use flightrec.Channel.Fifo.{Item}
use flightrec.Channel.Threads.{Shared, start, next, link, idle, threads_in_order}

abbrev new : Channel ℕ
new = record { sem = 0; head = none; tail = none; cells = λ p. none; fresh = 1 }

program : Unit {0}
unfolding ch_create ch_write ch_read ch_finish enqueue dequeue deliver free_messages write_all
    read_loop
program = tt

created : ch_create true true ≡ some new
unfolding program
created = refl

runs :
    ((ch_read no_errors read_nonblock new 8).0 ≡ (no_data, none, 8))
    × ((ch_read no_errors read_block new 8).0 ≡ (blocked, none, 8))
    × ((ch_read no_errors read_block (write_all 4 (7 ∷ []) new) 8).0 ≡ (misread, none, 0))
unfolding program
runs = (refl, refl, refl)

-- One write that has not posted yet.
abbrev linked : Shared ℕ
linked = record (idle new) { ch = enqueue new (some 5) 8; to_post = 1; sent = (some 5, 8) ∷ [] }

threads_in_order_example :
    (queue : List (Item ℕ)) × (linked.sent ≡ linked.received ++ queue)
    × (length queue ≡ linked.ch.sem + linked.to_post + linked.to_take)
    × ((linked.to_take ≡ 0) ⊎ (dequeue linked.ch ≢ none))
threads_in_order_example =
    threads_in_order new linked created (next start (link (idle new) (some 5) 8))
