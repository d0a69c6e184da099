-- ===== src/Run/Events.antt =====
-- record/run.c: `bpf_callback`, which a thread calls for each event of the kernel's probes.
use flightrec.Prelude.{
  ℕ, ◌+◌, ◌-◌, List, [], ◌∷◌, ◌++◌, Bool, true, false, ◌==◌, ltb, if◌then◌else◌,
}
use flightrec.Memory.{Memory, MemMsg}
use flightrec.Memcache.{cache_add_region}
use flightrec.Run.{Recorder}

-- `struct bpf_event`: BPF_EVT_SIGNAL, BPF_EVT_PAGEFAULT and so on, with the payload.
pub data BpfEvent : Type 0 where
  signal pagefault mmap_entry mmap_exit munmap brk : ℕ → BpfEvent
  unknown_event : BpfEvent

-- The static variables of the function, and how often the semaphore was posted.
pub record Probe : Type 0 where
  pub mapped_size : ℕ
  pub second_trap : Bool
  pub brk_boundary : ℕ
  pub posted : ℕ

abbrev pub sigtrap : ℕ
sigtrap = 5

-- The memory of the program when a region is added, and how many bytes its read gets.
pub record Mapping : Type 0 where
  pub child : Memory
  pub buffer : Memory
  pub count : ℕ

unfoldable pub add_region : Mapping → ℕ → ℕ → Recorder → Recorder × List MemMsg
unfolding cache_add_region
add_region mapping address size r =
    let added =
      cache_add_region mapping.child mapping.buffer mapping.count r.cache address size r.step_id in
    (record r { cache = added.0 }, added.1)

-- `post_ok` says whether `sem_post` succeeds.
unfoldable pub on_signal : Bool → ℕ → Probe → Probe
on_signal post_ok number p =
    if number == sigtrap
    then (if p.second_trap
        then record p { second_trap = false }
        else if post_ok
        then record p { second_trap = true; posted = p.posted + 1 }
        else p)
    else p

unfoldable pub bpf_callback :
    Bool → Bool → Mapping → BpfEvent → Recorder → Probe → Recorder × Probe × List MemMsg
unfolding add_region on_signal
bpf_callback stop post_ok mapping event r p = if stop then (r, p, []) else elim event [
  | signal number ↦ (r, on_signal post_ok number p, [])
  | pagefault address ↦
      (record r { waiting = r.waiting ++ (address ∷ []); mem_dirty = true }, p, [])
  | mmap_entry size ↦ (r, record p { mapped_size = size }, [])
  | mmap_exit address ↦ (
    (add_region mapping address p.mapped_size r).0,
    p,
    (add_region mapping address p.mapped_size r).1,
  )
  | munmap address ↦ (r, p, [])
  | brk boundary ↦
      if p.brk_boundary == 0
      then (r, record p { brk_boundary = boundary }, [])
      else if ltb p.brk_boundary boundary
      then (
        (add_region mapping p.brk_boundary (boundary - p.brk_boundary) r).0,
        record p { brk_boundary = boundary },
        (add_region mapping p.brk_boundary (boundary - p.brk_boundary) r).1,
      )
      else (r, p, [])
  | unknown_event ↦ (r, p, [])
]
