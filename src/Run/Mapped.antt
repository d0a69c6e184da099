-- ===== src/Run/Mapped.antt =====
-- The events of the probes: with regions that fit, the recorded rows follow the memory.
use mathlib.Core.Path.{subst}
use flightrec.Prelude.{
  ℕ, ◌+◌, ◌-◌, ◌%◌, ◌≤◌, ◌<◌, ◌≡◌, ◌≢◌, ◌⊎◌, inl, inr, refl, sym, ◌∙◌, List, ◌++◌, Bool, true,
  false, ◌==◌, ltb, if_true, if_false, arith, Bool-cases,
}
use flightrec.Query.{In}
use flightrec.Memory.{MemMsg, page_size}
use flightrec.Memdiff.Ranges.{IsBytes}
use flightrec.Memcache.{Region}
use flightrec.Memcache.Follows.{Follows, later-Follows}
use flightrec.Memcache.Added.{cache_add_region-Follows}
use flightrec.Run.{Recorder}
use flightrec.Run.Events.{
  BpfEvent, signal, pagefault, mmap_entry, mmap_exit, munmap, brk, unknown_event, Probe, Mapping,
  add_region, bpf_callback,
}

-- A region of whole pages, away from 0 and from the other regions, that is read as a whole.
pub record RegionFits (mapping : Mapping) (address size : ℕ) (cache : List Region) : Type 0 where
  pub child : IsBytes mapping.child
  pub buffer : IsBytes mapping.buffer
  pub first : address % page_size ≡ 0
  pub whole : size % page_size ≡ 0
  pub some_page : 0 < size
  pub mapped : 0 < address
  pub apart : (r : Region) → In r cache → (r.end ≤ address) ⊎ (address + size ≤ r.start)
  pub all : size ≤ mapping.count

-- The regions that an event adds fit.
abbrev pub EventFits : Mapping → BpfEvent → Recorder → Probe → Type 0
EventFits mapping (mmap_exit address) r p = RegionFits mapping address p.mapped_size r.cache
EventFits mapping (brk boundary) r p =
    p.brk_boundary ≢ 0
    → p.brk_boundary < boundary
    → RegionFits mapping p.brk_boundary (boundary - p.brk_boundary) r.cache
EventFits mapping event r p = Unit {0}

-- An event keeps the number of the step.
abbrev pub KeepsAt : ℕ → List MemMsg → Recorder × Probe × List MemMsg → Type 0
KeepsAt step rows o = (o.0.step_id ≡ step) × Follows step o.0.cache (rows ++ o.2)

add_region-Follows :
    (mapping : Mapping) (address size : ℕ) (r : Recorder) (rows : List MemMsg)
    → RegionFits mapping address size r.cache
    → Follows r.step_id r.cache rows
    → Follows r.step_id
        (add_region mapping address size r).0.cache
        (rows ++ (add_region mapping address size r).1)
unfolding add_region
add_region-Follows mapping address size r rows fits f =
    cache_add_region-Follows mapping.child mapping.buffer fits.child fits.buffer r.step_id r.step_id
      (omega arith) r.cache rows f address size mapping.count fits.first fits.whole fits.some_page
      fits.mapped fits.apart fits.all

add_region-step_id :
    (mapping : Mapping) (address size : ℕ) (r : Recorder)
    → (add_region mapping address size r).0.step_id ≡ r.step_id
unfolding add_region
add_region-step_id mapping address size r = refl

-- If the rows follow the cache, and the regions that an event adds fit, then the rows with the new
-- ones follow the new cache at the same step.
pub bpf_callback-Follows :
    (stop post_ok : Bool) (mapping : Mapping) (event : BpfEvent) (r : Recorder) (p : Probe)
    (rows : List MemMsg)
    → EventFits mapping event r p
    → Follows r.step_id r.cache rows
    → KeepsAt r.step_id rows (bpf_callback stop post_ok mapping event r p)
unfolding bpf_callback
bpf_callback-Follows true post_ok mapping event r p rows fits f =
    (refl, later-Follows r.step_id r.step_id r.cache rows (omega arith) f)
bpf_callback-Follows false post_ok mapping (signal n) r p rows fits f =
    (refl, later-Follows r.step_id r.step_id r.cache rows (omega arith) f)
bpf_callback-Follows false post_ok mapping (pagefault a) r p rows fits f =
    (refl, later-Follows r.step_id r.step_id r.cache rows (omega arith) f)
bpf_callback-Follows false post_ok mapping (mmap_entry n) r p rows fits f =
    (refl, later-Follows r.step_id r.step_id r.cache rows (omega arith) f)
bpf_callback-Follows false post_ok mapping (munmap a) r p rows fits f =
    (refl, later-Follows r.step_id r.step_id r.cache rows (omega arith) f)
bpf_callback-Follows false post_ok mapping unknown_event r p rows fits f =
    (refl, later-Follows r.step_id r.step_id r.cache rows (omega arith) f)
bpf_callback-Follows false post_ok mapping (mmap_exit a) r p rows fits f = (
  add_region-step_id mapping a p.mapped_size r,
  add_region-Follows mapping a p.mapped_size r rows fits f,
)
bpf_callback-Follows false post_ok mapping (brk b) r p rows fits f =
    elim (Bool-cases (p.brk_boundary == 0)) [
      | inl first ↦
          subst (KeepsAt r.step_id rows) (sym (if_true _ _ first))
            (refl, later-Follows r.step_id r.step_id r.cache rows (omega arith) f)
      | inr known ↦ elim (Bool-cases (ltb p.brk_boundary b)) [
        | inl more ↦ subst (KeepsAt r.step_id rows) (sym (if_false _ _ known ∙ if_true _ _ more)) (
          add_region-step_id mapping p.brk_boundary (b - p.brk_boundary) r,
          add_region-Follows mapping p.brk_boundary (b - p.brk_boundary) r rows
              (fits (ground (arith, known)) (ground (arith, more))) f,
        )
        | inr less ↦
            subst (KeepsAt r.step_id rows) (sym (if_false _ _ known ∙ if_false _ _ less))
              (refl, later-Follows r.step_id r.step_id r.cache rows (omega arith) f)
      ]
    ]
