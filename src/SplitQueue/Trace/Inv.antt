-- ===== src/SplitQueue/Trace/Inv.antt =====
-- The invariant of a trace of a split queue.
use virtio_accel.Prelude.{
  ℕ, ◌≤◌, ◌≡◌, ◌&&◌, List, [], ◌∷◌, ◌++◌, sum_by, Option, none, some, ◌==◌, if◌then◌else◌, All, ap,
  refl,
}
use virtio_accel.SplitQueue.Chain.{DeviceChain}
use virtio_accel.SplitQueue.Ring.{RingStorage, UsedElement, at}
use virtio_accel.SplitQueue.Queue.{is_in_flight}
use virtio_accel.SplitQueue.Rings.{waiting, finished, state_of}
use virtio_accel.SplitQueue.Calls.{QueueInv}
use virtio_accel.SplitQueue.Trace.{Trace}

abbrev pub somes {ℓ} : {A : Type ℓ} → List A → List (Option A)
somes [] = []
somes (x ∷ xs) = some x ∷ somes xs

pub somes-append {ℓ} : {A : Type ℓ} (xs ys : List A) → somes (xs ++ ys) ≡ somes xs ++ somes ys
somes-append [] ys = refl
somes-append (x ∷ xs) ys = ap (λ r. some x ∷ r) (somes-append xs ys)

-- The rings of a queue that may have no storage.
abbrev pub all_waiting : Option RingStorage → List (Option ℕ)
all_waiting none = []
all_waiting (some s) = waiting s

abbrev pub all_finished : Option RingStorage → List (Option UsedElement)
all_finished none = []
all_finished (some s) = finished s

-- 1 for a head whose chain is in flight.
abbrev pub flying_at : Option RingStorage → ℕ → ℕ
flying_at none head = 0
flying_at (some s) head = state_of is_in_flight (at s.records head)

-- 1 for a device chain of that epoch and head.
abbrev pub owns : ℕ → ℕ → DeviceChain → ℕ
owns epoch head c = if (c.id.epoch == epoch) && (c.id.token == head) then 1 else 0

pub record TraceInv (t : Trace) : Type 0 where
  pub queue : QueueInv t.queue
  pub available_fifo : somes t.published ≡ somes t.popped ++ all_waiting t.queue.storage
  pub used_fifo : somes t.completed ≡ somes t.reclaimed ++ all_finished t.queue.storage
  pub no_later : All (λ c. c.id.epoch ≤ t.queue.state.epoch) t.outstanding
  pub in_flight :
      (h : ℕ) → sum_by (owns t.queue.state.epoch h) t.outstanding ≤ flying_at t.queue.storage h
