-- ===== src/SplitQueue/Rings.antt =====
-- The invariant of the rings and records of a storage whose chains carry one epoch.
use virtio_accel.Prelude.{
  ℕ, ◌+◌, ◌%◌, ◌^◌, ◌<◌, ◌≡◌, Bool, List, length, get_elem?, sum_by, Option, none, some,
  if◌then◌else◌, ◌==◌, All,
}
use virtio_accel.Transport.{ChainId}
use virtio_accel.SplitQueue.Ring.{RingStorage, ChainRecord, ChainState, UsedElement, at, ring_slot}
use virtio_accel.SplitQueue.Queue.{is_available, is_used}
use virtio_accel.SplitQueue.Window.{window}
use virtio_accel.SplitQueue.Entries.{present}

-- 1 for a record in such a state.
abbrev pub state_of : (ChainState → Bool) → Option ChainRecord → ℕ
state_of p none = 0
state_of p (some r) = if p r.state then 1 else 0

-- The available ring between its two counters, oldest first; and the used ring.
abbrev pub waiting : RingStorage → List (Option ℕ)
waiting s =
    window (λ i. get_elem? s.available i) s.size (ring_slot s.size s.consumed_available)
      s.available_count

abbrev pub finished : RingStorage → List (Option UsedElement)
finished s = window (λ i. at s.used i) s.size (ring_slot s.size s.consumed_used) s.used_count

-- 1 for an entry of that head.
abbrev pub names : ℕ → Option ℕ → ℕ
names head none = 0
names head (some h) = if h == head then 1 else 0

abbrev pub uses : ℕ → Option UsedElement → ℕ
uses head none = 0
uses head (some u) = if u.head == head then 1 else 0

-- A chain ID of the epoch; the token is the head.
abbrev pub chain_id : ℕ → ℕ → ChainId
chain_id epoch head = record { epoch = epoch; token = head }

abbrev pub Filled : Option ℕ → Type 0
Filled none = ⊥
Filled (some h) = Unit {0}

abbrev pub Completed : ℕ → Option UsedElement → Type 0
Completed epoch none = ⊥
Completed epoch (some u) = u.id ≡ chain_id epoch u.head

pub record Rings (epoch : ℕ) (s : RingStorage) : Type 0 where
  pub exponent : ℕ
  pub power : s.size ≡ 2 ^ exponent
  pub small : exponent < 16
  pub records_length : length s.records ≡ s.size
  pub available_length : length s.available ≡ s.size
  pub used_length : length s.used ≡ s.size
  pub available_range : s.available_index < 2 ^ 16
  pub consumed_available_range : s.consumed_available < 2 ^ 16
  pub used_range : s.used_index < 2 ^ 16
  pub consumed_used_range : s.consumed_used < 2 ^ 16
  pub available_end :
      ring_slot s.size s.available_index
      ≡ (ring_slot s.size s.consumed_available + s.available_count) % s.size
  pub used_end :
      ring_slot s.size s.used_index ≡ (ring_slot s.size s.consumed_used + s.used_count) % s.size
  pub ids : (h : ℕ) (r : ChainRecord) → at s.records h ≡ some r → r.id ≡ chain_id epoch h
  pub waiting_filled : All Filled (waiting s)
  pub finished_completed : All (Completed epoch) (finished s)
  pub waiting_once : (h : ℕ) → sum_by (names h) (waiting s) ≡ state_of is_available (at s.records h)
  pub finished_once : (h : ℕ) → sum_by (uses h) (finished s) ≡ state_of is_used (at s.records h)
  pub available_number : s.available_count ≡ sum_by (state_of is_available) s.records
  pub used_number : s.used_count ≡ sum_by (state_of is_used) s.records
  pub active_number : s.active_chains ≡ sum_by present s.records
