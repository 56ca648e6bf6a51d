-- ===== src/SplitQueue/Trace.antt =====
-- Sequences of calls on a split queue of crates/virtio-accel-split-queue/src/queue.rs, from its driver
-- and from its device, in any order. A trace remembers what the calls handed over since the last
-- reset, and the device chains that the device owns: a completion consumes its chain.
pub mod Inv
mod Lists
mod Handed
mod Carried
mod Transfers
pub mod Sent
mod Views
mod Control
mod Configure
pub mod Runs
pub mod Order
pub mod Resets
mod Tests
use virtio_accel.Prelude.{
  ℕ, zero, suc, ◌+◌, ◌^◌, ◌<◌, ◌≡◌, Bool, true, false, List, [], ◌∷◌, ◌++◌, get_elem?, Option, none,
  some, Result, ok, err, if◌then◌else◌, ◌==◌,
}
use virtio_accel.Transport.{new_size, PublishedChain, UsedChain, NotificationHint}
use virtio_accel.SplitQueue.Chain.{DriverChain, DeviceChain}
use virtio_accel.SplitQueue.Ring.{UsedElement}
use virtio_accel.SplitQueue.Queue.{SplitQueue, Error}
use virtio_accel.SplitQueue.Queue
use virtio_accel.SplitQueue.Queue.Transfer.{Published}
use virtio_accel.SplitQueue.Queue.Transfer
use virtio_accel.SplitQueue.Publish.{IsChain}

-- One call. A completion names one of the device's chains; a size is what `QueueSize::new` accepts.
pub data Op : Type 0 where
  publish inject_available : (chain : DriverChain) → IsChain chain → Op
  pop_available pop_used : Op
  complete : ℕ → ℕ → Op
  abandon : ℕ → Op
  configure : (ℕ → Bool) → (value size : ℕ) → new_size value ≡ some size → Op
  set_ready : Bool → Op
  driver_reset device_reset : ℕ → Op
  set_empty_ring_index : (index : ℕ) → index < 2 ^ 16 → Op
  set_next_descriptor : ℕ → Op
  enable_available disable_available enable_used disable_used : Op

pub record Trace : Type 0 where
  pub queue : SplitQueue
  pub outstanding : List DeviceChain
  pub published : List ℕ
  pub popped : List ℕ
  pub completed : List UsedElement
  pub reclaimed : List UsedElement
  pub sent : ℕ → Option DriverChain

-- What a result hands over.
abbrev pub token_of : Published → List ℕ
token_of (ok p) = p.id.token ∷ []
token_of (err _) = []

-- The chain that the driver published last under each head.
abbrev pub sent_with : (ℕ → Option DriverChain) → DriverChain → Published → ℕ → Option DriverChain
sent_with sent chain (ok p) head = if head == p.id.token then some chain else sent head
sent_with sent chain (err _) head = sent head

abbrev pub handed : Result Error (Option DeviceChain) → List DeviceChain
handed (ok (some c)) = c ∷ []
handed (ok none) = []
handed (err _) = []

abbrev pub tokens : List DeviceChain → List ℕ
tokens [] = []
tokens (c ∷ cs) = c.id.token ∷ tokens cs

abbrev pub element_of : DeviceChain → ℕ → Result Error NotificationHint → List UsedElement
element_of c used (ok _) = (record { head = c.id.token; id = c.id; used = used }) ∷ []
element_of c used (err _) = []

abbrev pub given_back : Result Error (Option (UsedChain DriverChain)) → List UsedElement
given_back (ok (some u)) = (record { head = u.id.token; id = u.id; used = u.used }) ∷ []
given_back (ok none) = []
given_back (err _) = []

-- The device's chains without one of them.
abbrev pub drop_at : List DeviceChain → ℕ → List DeviceChain
drop_at [] i = []
drop_at (c ∷ cs) zero = cs
drop_at (c ∷ cs) (suc i) = c ∷ drop_at cs i

-- A reset ends the history of the queue, if it is accepted.
abbrev pub forget {ℓ} : {A : Type ℓ} → Trace → SplitQueue → Result Error A → Trace
forget t q (ok _) = record t {
  queue = q;
  published = [];
  popped = [];
  completed = [];
  reclaimed = [];
}
forget t q (err _) = record t { queue = q }

unfoldable pub step : Op → Trace → Trace
step (publish chain c) t =
    let (q, r) = Transfer.publish t.queue chain in
    record t { queue = q; published = t.published ++ token_of r; sent = sent_with t.sent chain r }
step (inject_available chain c) t =
    let (q, r) = Transfer.inject_available t.queue chain in
    record t { queue = q; published = t.published ++ token_of r; sent = sent_with t.sent chain r }
step pop_available t =
    let (q, r) = Transfer.pop_available t.queue in
    record t {
      queue = q;
      popped = t.popped ++ tokens (handed r);
      outstanding = t.outstanding ++ handed r;
    }
step pop_used t =
    let (q, r) = Transfer.pop_used t.queue in
    record t { queue = q; reclaimed = t.reclaimed ++ given_back r }
step (complete i used) t = elim (get_elem? t.outstanding i) [
  | none ↦ t
  | some c ↦
      let (q, r) = Transfer.complete t.queue c used in
      record t {
        queue = q;
        outstanding = drop_at t.outstanding i;
        completed = t.completed ++ element_of c used r;
      }
]
step (abandon i) t = record t { outstanding = drop_at t.outstanding i }
step (configure reserve value size e) t = record t {
  queue = (Queue.configure reserve t.queue size).0;
}
step (set_ready ready) t = record t { queue = (Queue.set_ready t.queue ready).0 }
step (driver_reset epoch) t = let (q, r) = Queue.driver_reset t.queue epoch in forget t q r
step (device_reset epoch) t = let (q, r) = Queue.device_reset t.queue epoch in forget t q r
step (set_empty_ring_index index lt) t = record t {
  queue = (Queue.set_empty_ring_index t.queue index).0;
}
step (set_next_descriptor index) t = record t {
  queue = (Queue.set_next_descriptor t.queue index).0;
}
step enable_available t = record t { queue = (Transfer.enable_available_notifications t.queue).0 }
step disable_available t = record t { queue = (Transfer.disable_available_notifications t.queue).0 }
step enable_used t = record t { queue = (Transfer.enable_used_notifications t.queue).0 }
step disable_used t = record t { queue = (Transfer.disable_used_notifications t.queue).0 }

-- The calls in order.
unfoldable pub run : List Op → Trace → Trace
unfolding step
run [] t = t
run (op ∷ ops) t = run ops (step op t)

-- A queue that has not been used.
abbrev pub begin : SplitQueue → Trace
begin q = record {
  queue = q;
  outstanding = [];
  published = [];
  popped = [];
  completed = [];
  reclaimed = [];
  sent = λ _. none;
}
