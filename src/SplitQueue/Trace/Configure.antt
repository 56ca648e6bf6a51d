-- ===== src/SplitQueue/Trace/Configure.antt =====
-- A new configuration, and the changes of an idle storage, keep the invariant of a trace of a split
-- queue.
use native.Mathlib.Nat.{mod-eq_of_lt, add-zero}
use virtio_accel.Prelude.{
  ℕ, ◌+◌, ◌%◌, ◌^◌, ◌≤◌, ◌<◌, ◌≡◌, ◌⊎◌, inl, inr, Bool, false, ◌||◌, ltb, List, [], ◌∷◌, ◌++◌,
  sum_by, Option, none, some, ap, refl, ◌∙◌, sym, subst, arith, ok, ==_cases, get_elem?,
  Option-cases, Bool-cases, Result-cases, leb,
}
use virtio_accel.Transport.{new_size, new_state}
use virtio_accel.Transport.Laws.{new_size-power}
use virtio_accel.SplitQueue.Ring.{RingStorage, ChainRecord, ChainState, at, ring_slot, new_storage}
use virtio_accel.SplitQueue.Queue.{
  SplitQueue, Error, Outcome, is_in_flight, is_available, is_used, has_chains, advance_epoch,
}
use virtio_accel.SplitQueue.Queue
use virtio_accel.SplitQueue.Window.{window}
use virtio_accel.SplitQueue.Entries.{present, at-lt, sum_by-pos}
use virtio_accel.SplitQueue.Rings.{waiting, finished, state_of}
use virtio_accel.SplitQueue.Storage.{Storage, Rings-frame}
use virtio_accel.SplitQueue.Steps.{new_storage-Storage}
use virtio_accel.SplitQueue.Trace.{Trace, Op, step}
use virtio_accel.SplitQueue.Trace.Inv.{TraceInv, somes, all_waiting, all_finished, flying_at, owns}
use virtio_accel.SplitQueue.Trace.Handed.{QueueInv-storage}
use virtio_accel.SplitQueue.Enqueue.{slot_lt}

-- The records of a storage without chains.
state_of-le :
    (p : ChainState → Bool) (xs : List (Option ChainRecord))
    → sum_by (state_of p) xs ≤ sum_by present xs
state_of-le p [] = omega arith
state_of-le p (none ∷ xs) = omega (arith, state_of-le p xs)
state_of-le p (some r ∷ xs) = ground (arith, state_of-le p xs)

module _ {epoch : ℕ} {s : RingStorage} (w : Storage epoch s) (idle : s.active_chains ≡ 0) where
  no_record : (h : ℕ) → at s.records h ≡ none
  no_record h = elim (Option-cases (at s.records h)) [
    | inl e ↦ e
    | inr (r, e) ↦
        let there : present (at s.records h) ≡ 1 = rw e refl in
        absurd (
          omega (
            arith,
            there,
            sum_by-pos present s.records h (at-lt s.records h e),
            w.rings.active_number,
          ))
  ]

  no_state : (p : ChainState → Bool) (h : ℕ) → state_of p (at s.records h) ≡ 0
  no_state p h = rw (no_record h) refl

  none_available : s.available_count ≡ 0
  none_available =
      omega
        (arith, w.rings.available_number, w.rings.active_number, state_of-le is_available s.records)

  none_used : s.used_count ≡ 0
  none_used =
      omega (arith, w.rings.used_number, w.rings.active_number, state_of-le is_used s.records)

  no_waiting : waiting s ≡ []
  no_waiting =
      ap (window (λ i. get_elem? s.available i) s.size (ring_slot s.size s.consumed_available))
        none_available

  no_finished : finished s ≡ []
  no_finished = ap (window (λ i. at s.used i) s.size (ring_slot s.size s.consumed_used)) none_used

  abbrev pub moved : ℕ → RingStorage
  moved index = record s {
    available_index = index;
    consumed_available = index;
    used_index = index;
    consumed_used = index;
    available_count = 0;
    used_count = 0;
  }

  moved-Storage : (index : ℕ) → index < 2 ^ 16 → Storage epoch (moved index)
  moved-Storage index lt = record {
    rings = record {
      exponent = w.rings.exponent;
      power = w.rings.power;
      small = w.rings.small;
      records_length = w.rings.records_length;
      available_length = w.rings.available_length;
      used_length = w.rings.used_length;
      available_range = lt;
      consumed_available_range = lt;
      used_range = lt;
      consumed_used_range = lt;
      available_end = stays;
      used_end = stays;
      ids = w.rings.ids;
      waiting_filled = tt;
      finished_completed = tt;
      waiting_once = λ h. sym (no_state is_available h);
      finished_once = λ h. sym (no_state is_used h);
      available_number = sym none_available ∙ w.rings.available_number;
      used_number = sym none_used ∙ w.rings.used_number;
      active_number = w.rings.active_number;
    };
    owners = record {
      descriptors_length = w.owners.descriptors_length;
      next_range = w.owners.next_range;
      free_number = w.owners.free_number;
      owned_once = w.owners.owned_once;
      head_held = w.owners.head_held;
    };
  }
    where
      stays : ring_slot s.size index ≡ (ring_slot s.size index + 0) % s.size
      stays = sym (
          ap (λ h. h % s.size) (add-zero (ring_slot s.size index))
          ∙ mod-eq_of_lt (slot_lt s.size w.rings.exponent index w.rings.power w.rings.small))

-- Any next descriptor in the table will do.
next-Storage :
    {epoch : ℕ} {s : RingStorage} (index : ℕ)
    → Storage epoch s
    → index < s.size
    → Storage epoch (record s { next_descriptor = index })
next-Storage {s = s} index w lt = record {
  rings = Rings-frame s.descriptors s.free_descriptors index w.rings;
  owners = record {
    descriptors_length = w.owners.descriptors_length;
    next_range = lt;
    free_number = w.owners.free_number;
    owned_once = w.owners.owned_once;
    head_held = w.owners.head_held;
  };
}

module _ {t : Trace} (inv : TraceInv t) where
  -- A storage whose rings and records say the same takes the place of the one before.
  module _ (s s' : RingStorage) (stored : t.queue.storage ≡ some s)
      (w : Storage t.queue.state.epoch s') (same_size : s'.size ≡ s.size) where
    TraceInv-storage :
        waiting s' ≡ waiting s
        → finished s' ≡ finished s
        → s'.records ≡ s.records
        → TraceInv (record t { queue = record (t.queue) { storage = some s' } })
    TraceInv-storage wait fin recs = record {
      queue = QueueInv-storage s s' inv.queue stored w same_size;
      available_fifo =
          inv.available_fifo
          ∙ ap (λ o. somes t.popped ++ all_waiting o) stored
          ∙ ap (λ r. somes t.popped ++ r) (sym wait);
      used_fifo =
          inv.used_fifo
          ∙ ap (λ o. somes t.reclaimed ++ all_finished o) stored
          ∙ ap (λ r. somes t.reclaimed ++ r) (sym fin);
      no_later = inv.no_later;
      in_flight = λ h.
          subst
            (λ r.
              sum_by (owns t.queue.state.epoch h) t.outstanding ≤ state_of is_in_flight (at r h))
            (sym recs)
            (subst (λ o. sum_by (owns t.queue.state.epoch h) t.outstanding ≤ flying_at o h) stored
              (inv.in_flight h));
    }

  pub set_next_descriptor-TraceInv : (index : ℕ) → TraceInv (step (Op.set_next_descriptor index) t)
  unfolding step Queue.set_next_descriptor
  set_next_descriptor-TraceInv index = elim (Option-cases t.queue.storage) [
    | inl e ↦
        subst TraceInv (let q : t ≡ step (Op.set_next_descriptor index) t = ground (arith, e) in q)
          inv
    | inr (s, e) ↦ elim (Bool-cases (leb s.size index)) [
      | inl out ↦
          subst TraceInv
            (let q : t ≡ step (Op.set_next_descriptor index) t = ground (arith, e) in q) inv
      | inr lt ↦
          subst TraceInv
            (let q : record t {
              queue = record (t.queue) { storage = some (record s { next_descriptor = index }) };
            }
                  ≡ step (Op.set_next_descriptor index) t =
                ground (arith, e) in
              q)
            (TraceInv-storage s (record s { next_descriptor = index }) e
              (next-Storage index (inv.queue.stored s e).0 (ground arith)) refl refl refl refl)
    ]
  ]

  pub set_empty_ring_index-TraceInv :
      (index : ℕ) (lt : index < 2 ^ 16) → TraceInv (step (Op.set_empty_ring_index index lt) t)
  unfolding step Queue.set_empty_ring_index
  set_empty_ring_index-TraceInv index lt = elim (Option-cases t.queue.storage) [
    | inl e ↦
        subst TraceInv
          (let q : t ≡ step (Op.set_empty_ring_index index lt) t = ground (arith, e) in q) inv
    | inr (s, e) ↦
        let w : Storage t.queue.state.epoch s = (inv.queue.stored s e).0 in
        elim (==_cases s.active_chains 0) [
          | inr busy ↦
              subst TraceInv
                (let q : t ≡ step (Op.set_empty_ring_index index lt) t = ground (arith, e) in q) inv
          | inl idle ↦
              subst TraceInv
                (let q : record t {
                  queue = record (t.queue) { storage = some (moved w idle index) };
                }
                      ≡ step (Op.set_empty_ring_index index lt) t =
                    ground (arith, e) in
                  q)
                (TraceInv-storage s (moved w idle index) e (moved-Storage w idle index lt) refl
                  (sym (no_waiting w idle)) (sym (no_finished w idle)) refl)
        ]
  ]

-- What a configuration that is accepted leaves.
abbrev pub configured : SplitQueue → ℕ → RingStorage → SplitQueue
configured q size s = record q {
  state = record {
    max_size = q.state.max_size;
    size = some size;
    ready = false;
    epoch = q.state.epoch;
  };
  storage = some s;
}

module _ {t : Trace} (inv : TraceInv t) (reserve : ℕ → Bool) (value size : ℕ)
    (accepted : new_size value ≡ some size) where
  pub configure-cases :
      ((Queue.configure reserve t.queue size).0 ≡ t.queue)
      ⊎ ((s : RingStorage) × (new_storage reserve size ≡ ok s)
          × (has_chains t.queue.storage ≡ false)
          × ((Queue.configure reserve t.queue size).0 ≡ configured t.queue size s))
  unfolding Queue.configure new_state
  configure-cases = elim (Result-cases (new_storage reserve size)) [
    | inr (e, failed) ↦ inl (ground arith)
    | inl (s, made) ↦ elim (Bool-cases (has_chains t.queue.storage)) [
      | inl busy ↦ inl (ground arith)
      | inr idle ↦
          elim (Bool-cases (
            t.queue.state.ready
            || ltb t.queue.state.max_size size
            || ltb size t.queue.max_chain_descriptors)) [
              | inl refused ↦ inl (ground arith)
              | inr passed ↦ inr (s, made, idle, ground arith)
            ]
    ]
  ]

  -- Without chains the rings are empty and nothing is in flight.
  idle_rings :
      (o : Option RingStorage)
      → t.queue.storage ≡ o
      → has_chains o ≡ false
      → (all_waiting o ≡ []) × (all_finished o ≡ []) × ((h : ℕ) → flying_at o h ≡ 0)
  idle_rings none e idle = (refl, refl, λ h. refl)
  idle_rings (some s) e idle =
      let w : Storage t.queue.state.epoch s = (inv.queue.stored s e).0 in
      let none_active : s.active_chains ≡ 0 = ground arith in
      (no_waiting w none_active, no_finished w none_active, no_state w none_active is_in_flight)

  pub configure-TraceInv : TraceInv (step (Op.configure reserve value size accepted) t)
  unfolding step
  configure-TraceInv = elim configure-cases [
    | inl same ↦ subst (λ q. TraceInv (record t { queue = q })) (sym same) inv
    | inr (s, made, idle, e) ↦
        let (k, lt, power) = new_size-power value accepted in
        let (w, wait, fin, same_size) =
          new_storage-Storage size k t.queue.state.epoch power lt reserve made in
        let (old_wait, old_fin, grounded) = idle_rings t.queue.storage refl idle in
        subst (λ q. TraceInv (record t { queue = q })) (sym e)
          (record {
            queue = record {
              epoch_shared = inv.queue.epoch_shared;
              stored = λ s' e'.
                  let found : s ≡ s' = cc e' in
                  (
                    subst (Storage t.queue.state.epoch) found w,
                    ap some (sym same_size ∙ ap (λ x. x.size) found),
                  );
              size_stored = refl;
              ready_stored = λ on. refl;
            };
            available_fifo =
                inv.available_fifo ∙ ap (λ r. somes t.popped ++ r) (old_wait ∙ sym wait);
            used_fifo = inv.used_fifo ∙ ap (λ r. somes t.reclaimed ++ r) (old_fin ∙ sym fin);
            no_later = inv.no_later;
            in_flight = λ h. omega (arith, inv.in_flight h, grounded h);
          })
  ]
