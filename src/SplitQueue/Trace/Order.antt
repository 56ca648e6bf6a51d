-- ===== src/SplitQueue/Trace/Order.antt =====
-- The order in which a split queue of crates/virtio-accel-split-queue/src/queue.rs hands chains over,
-- and the outcome of every call, in terms of the history of the queue.
use virtio_accel.Prelude.{
  ℕ, ◌≤◌, ◌<◌, ◌≡◌, ◌≢◌, inl, inr, Bool, true, false, not, ◌&&◌, ◌++◌, length, sum_by-ge, some, ap,
  refl, ◌∙◌, sym, subst, arith, ok, err, leb, Bool-cases, get_elem?, Option-cases, if◌then◌else◌,
  ◌==◌, map_ok, ◌^◌,
}
use virtio_accel.Transport.{QueueError, PublishErrorKind, PublishError}
use virtio_accel.SplitQueue.Chain.{DeviceChain, DriverChain, side_len}
use virtio_accel.SplitQueue.Ring.{RingStorage, ChainRecord, SplitQueueError, at, corrupt_state}
use virtio_accel.SplitQueue.Queue.{SplitQueue, hint, is_in_flight}
use virtio_accel.SplitQueue.Queue.Transfer
use virtio_accel.SplitQueue.Allocate.{size_le}
use virtio_accel.SplitQueue.Entries.{at-lt}
use virtio_accel.SplitQueue.Storage.{Storage}
use virtio_accel.SplitQueue.Finish.{complete_storage-ok}
use virtio_accel.SplitQueue.Pop.{record_of_state, rest, waiting-cons}
use virtio_accel.SplitQueue.PopUsed.{rest_used, finished-cons}
use virtio_accel.SplitQueue.Publish.{IsChain}
use virtio_accel.SplitQueue.Calls.{publish_inner-cases}
use virtio_accel.SplitQueue.Outcomes.{pop_available-cases, pop_used-cases, Popped, Reclaimed}
use virtio_accel.SplitQueue.Trace.{Trace}
use virtio_accel.SplitQueue.Trace.Sent.{SentInv}
use virtio_accel.SplitQueue.Trace.Inv.{TraceInv, somes, all_waiting, all_finished, owns, flying_at}
use virtio_accel.SplitQueue.Trace.Views.{
  next_in, none_left, device_view, driver_view, returned, device_view-Placed, driver_view-Placed,
}

pop_available-off :
    (q : SplitQueue)
    → q.state.ready ≡ false
    → (Transfer.pop_available q).1 ≡ err QueueError.not_ready
unfolding Transfer.pop_available
pop_available-off q off = ground arith

pop_used-off :
    (q : SplitQueue) → q.state.ready ≡ false → (Transfer.pop_used q).1 ≡ err QueueError.not_ready
unfolding Transfer.pop_used
pop_used-off q off = ground arith

module _ {t : Trace} (inv : TraceInv t) where
  published_next :
      (p : Popped t.queue (Transfer.pop_available t.queue))
      → get_elem? t.published (length t.popped) ≡ some p.entry.id.token
  published_next p = next_in t.published t.popped (rest p.before) p.entry.id.token (
      inv.available_fifo
      ∙ ap (λ o. somes t.popped ++ all_waiting o) p.stored
      ∙ ap (λ r. somes t.popped ++ r)
          (waiting-cons p.valid.rings p.head p.entry p.some_waiting p.first p.held p.available
            ∙ cc (p.valid.rings.ids p.head p.entry p.held)))

  completed_next :
      (p : Reclaimed t.queue (Transfer.pop_used t.queue))
      → get_elem? t.completed (length t.reclaimed) ≡ some p.element
  completed_next p = next_in t.completed t.reclaimed (rest_used p.before) p.element (
      inv.used_fifo
      ∙ ap (λ o. somes t.reclaimed ++ all_finished o) p.stored
      ∙ ap (λ r. somes t.reclaimed ++ r)
          (finished-cons p.valid.rings p.element p.entry p.some_used p.first p.held p.used))

when_true {ℓ} : {A : Type ℓ} {b : Bool} → b ≡ true → (x y : A) → x ≡ (if b then x else y)
when_true e x y = rw e refl

module _ {t : Trace} (inv : TraceInv t) (sent : SentInv t) where
  -- In a queue with the invariants, `pop_available` hands out, in the order of publication, the chain
  -- under the head that was published after all that have been popped since the last reset, or nothing
  -- if there is none: under that head's ID, with the descriptors and the analysis of the chain that the
  -- driver published last under that head. It fails only where the queue is not ready.
  pub pop_available-next : (Transfer.pop_available t.queue).1 ≡ (
      if t.queue.state.ready
      then ok (device_view t (get_elem? t.published (length t.popped)))
      else err QueueError.not_ready)
  pop_available-next = elim (Bool-cases t.queue.state.ready) [
    | inr off ↦ ground (arith, pop_available-off t.queue off)
    | inl on ↦ elim (pop_available-cases inv.queue) [
      | inl (off, e) ↦ absurd (cc)
      | inr (inl (s, stored, empty, e)) ↦ ground (
        arith,
        e,
        none_left t.published t.popped (
            inv.available_fifo
            ∙ ap (λ o. somes t.popped ++ all_waiting o) stored
            ∙ ap (λ r. somes t.popped ++ r) empty),
      )
      | inr (inr p) ↦
          let id = p.valid.rings.ids p.head p.entry p.held in
          (ap (λ x. x.1) p.outcome
            ∙ ap ok (cc id)
            ∙ ap ok (
                sym (
                  device_view-Placed t p.head p.entry.chain
                    (sent.held p.head p.entry.chain (p.before, p.entry, p.stored, p.held, refl))))
            ∙ ap (λ o. ok (device_view t o))
                (sym (published_next inv p ∙ ap (λ i. some i.token) id))
            ∙ when_true on _ _)
    ]
  ]

  -- In a queue with the invariants, `pop_used` gives back, in the order of completion, the chain that
  -- was completed after all that have been given back since the last reset, or nothing if there is
  -- none: under its ID and with the used length of that completion, the chain that the driver published
  -- last under its head, where the numbers in the slots may differ. It fails only where the queue is
  -- not ready.
  pub pop_used-next : map_ok returned (Transfer.pop_used t.queue).1 ≡ (
      if t.queue.state.ready
      then ok (driver_view t (get_elem? t.completed (length t.reclaimed)))
      else err QueueError.not_ready)
  pop_used-next = elim (Bool-cases t.queue.state.ready) [
    | inr off ↦ ground (arith, pop_used-off t.queue off)
    | inl on ↦ elim (pop_used-cases inv.queue) [
      | inl (off, e) ↦ absurd (cc)
      | inr (inl (s, stored, empty, e)) ↦ ground (
        arith,
        e,
        none_left t.completed t.reclaimed (
            inv.used_fifo
            ∙ ap (λ o. somes t.reclaimed ++ all_finished o) stored
            ∙ ap (λ r. somes t.reclaimed ++ r) empty),
      )
      | inr (inr p) ↦
          let id : p.entry.id ≡ p.element.id =
            p.valid.rings.ids p.element.head p.entry p.held ∙ sym p.completed in
          (ap (λ x. map_ok returned x.1) p.outcome
            ∙ ap
                (λ i. ok (
                  returned
                    (some (record { id = i; used = p.element.used; chain = p.entry.chain }))))
                id
            ∙ ap ok (
                sym (
                  driver_view-Placed t p.element p.entry.chain (
                    sent.held p.element.head p.entry.chain
                      (p.before, p.entry, p.stored, p.held, refl))))
            ∙ ap (λ o. ok (driver_view t o)) (sym (completed_next inv p))
            ∙ when_true on _ _)
    ]
  ]

module _ {t : Trace} (inv : TraceInv t) where
  -- A chain that the device owns and that is not stale is in flight.
  module _ (i : ℕ) (c : DeviceChain) (owned : get_elem? t.outstanding i ≡ some c)
      (fresh : c.id.epoch ≡ t.queue.state.epoch) where
    counted : 0 < flying_at t.queue.storage c.id.token
    counted = ground (
      arith,
      inv.in_flight c.id.token,
      sum_by-ge (owns t.queue.state.epoch c.id.token) t.outstanding i c owned,
    )

    in_flight_record :
        (s : RingStorage) × (r : ChainRecord) × (t.queue.storage ≡ some s)
        × (at s.records c.id.token ≡ some r)
        × (is_in_flight r.state ≡ true)
    in_flight_record = elim (Option-cases t.queue.storage) [
      | inl e ↦ absurd (omega (arith, subst (λ o. 0 < flying_at o c.id.token) e counted))
      | inr (s, e) ↦
          let (r, held, state) =
            record_of_state is_in_flight (at s.records c.id.token)
              (subst (λ o. 0 < flying_at o c.id.token) e counted) in
          (s, r, e, held, state)
    ]

    complete-fresh :
        (used : ℕ)
        → t.queue.state.ready ≡ true
        → used ≤ side_len c.chain_data true
        → (Transfer.complete t.queue c used).1 ≡ ok (hint t.queue.used_notifications)
    unfolding Transfer.complete
    complete-fresh used on fits =
        let (s, r, stored, held, flying) = in_flight_record in
        let w : Storage t.queue.state.epoch s = (inv.queue.stored s stored).0 in
        let same : r.id ≡ c.id = ground (arith, w.rings.ids c.id.token r held) in
        let small : c.id.token < 2 ^ 16 = omega (
          arith,
          at-lt s.records c.id.token held,
          w.rings.records_length,
          size_le s.size w.rings.exponent w.rings.power w.rings.small,
        ) in
        ground (
          arith,
          stored,
          on,
          fresh,
          fits,
          small,
          same,
          complete_storage-ok w.rings r used c.id.token held flying t.queue.used_notifications,
        )

  complete-other :
      (c : DeviceChain) (used : ℕ)
      → ((c.id.epoch == t.queue.state.epoch)
          && t.queue.state.ready
          && leb used (side_len c.chain_data true))
        ≡ false
      → (Transfer.complete t.queue c used).1 ≡ (
          if not (c.id.epoch == t.queue.state.epoch)
          then err (QueueError.reset_race c.id.epoch t.queue.state.epoch)
          else if not t.queue.state.ready
          then err QueueError.not_ready
          else err (QueueError.used_length_exceeded used (side_len c.chain_data true)))
  unfolding Transfer.complete
  complete-other c used bad = ground arith

  -- In a queue with the invariant, the completion of a chain that the device owns: a chain of an
  -- earlier epoch is refused as a reset race, then a queue that is not ready refuses, then a used
  -- length above the writable bytes of the chain is refused; and in every other case the completion
  -- succeeds, with a notification unless the driver suppressed it.
  pub complete-outcome :
      (i used : ℕ) (c : DeviceChain)
      → get_elem? t.outstanding i ≡ some c
      → (Transfer.complete t.queue c used).1 ≡ (
          if not (c.id.epoch == t.queue.state.epoch)
          then err (QueueError.reset_race c.id.epoch t.queue.state.epoch)
          else if not t.queue.state.ready
          then err QueueError.not_ready
          else if leb used (side_len c.chain_data true)
          then ok (hint t.queue.used_notifications)
          else err (QueueError.used_length_exceeded used (side_len c.chain_data true)))
  complete-outcome i used c owned =
      elim (Bool-cases (
        (c.id.epoch == t.queue.state.epoch)
        && t.queue.state.ready
        && leb used (side_len c.chain_data true))) [
          | inl good ↦
              ground
                (arith, complete-fresh i c owned (ground arith) used (ground arith) (ground arith))
          | inr bad ↦ ground (arith, complete-other c used bad)
        ]

  -- In a queue with the invariant, a publication that fails changes nothing, gives the same chain
  -- back, and is never the report of a corrupt state; this holds for an injected chain as well.
  pub publish_inner-refused :
      (chain : DriverChain) (inject : Bool) {e : PublishError DriverChain SplitQueueError}
      → IsChain chain
      → (Transfer.publish_inner t.queue chain inject).1 ≡ err e
      → ((Transfer.publish_inner t.queue chain inject).0 ≡ t.queue)
        × (e.chain ≡ chain)
        × (e.kind ≢ PublishErrorKind.transport corrupt_state)
  publish_inner-refused chain inject {e} c failed =
      elim (publish_inner-cases chain inject inv.queue c) [
        | inl (kind, outcome, sound) ↦
            let same : (record { chain = chain; kind = kind }) ≡ e = ground (arith, outcome) in
            (
              ap (λ x. x.0) outcome,
              ap (λ x. x.chain) (sym same),
              λ bad. sound (ap (λ x. x.kind) same ∙ bad),
            )
        | inr p ↦ absurd (ground (arith, p.outcome))
      ]
