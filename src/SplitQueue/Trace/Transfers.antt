-- ===== src/SplitQueue/Trace/Transfers.antt =====
-- Every transfer of a trace keeps the invariant: publication, the two pops, completion, and a chain
-- that the device drops.
use mathlib.Core.List.{append-nil}
use virtio_accel.Prelude.{
  ℕ, ◌≡◌, inl, inr, some, Option-cases, false, true, get_elem?, subst, sym, arith, ◌++◌, [],
}
use virtio_accel.SplitQueue.Chain.{DriverChain, DeviceChain}
use virtio_accel.SplitQueue.Publish.{IsChain}
use virtio_accel.SplitQueue.Calls.{publish_inner-cases}
use virtio_accel.SplitQueue.Outcomes.{pop_available-cases, pop_used-cases, complete-cases}
use virtio_accel.SplitQueue.Queue.Transfer
use virtio_accel.SplitQueue.Trace.{Trace, Op, step, drop_at}
use virtio_accel.SplitQueue.Trace.Lists.{All-drop_at, sum_by-drop_at_le}
use virtio_accel.SplitQueue.Trace.Inv.{TraceInv, owns}
use virtio_accel.SplitQueue.Trace.Handed.{
  publish-Refused, publish-Enqueued, unchanged, nothing_popped, nothing_reclaimed,
  pop_available-Popped, pop_used-Reclaimed, complete-Finished, after_pop, after_pop_used,
  after_complete,
}

module _ {t : Trace} (inv : TraceInv t) where
  pub publish-TraceInv :
      (chain : DriverChain) (c : IsChain chain) → TraceInv (step (Op.publish chain c) t)
  unfolding step Transfer.publish
  publish-TraceInv chain c = elim (publish_inner-cases chain false inv.queue c) [
    | inl r ↦ publish-Refused inv chain r
    | inr p ↦ publish-Enqueued inv chain p
  ]

  pub inject_available-TraceInv :
      (chain : DriverChain) (c : IsChain chain) → TraceInv (step (Op.inject_available chain c) t)
  unfolding step Transfer.inject_available
  inject_available-TraceInv chain c = elim (publish_inner-cases chain true inv.queue c) [
    | inl r ↦ publish-Refused inv chain r
    | inr p ↦ publish-Enqueued inv chain p
  ]

  pub pop_available-TraceInv : TraceInv (step Op.pop_available t)
  unfolding step
  pop_available-TraceInv = elim (pop_available-cases inv.queue) [
    | inl off ↦ subst (λ x. TraceInv (after_pop inv x)) (sym off.1) (nothing_popped inv t.queue inv)
    | inr (inl (s, e, empty, outcome)) ↦
        subst (λ x. TraceInv (after_pop inv x)) (sym outcome)
          (nothing_popped inv _ (unchanged inv s e))
    | inr (inr p) ↦ pop_available-Popped inv p
  ]

  pub pop_used-TraceInv : TraceInv (step Op.pop_used t)
  unfolding step
  pop_used-TraceInv = elim (pop_used-cases inv.queue) [
    | inl off ↦
        subst (λ x. TraceInv (after_pop_used inv x)) (sym off.1) (nothing_reclaimed inv t.queue inv)
    | inr (inl (s, e, empty, outcome)) ↦
        subst (λ x. TraceInv (after_pop_used inv x)) (sym outcome)
          (nothing_reclaimed inv _ (unchanged inv s e))
    | inr (inr p) ↦ pop_used-Reclaimed inv p
  ]

  pub abandon-TraceInv : (i : ℕ) → TraceInv (record t { outstanding = drop_at t.outstanding i })
  abandon-TraceInv i = record {
    queue = inv.queue;
    available_fifo = inv.available_fifo;
    used_fifo = inv.used_fifo;
    no_later = All-drop_at _ t.outstanding i inv.no_later;
    in_flight = λ h.
        omega
          (arith, inv.in_flight h, sum_by-drop_at_le (owns t.queue.state.epoch h) t.outstanding i);
  }

  complete-failed :
      (i used : ℕ) (c : DeviceChain) (owned : get_elem? t.outstanding i ≡ some c)
      → TraceInv (record t { outstanding = drop_at t.outstanding i; completed = t.completed ++ [] })
  complete-failed i used c owned =
      subst (λ p. TraceInv (record t { outstanding = drop_at t.outstanding i; completed = p }))
        (sym (append-nil t.completed)) (abandon-TraceInv i)

  pub complete-TraceInv : (i used : ℕ) → TraceInv (step (Op.complete i used) t)
  unfolding step
  complete-TraceInv i used = elim (Option-cases (get_elem? t.outstanding i)) [
    | inl e ↦
        subst TraceInv (let eq : t ≡ step (Op.complete i used) t = ground (arith, e) in eq) inv
    | inr (c, owned) ↦
        subst TraceInv
          (let eq : after_complete inv i used c owned (Transfer.complete t.queue c used)
                ≡ step (Op.complete i used) t =
              ground (arith, owned) in
            eq)
          (elim (complete-cases inv.queue c used) [
            | inl failed ↦
                subst (λ x. TraceInv (after_complete inv i used c owned x)) (sym failed.1)
                  (complete-failed i used c owned)
            | inr p ↦ complete-Finished inv i used c owned p
          ])
  ]
