-- ===== src/DeviceState/Commit.antt =====
-- Committing a release keeps the invariant of the device state: the removed object was the last
-- thing that its context counted it for.
use virtio_accel.Prelude.{
  ℕ, ◌+◌, ◌≡◌, refl, true, [], arith, inl, inr, ok, Result-cases, Bool-cases, sub_u32,
}
use virtio_accel.ObjectTable.{ObjectTable, get, put, remove}
use virtio_accel.ObjectTable.Laws.{remove-ok, remove-IsValid}
use virtio_accel.DeviceState.Records.{is_releasing, ContextRecord, QueueRecord}
use virtio_accel.DeviceState.Graph.{DeviceState, find}
use virtio_accel.DeviceState.Counted.{
  Counted-leave, Counted-forget, Counted-drop_owner, Counted-pos,
}
use virtio_accel.DeviceState.Referenced.{Referenced-remove}
use virtio_accel.DeviceState.Settled.{settled, AllOk-remove, AllOk-get}
use virtio_accel.DeviceState.Release.{
  ensure_releasing, commit_context_release, commit_queue_release,
}
use virtio_accel.DeviceState.Inv.{Inv, uses_queue, children_sum, QueuesInv}
use virtio_accel.DeviceState.Rebase.{rebase_buffers, rebase_programs, rebase_queues, rebase_events}
use virtio_accel.DeviceState.Recount.{with_children, recount_queues}
use virtio_accel.DeviceState.Departure.{releasing_unused, sub_u32_lem, owner_there}

module _ {C B P Q E : Type 0} where
  -- A queue that is being released goes.
  pub commit_queue-Inv :
      (s : DeviceState C B P Q E) (id : ℕ) (r : QueueRecord Q)
      → get s.queues id ≡ ok r
      → is_releasing r.resource.release ≡ true
      → Inv s []
      → ((commit_queue_release s id).1 ≡ ok tt) × Inv (commit_queue_release s id).0 []
  unfolding commit_queue_release find ensure_releasing
  commit_queue-Inv s id r found going v =
      let (c, owner) =
        owner_there (λ c. c.children.queues) (λ q. q.context_id) s.contexts s.queues id r
          v.queues.kids found in
      let unused : r.in_flight ≡ 0 =
        releasing_unused r.resource r.in_flight
          (AllOk-get (λ q. settled q.resource q.in_flight) s.queues id r v.queues.slots found)
          going in
      let left =
        Counted-leave (λ c. c.children.queues) (λ q. q.context_id) s.contexts s.queues id r [] found
          v.queues.kids in
      let (positive, fits) =
        Counted-pos (λ c. c.children.queues) (λ q. q.context_id) s.contexts r.context_id c
          (remove s.queues id).0 [] owner left in
      let n : ℕ = sub_u32 c.children.queues 1 in
      let down : n + 1 ≡ c.children.queues = sub_u32_lem c.children.queues positive fits in
      let built : QueuesInv
          (put s.contexts r.context_id (with_children c (record (c.children) { queues = n })))
          (remove s.queues id).0 s.events [] =
        record {
          valid = remove-IsValid s.queues id r v.queues.valid found;
          kids =
              Counted-forget (λ c. c.children.queues) (λ q. q.context_id) s.contexts r.context_id c
                (with_children c (record (c.children) { queues = n })) (remove s.queues id).0 []
                owner down left;
          refs = Referenced-remove _ _ uses_queue s.queues id r s.events found unused v.queues.refs;
          slots = AllOk-remove _ s.queues id r found v.queues.slots;
        } in
      rw
        (
          found,
          going,
          remove-ok s.queues id r found,
          owner,
          commit_queue_release,
          find,
          ensure_releasing,
        )
        (
          refl,
          recount_queues s r.context_id c n (remove s.queues id).0 owner (inr (omega (arith, down)))
              built v,
        )

  pub commit_queue_release-Inv :
      (s : DeviceState C B P Q E) (id : ℕ) → Inv s [] → Inv (commit_queue_release s id).0 []
  unfolding commit_queue_release find ensure_releasing
  commit_queue_release-Inv s id v = elim (Result-cases (get s.queues id)) [
    | inr (e, bad) ↦ rw (bad, commit_queue_release, find) v
    | inl (r, found) ↦ elim (Bool-cases (is_releasing r.resource.release)) [
      | inr kept ↦ rw (found, kept, commit_queue_release, find, ensure_releasing) v
      | inl going ↦ (commit_queue-Inv s id r found going v).1
    ]
  ]

  pub commit_context-Inv :
      (s : DeviceState C B P Q E) (id : ℕ) (r : ContextRecord C)
      → get s.contexts id ≡ ok r
      → is_releasing r.resource.release ≡ true
      → Inv s []
      → ((commit_context_release s id).1 ≡ ok tt) × Inv (commit_context_release s id).0 []
  unfolding commit_context_release find ensure_releasing
  commit_context-Inv s id r found going v =
      let none_left : children_sum r.children ≡ 0 =
        releasing_unused r.resource (children_sum r.children)
          (AllOk-get (λ c. settled c.resource (children_sum c.children)) s.contexts id r
            v.contexts.slots found)
          going in
      let left : ObjectTable (ContextRecord C) = (remove s.contexts id).0 in
      rw
        (
          found,
          going,
          remove-ok s.contexts id r found,
          commit_context_release,
          find,
          ensure_releasing,
        )
        (
          refl,
          record {
            limits = v.limits;
            contexts = record {
              valid = remove-IsValid s.contexts id r v.contexts.valid found;
              slots = AllOk-remove _ s.contexts id r found v.contexts.slots;
            };
            buffers =
                rebase_buffers s.contexts left s.events s.events [] [] s.buffers _
                  (Counted-drop_owner _ _ s.contexts id r s.buffers found (omega (arith, none_left))
                    v.buffers.kids)
                  v.buffers.refs v.buffers;
            programs =
                rebase_programs s.contexts left s.events s.events [] [] s.programs _ _
                  (Counted-drop_owner _ _ s.contexts id r s.programs found
                    (omega (arith, none_left)) v.programs.kids)
                  v.programs.refs v.programs;
            queues =
                rebase_queues s.contexts left s.events s.events [] [] s.queues
                  (Counted-drop_owner _ _ s.contexts id r s.queues found (omega (arith, none_left))
                    v.queues.kids)
                  v.queues.refs v.queues;
            events =
                rebase_events s.contexts left s.events [] []
                  (Counted-drop_owner _ _ s.contexts id r s.events found (omega (arith, none_left))
                    v.events.kids)
                  v.events;
          },
        )

  pub commit_context_release-Inv :
      (s : DeviceState C B P Q E) (id : ℕ) → Inv s [] → Inv (commit_context_release s id).0 []
  unfolding commit_context_release find ensure_releasing
  commit_context_release-Inv s id v = elim (Result-cases (get s.contexts id)) [
    | inr (e, bad) ↦ rw (bad, commit_context_release, find) v
    | inl (r, found) ↦ elim (Bool-cases (is_releasing r.resource.release)) [
      | inr kept ↦ rw (found, kept, commit_context_release, find, ensure_releasing) v
      | inl going ↦ (commit_context-Inv s id r found going v).1
    ]
  ]
