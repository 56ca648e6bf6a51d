-- ===== src/SplitQueue/Trace/Handed.antt =====
-- Publication, the two pops and completion keep the invariant of a trace of a split queue.
use mathlib.Core.List.{append-nil}
use virtio_accel.Prelude.{
  ℕ, ◌≤◌, ◌<◌, ◌≡◌, inl, inr, [], ◌∷◌, ◌++◌, sum_by, sum_by-push, Option, none, some, is_some,
  All-push, ap, refl, ◌∙◌, sym, subst, arith, ==_cases, get_elem?,
}
use virtio_accel.Transport.{UsedChain, NotificationHint}
use virtio_accel.SplitQueue.Chain.{DeviceChain, DriverChain}
use virtio_accel.SplitQueue.Ring.{RingStorage, ChainState, at}
use virtio_accel.SplitQueue.Queue.{SplitQueue, is_in_flight, Outcome}
use virtio_accel.SplitQueue.Queue.Transfer.{Published, enqueue}
use virtio_accel.SplitQueue.Entries.{at-set_ne, at-lt}
use virtio_accel.SplitQueue.Rings.{waiting, finished, state_of, chain_id}
use virtio_accel.SplitQueue.Storage.{Storage, published-Storage, waiting-published, head_vacant}
use virtio_accel.SplitQueue.Pop.{fly, waiting-cons, waiting-fly}
use virtio_accel.SplitQueue.PopUsed.{finished-cons, finished-popped}
use virtio_accel.SplitQueue.Finish.{finish, finished-finish}
use virtio_accel.SplitQueue.Steps.{fly-Storage, finish-Storage, pop_used-Storage, left_by_pop}
use virtio_accel.SplitQueue.Enqueue.{state_write, state_at}
use virtio_accel.SplitQueue.Calls.{QueueInv, Refused, Enqueued}
use virtio_accel.SplitQueue.Outcomes.{Popped, Reclaimed, Finished}
use virtio_accel.SplitQueue.Trace.{
  Trace, token_of, sent_with, handed, tokens, element_of, given_back, drop_at,
}
use virtio_accel.SplitQueue.Trace.Inv.{TraceInv, somes, all_waiting, all_finished, flying_at, owns}
use virtio_accel.SplitQueue.Trace.Lists.{fifo-push, fifo-pop, sum_by-drop_at, All-drop_at}

-- A queue whose storage has been replaced by one of the same size.
pub QueueInv-storage :
    {q : SplitQueue} (s s' : RingStorage)
    → QueueInv q
    → q.storage ≡ some s
    → Storage q.state.epoch s'
    → s'.size ≡ s.size
    → QueueInv (record q { storage = some s' })
QueueInv-storage {q} s s' inv e w same = record {
  epoch_shared = inv.epoch_shared;
  stored = λ s'' e'.
      let found : s' ≡ s'' = cc e' in
      (
        subst (Storage q.state.epoch) found w,
        (inv.stored s e).1 ∙ ap some (sym same ∙ ap (λ x. x.size) found),
      );
  size_stored = inv.size_stored ∙ ap is_some e;
  ready_stored = λ on. refl;
}

module _ {t : Trace} (inv : TraceInv t) where
  module _ (s : RingStorage) (stored : t.queue.storage ≡ some s) where
    waiting_before : somes t.published ≡ somes t.popped ++ waiting s
    waiting_before = inv.available_fifo ∙ ap (λ o. somes t.popped ++ all_waiting o) stored

    finished_before : somes t.completed ≡ somes t.reclaimed ++ finished s
    finished_before = inv.used_fifo ∙ ap (λ o. somes t.reclaimed ++ all_finished o) stored

    flying_before :
        (h : ℕ)
        → sum_by (owns t.queue.state.epoch h) t.outstanding ≤ state_of is_in_flight (at s.records h)
    flying_before h =
        subst (λ o. sum_by (owns t.queue.state.epoch h) t.outstanding ≤ flying_at o h) stored
          (inv.in_flight h)

  abbrev pub after_publish : DriverChain → SplitQueue × Published → Trace
  after_publish chain (q, r) = record t {
    queue = q;
    published = t.published ++ token_of r;
    sent = sent_with t.sent chain r;
  }

  module _ (chain : DriverChain) {result : SplitQueue × Published} where
    pub publish-Refused : Refused t.queue chain result → TraceInv (after_publish chain result)
    publish-Refused (kind, e, sound) =
        subst (λ x. TraceInv (after_publish chain x)) (sym e)
          (record {
            queue = inv.queue;
            available_fifo = ap somes (append-nil t.published) ∙ inv.available_fifo;
            used_fifo = inv.used_fifo;
            no_later = inv.no_later;
            in_flight = inv.in_flight;
          })

    pub publish-Enqueued : Enqueued t.queue chain result → TraceInv (after_publish chain result)
    unfolding enqueue
    publish-Enqueued p =
        subst (λ x. TraceInv (after_publish chain x)) (sym p.outcome)
          (record {
            queue =
                QueueInv-storage p.before _ inv.queue p.stored
                  (published-Storage p.valid chain p.allocated p.room) refl;
            available_fifo =
                fifo-push t.published t.popped (waiting p.before) p.allocated.head
                  (waiting_before p.before p.stored)
                ∙ ap (λ r. somes t.popped ++ r)
                    (sym (waiting-published p.valid chain p.allocated p.room));
            used_fifo = finished_before p.before p.stored;
            no_later = inv.no_later;
            in_flight = λ h. elim (==_cases h p.allocated.head) [
              | inl same ↦ ground (
                arith,
                flying_before p.before p.stored p.allocated.head,
                head_vacant p.valid chain p.allocated,
              )
              | inr other ↦
                  rw (at-set_ne p.before.records p.allocated.head h _ (ground arith))
                    (flying_before p.before p.stored h)
            ];
          })

same_queue :
    (q : SplitQueue) (s : RingStorage) → q.storage ≡ some s → q ≡ record q { storage = some s }
same_queue q s e = ap (λ o. record q { storage = o }) e

module _ {t : Trace} (inv : TraceInv t) where
  -- Nothing has changed but how the queue is written.
  pub unchanged :
      (s : RingStorage)
      → t.queue.storage ≡ some s
      → TraceInv (record t { queue = record (t.queue) { storage = some s } })
  unchanged s e = subst (λ q. TraceInv (record t { queue = q })) (same_queue t.queue s e) inv

  abbrev pub after_pop : Outcome (Option DeviceChain) → Trace
  after_pop (q, r) = record t {
    queue = q;
    popped = t.popped ++ tokens (handed r);
    outstanding = t.outstanding ++ handed r;
  }

  pub nothing_popped :
      (q : SplitQueue)
      → TraceInv (record t { queue = q })
      → TraceInv
          (record t { queue = q; popped = t.popped ++ []; outstanding = t.outstanding ++ [] })
  nothing_popped q i =
      subst (λ p. TraceInv (record t { queue = q; popped = p; outstanding = t.outstanding ++ [] }))
        (sym (append-nil t.popped))
        (subst (λ o. TraceInv (record t { queue = q; outstanding = o }))
          (sym (append-nil t.outstanding)) i)

  module _ {result : Outcome (Option DeviceChain)} where
    pub pop_available-Popped : Popped t.queue result → TraceInv (after_pop result)
    pop_available-Popped p =
        subst (λ x. TraceInv (after_pop x)) (sym p.outcome)
          (record {
            queue =
                QueueInv-storage p.before _ inv.queue p.stored
                  (fly-Storage p.valid p.head p.entry p.held p.some_waiting p.first p.available)
                  refl;
            available_fifo =
                fifo-pop t.published t.popped (waiting (fly p.before p.entry p.head))
                  p.entry.id.token
                  (waiting_before inv p.before p.stored
                    ∙ ap (λ r. somes t.popped ++ r) oldest_first);
            used_fifo = finished_before inv p.before p.stored;
            no_later =
                All-push _ t.outstanding _ inv.no_later (omega (arith, ap (λ x. x.epoch) id));
            in_flight = λ h. ground (
              arith,
              sum_by-push (owns t.queue.state.epoch h) t.outstanding chain,
              state_write p.valid.rings p.head inside is_in_flight
                  (some (record (p.entry) { state = ChainState.in_flight })) h,
              state_at p.valid.rings p.head inside is_in_flight (some p.entry) h p.held,
              flying_before inv p.before p.stored h,
              id,
            );
          })
      where
        chain : DeviceChain
        chain = record {
          id = p.entry.id;
          chain_data = p.entry.chain.chain_data;
          max_descriptors = t.queue.max_chain_descriptors;
        }

        inside : p.head < p.before.size
        inside = omega (arith, p.valid.rings.records_length, at-lt p.before.records p.head p.held)

        id : p.entry.id ≡ chain_id t.queue.state.epoch p.head
        id = p.valid.rings.ids p.head p.entry p.held

        oldest_first :
            waiting p.before ≡ some p.entry.id.token ∷ waiting (fly p.before p.entry p.head)
        oldest_first =
            waiting-cons p.valid.rings p.head p.entry p.some_waiting p.first p.held p.available
            ∙ cc (
              id,
              waiting-fly p.valid.rings p.head p.entry p.some_waiting p.first p.held p.available,
            )

  abbrev pub after_pop_used : Outcome (Option (UsedChain DriverChain)) → Trace
  after_pop_used (q, r) = record t { queue = q; reclaimed = t.reclaimed ++ given_back r }

  pub nothing_reclaimed :
      (q : SplitQueue)
      → TraceInv (record t { queue = q })
      → TraceInv (record t { queue = q; reclaimed = t.reclaimed ++ [] })
  nothing_reclaimed q i =
      subst (λ p. TraceInv (record t { queue = q; reclaimed = p })) (sym (append-nil t.reclaimed)) i

  module _ {result : Outcome (Option (UsedChain DriverChain))} where
    pub pop_used-Reclaimed : Reclaimed t.queue result → TraceInv (after_pop_used result)
    pop_used-Reclaimed p =
        subst (λ x. TraceInv (after_pop_used x)) (sym p.outcome)
          (record {
            queue =
                QueueInv-storage p.before _ inv.queue p.stored
                  (pop_used-Storage p.valid p.element p.entry p.some_used p.first p.held p.used)
                  refl;
            available_fifo = waiting_before inv p.before p.stored;
            used_fifo =
                fifo-pop t.completed t.reclaimed
                  (finished
                    (left_by_pop p.valid p.element p.entry p.some_used p.first p.held p.used))
                  (record { head = p.entry.id.token; id = p.entry.id; used = p.element.used })
                  (finished_before inv p.before p.stored
                    ∙ ap (λ r. somes t.reclaimed ++ r) oldest_first);
            no_later = inv.no_later;
            in_flight = λ h. ground (
              arith,
              state_write p.valid.rings p.element.head inside is_in_flight none h,
              state_at p.valid.rings p.element.head inside is_in_flight (some p.entry) h p.held,
              flying_before inv p.before p.stored h,
              p.used,
            );
          })
      where
        inside : p.element.head < p.before.size
        inside =
            omega
              (arith, p.valid.rings.records_length, at-lt p.before.records p.element.head p.held)

        id : p.entry.id ≡ chain_id t.queue.state.epoch p.element.head
        id = p.valid.rings.ids p.element.head p.entry p.held

        oldest_first :
            finished p.before
            ≡ some (record { head = p.entry.id.token; id = p.entry.id; used = p.element.used })
              ∷ finished (left_by_pop p.valid p.element p.entry p.some_used p.first p.held p.used)
        oldest_first =
            finished-cons p.valid.rings p.element p.entry p.some_used p.first p.held p.used
            ∙ cc (
              id,
              p.completed,
              finished-popped p.valid.rings p.element p.entry p.some_used p.first p.held p.used _ _,
            )

  module _ (i used : ℕ) (c : DeviceChain) (owned : get_elem? t.outstanding i ≡ some c) where
    abbrev pub after_complete : Outcome NotificationHint → Trace
    after_complete (q, r) = record t {
      queue = q;
      outstanding = drop_at t.outstanding i;
      completed = t.completed ++ element_of c used r;
    }

    module _ {result : Outcome NotificationHint} where
      pub complete-Finished : Finished t.queue c used result → TraceInv (after_complete result)
      complete-Finished p =
          subst (λ x. TraceInv (after_complete x)) (sym p.outcome)
            (record {
              queue =
                  QueueInv-storage p.before _ inv.queue p.stored
                    (finish-Storage p.valid c.id.token p.entry p.held used p.flying) refl;
              available_fifo = waiting_before inv p.before p.stored;
              used_fifo =
                  fifo-push t.completed t.reclaimed (finished p.before) _
                    (finished_before inv p.before p.stored)
                  ∙ ap (λ r. somes t.reclaimed ++ r) newest_last;
              no_later = All-drop_at _ t.outstanding i inv.no_later;
              in_flight = λ h. ground (
                arith,
                sum_by-drop_at (owns t.queue.state.epoch h) t.outstanding i c owned,
                state_write p.valid.rings c.id.token inside is_in_flight
                    (some (record (p.entry) { state = ChainState.used })) h,
                state_at p.valid.rings c.id.token inside is_in_flight (some p.entry) h p.held,
                flying_before inv p.before p.stored h,
                p.flying,
                id,
                p.same,
              );
            })
        where
          inside : c.id.token < p.before.size
          inside =
              omega (arith, p.valid.rings.records_length, at-lt p.before.records c.id.token p.held)

          id : p.entry.id ≡ chain_id t.queue.state.epoch c.id.token
          id = p.valid.rings.ids c.id.token p.entry p.held

          newest_last :
              finished p.before ++ some (record { head = c.id.token; id = c.id; used = used }) ∷ []
              ≡ finished (finish p.before p.entry p.entry.id used c.id.token)
          newest_last =
              cc (p.same, finished-finish p.valid.rings p.entry used c.id.token p.held p.flying)
