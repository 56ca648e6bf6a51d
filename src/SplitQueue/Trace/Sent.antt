-- ===== src/SplitQueue/Trace/Sent.antt =====
-- The chains that a split queue of crates/virtio-accel-split-queue/src/queue.rs holds are those that
-- its driver published, with the descriptors that the allocation gave them.
use virtio_accel.Prelude.{
  ℕ, ◌<◌, ◌≤◌, ◌≡◌, length-set, refl, sym, ◌∙◌, subst, inl, inr, Bool, true, false, List, [], ◌∷◌,
  length, Option, none, some, arith, Result, ok, err, get_elem?, Option-cases, ==_cases, ==_refl,
}
use virtio_accel.Transport.{unconfigured}
use virtio_accel.SplitQueue.Chain.{DriverChain}
use virtio_accel.SplitQueue.Ring.{ChainRecord, at}
use virtio_accel.SplitQueue.Queue.{SplitQueue, Error, new_queue}
use virtio_accel.SplitQueue.Queue
use virtio_accel.SplitQueue.Queue.Transfer
use virtio_accel.SplitQueue.Queue.Transfer.{enqueue, publish_inner}
use virtio_accel.SplitQueue.Entries.{at-set_self, at-set_ne, at-lt}
use virtio_accel.SplitQueue.Storage.{published}
use virtio_accel.SplitQueue.Publish.{IsChain}
use virtio_accel.SplitQueue.Calls.{publish_inner-cases, Enqueued}
use virtio_accel.SplitQueue.Trace.{Trace, Op, step, run, begin, forget, sent_with}
use virtio_accel.SplitQueue.Trace.Inv.{TraceInv}
use virtio_accel.SplitQueue.Trace.Carried.{
  Carried, Holds, same_queue, switched, pop_available-Carried, pop_used-Carried, complete-Carried,
  set_ready-Carried, driver_reset-Carried, device_reset-Carried, set_next_descriptor-Carried,
  set_empty_ring_index-Carried, configure-Carried,
}
use virtio_accel.SplitQueue.Trace.Runs.{step-TraceInv, run-TraceInv}
use virtio_accel.SplitQueue.Trace.Control.{
  enable_available-Switched, enable_used-Switched, disable_available-Switched,
  disable_used-Switched,
}

-- A chain as it was published, but for the slots: as many, of the allocation.
abbrev pub Placed : Option DriverChain → DriverChain → Type 0
Placed none placed = ⊥
Placed (some chain) placed =
    (placed ≡ record chain { slots = placed.slots }) × (length placed.slots ≡ length chain.slots)

pub record SentInv (t : Trace) : Type 0 where
  pub held :
      (head : ℕ) (chain : DriverChain)
      → Holds t.queue.storage head chain
      → Placed (t.sent head) chain

carried : {t t' : Trace} → SentInv t → Carried t.queue t'.queue → t'.sent ≡ t.sent → SentInv t'
carried {t} {t'} inv c e = record {
  held = λ head chain h.
      subst (λ f. Placed (f head) chain) (sym e) (inv.held head chain (c.held head chain h));
}

module _ {t : Trace} (inv : TraceInv t) (sent : SentInv t) (chain : DriverChain) where
  abbrev after : SplitQueue × Transfer.Published → Trace
  after (q, r) = record t { queue = q; sent = sent_with t.sent chain r }

  abbrev Kept : SplitQueue × Transfer.Published → Type 0
  Kept result = SentInv (after result) × (t.queue.state.epoch ≤ result.0.state.epoch)

  -- The new record is of the chain, under the head that the driver gets; the others are as before.
  publish-Enqueued :
      {result : SplitQueue × Transfer.Published} → Enqueued t.queue chain result → Kept result
  unfolding enqueue
  publish-Enqueued {result} p = subst Kept (sym p.outcome) (
    record {
      held = λ head placed (s, r, stored, there, same).
          let w : published p.valid chain p.allocated ≡ s = cc stored in
          let new : at (published p.valid chain p.allocated).records head ≡ some r =
            subst (λ x. at x.records head ≡ some r) (sym w) there in
          elim (==_cases head p.allocated.head) [
            | inl is_it ↦
                let found : some _ ≡ some r =
                  sym (at-set_self p.before.records p.allocated.head _ (inside p head r is_it new))
                  ∙ subst (λ k. at (published p.valid chain p.allocated).records k ≡ some r) is_it
                      new in
                let e : record chain { slots = p.allocated.slots } ≡ placed = cc (found, same) in
                rw (is_it, ==_refl p.allocated.head)
                  (subst (Placed (some chain)) e (refl, p.allocated.slots_length))
            | inr other ↦ rw other (
                sent.held head placed (
                  p.before,
                  r,
                  p.stored,
                  sym (at-set_ne p.before.records p.allocated.head head _ (ground arith)) ∙ new,
                  same,
                ))
          ];
    },
    omega arith,
  )
    where
      inside :
          (p : Enqueued t.queue chain result) (head : ℕ) (r : ChainRecord)
          → head ≡ p.allocated.head
          → at (published p.valid chain p.allocated).records head ≡ some r
          → p.allocated.head < length p.before.records
      inside p head r is_it new = omega (
        arith,
        is_it,
        at-lt (published p.valid chain p.allocated).records head new,
        length-set p.before.records p.allocated.head _,
      )

  pub publish_inner-Kept :
      (inject : Bool) → IsChain chain → Kept (Transfer.publish_inner t.queue chain inject)
  publish_inner-Kept inject c = elim (publish_inner-cases chain inject inv.queue c) [
    | inl (kind, outcome, sound) ↦
        subst Kept (sym outcome) (record { held = sent.held }, omega arith)
    | inr p ↦ publish-Enqueued p
  ]

forget-sent {ℓ} :
    {A : Type ℓ} (t : Trace) (q : SplitQueue) (r : Result Error A) → (forget t q r).sent ≡ t.sent
forget-sent t q (ok _) = refl
forget-sent t q (err _) = refl

complete-sent : (t : Trace) (i used : ℕ) → (step (Op.complete i used) t).sent ≡ t.sent
unfolding step
complete-sent t i used = elim (Option-cases (get_elem? t.outstanding i)) [
  | inl e ↦ ground (arith, e)
  | inr (c, e) ↦ ground (arith, e)
]

-- What a call keeps: the held chains are the published ones, and the epoch does not go back.
abbrev StepKept : Op → Trace → Type 0
StepKept op t = SentInv (step op t) × (t.queue.state.epoch ≤ (step op t).queue.state.epoch)

module _ {t : Trace} (inv : TraceInv t) (sent : SentInv t) where
  kept :
      (t' : Trace)
      → Carried t.queue t'.queue
      → t'.sent ≡ t.sent
      → SentInv t' × (t.queue.state.epoch ≤ t'.queue.state.epoch)
  kept t' c e = (carried sent c e, c.later)

  pub step-Kept : (op : Op) → StepKept op t
  unfolding step Transfer.publish Transfer.inject_available
  step-Kept (Op.publish chain c) =
      let k = publish_inner-Kept inv sent chain false c in (record { held = k.0.held }, k.1)
  step-Kept (Op.inject_available chain c) =
      let k = publish_inner-Kept inv sent chain true c in (record { held = k.0.held }, k.1)
  step-Kept Op.pop_available = kept _ (pop_available-Carried inv) refl
  step-Kept Op.pop_used = kept _ (pop_used-Carried inv) refl
  step-Kept (Op.complete i used) = kept _ (complete-Carried inv i used) (complete-sent t i used)
  step-Kept (Op.abandon i) = kept _ (same_queue refl) refl
  step-Kept (Op.configure reserve value size e) =
      kept _ (configure-Carried inv reserve value size e) refl
  step-Kept (Op.set_ready ready) = kept _ (set_ready-Carried inv ready) refl
  step-Kept (Op.driver_reset epoch) =
      kept _ (driver_reset-Carried inv epoch)
        (forget-sent t (Queue.driver_reset t.queue epoch).0 (Queue.driver_reset t.queue epoch).1)
  step-Kept (Op.device_reset epoch) =
      kept _ (device_reset-Carried inv epoch)
        (forget-sent t (Queue.device_reset t.queue epoch).0 (Queue.device_reset t.queue epoch).1)
  step-Kept (Op.set_empty_ring_index index lt) =
      kept _ (set_empty_ring_index-Carried inv index lt) refl
  step-Kept (Op.set_next_descriptor index) = kept _ (set_next_descriptor-Carried inv index) refl
  step-Kept Op.enable_available = kept _ (switched inv _ (enable_available-Switched inv)) refl
  step-Kept Op.disable_available = kept _ (switched inv _ (disable_available-Switched inv)) refl
  step-Kept Op.enable_used = kept _ (switched inv _ (enable_used-Switched inv)) refl
  step-Kept Op.disable_used = kept _ (switched inv _ (disable_used-Switched inv)) refl

-- What holds after any sequence of calls from a trace with the invariants.
pub record RunKept (t t' : Trace) : Type 0 where
  pub invariant : TraceInv t'
  pub sent : SentInv t'
  pub later : t.queue.state.epoch ≤ t'.queue.state.epoch

pub run-RunKept : (ops : List Op) {t : Trace} → TraceInv t → SentInv t → RunKept t (run ops t)
unfolding run
run-RunKept [] inv sent = record { invariant = inv; sent = sent; later = omega arith }
run-RunKept (op ∷ ops) inv sent =
    let (s, up) = step-Kept inv sent op in
    let k = run-RunKept ops (step-TraceInv op inv) s in
    record { invariant = k.invariant; sent = k.sent; later = omega (arith, up, k.later) }

begin-SentInv :
    (max_size max_chain : ℕ) {q : SplitQueue}
    → new_queue max_size max_chain ≡ ok q
    → SentInv (begin q)
unfolding new_queue unconfigured
begin-SentInv max_size max_chain {q} made = record {
  held = λ head chain (s, r, stored, there, same). absurd (cc (no_storage, stored));
}
  where
    no_storage : q.storage ≡ none
    no_storage = ground arith

-- After any sequence of calls on a new queue.
pub run-SentInv :
    (max_size max_chain : ℕ) {q : SplitQueue} (ops : List Op)
    → new_queue max_size max_chain ≡ ok q
    → SentInv (run ops (begin q))
unfolding run
run-SentInv max_size max_chain {q} ops made =
    (run-RunKept ops (run-TraceInv max_size max_chain [] made)
      (begin-SentInv max_size max_chain made)).sent
