-- ===== src/SplitQueue/Trace/Carried.antt =====
-- What every call on a split queue of crates/virtio-accel-split-queue/src/queue.rs carries over: the
-- epoch never goes back, and the records that were not published by the call are of the chains that
-- were there before.
use virtio_accel.Prelude.{
  ℕ, zero, suc, Bool, ◌<◌, ◌^◌, ◌≤◌, ◌≡◌, refl, sym, ap, ◌∙◌, subst, inl, inr, Option, none, some,
  arith, ok, get_elem?, Option-cases, Bool-cases, ==_cases, leb, replicate, set,
}
use virtio_accel.Transport.{new_size, unconfigured}
use virtio_accel.SplitQueue.Chain.{DriverChain}
use virtio_accel.SplitQueue.Ring.{RingStorage, ChainRecord, at, new_storage}
use virtio_accel.SplitQueue.Queue.{SplitQueue, advance_epoch}
use virtio_accel.SplitQueue.Queue
use virtio_accel.SplitQueue.Queue.Transfer
use virtio_accel.SplitQueue.Entries.{at-set_self, at-set_ne, at-lt}
use virtio_accel.SplitQueue.Outcomes.{pop_available-cases, pop_used-cases, complete-cases}
use virtio_accel.SplitQueue.Trace.{Trace, Op, step}
use virtio_accel.SplitQueue.Trace.Inv.{TraceInv}
use virtio_accel.SplitQueue.Trace.Control.{Switched, set_ready-cases}
use virtio_accel.SplitQueue.Trace.Configure.{moved, configure-cases}

-- A chain that a storage holds under a head.
abbrev pub Holds : Option RingStorage → ℕ → DriverChain → Type 0
Holds o head chain =
    (s : RingStorage) × (r : ChainRecord) × (o ≡ some s)
    × (at s.records head ≡ some r)
    × (r.chain ≡ chain)

pub record Carried (q q' : SplitQueue) : Type 0 where
  pub later : q.state.epoch ≤ q'.state.epoch
  pub held :
      (head : ℕ) (chain : DriverChain) → Holds q'.storage head chain → Holds q.storage head chain

same_storage :
    {q q' : SplitQueue} → q'.state.epoch ≡ q.state.epoch → q'.storage ≡ q.storage → Carried q q'
same_storage {q} {q'} epoch e = record {
  later = omega (arith, epoch);
  held = λ head chain (s, r, stored, there, same). (s, r, sym e ∙ stored, there, same);
}

pub same_queue : {q q' : SplitQueue} → q' ≡ q → Carried q q'
same_queue e = same_storage (ap (λ x. x.state.epoch) e) (ap (λ x. x.storage) e)

no_storage : {q q' : SplitQueue} → q.state.epoch ≤ q'.state.epoch → q'.storage ≡ none → Carried q q'
no_storage later e = record {
  later = later;
  held = λ head chain (s, r, stored, there, same). absurd (cc (e, stored));
}

-- A storage in which one record was written: with the same chain, or with none.
module _ {q : SplitQueue} (s s' : RingStorage) (stored : q.storage ≡ some s) where
  same_records : s'.records ≡ s.records → Carried q (record q { storage = some s' })
  same_records e = record {
    later = omega arith;
    held = λ head chain (s'', r, found, there, same). (
      s,
      r,
      stored,
      ap (λ rs. at rs head) (sym e)
          ∙ (let w : s' ≡ s'' = cc found in subst (λ x. at x.records head ≡ some r) (sym w) there),
      same,
    );
  }

  written :
      (h : ℕ) (r : ChainRecord) (o : Option ChainRecord)
      → at s.records h ≡ some r
      → s'.records ≡ set s.records h o
      → ((r' : ChainRecord) → o ≡ some r' → r'.chain ≡ r.chain)
      → Carried q (record q { storage = some s' })
  written h r o there e kept = record {
    later = omega arith;
    held = λ head chain (s'', r', found, there', same).
        let w : s' ≡ s'' = cc found in
        let in_new : at (set s.records h o) head ≡ some r' =
          subst (λ rs. at rs head ≡ some r') e
            (subst (λ x. at x.records head ≡ some r') (sym w) there') in
        elim (==_cases head h) [
          | inl is_it ↦
              let now : o ≡ some r' =
                sym (at-set_self s.records h o (at-lt s.records h there))
                ∙ subst (λ k. at (set s.records h o) k ≡ some r') is_it in_new in
              (s, r, stored, ap (at s.records) is_it ∙ there, sym (kept r' now) ∙ same)
          | inr other ↦
              (s, r', stored, sym (at-set_ne s.records h head o (ground arith)) ∙ in_new, same)
        ];
  }

-- A new storage holds no chain.
at-replicate : (n head : ℕ) → at {A = ChainRecord} (replicate n none) head ≡ none
at-replicate zero head = refl
at-replicate (suc n) zero = refl
at-replicate (suc n) (suc head) = at-replicate n head

vacant :
    (size : ℕ) (reserve : ℕ → Bool) {s : RingStorage}
    → new_storage reserve size ≡ ok s
    → (head : ℕ) → at s.records head ≡ none
unfolding new_storage
vacant size reserve made head = elim (Bool-cases (reserve size)) [
  | inl granted ↦ ground (arith, at-replicate size head)
  | inr refused ↦ absurd (ground arith)
]

module _ {t : Trace} (inv : TraceInv t) where
  pub pop_available-Carried : Carried t.queue (step Op.pop_available t).queue
  unfolding step
  pop_available-Carried = elim (pop_available-cases inv.queue) [
    | inl off ↦ same_queue (ap (λ x. x.0) off.1)
    | inr (inl (s, e, empty, outcome)) ↦
        subst (λ x. Carried t.queue x.0) (sym outcome) (same_records s s e refl)
    | inr (inr p) ↦
        subst (λ x. Carried t.queue x.0) (sym p.outcome)
          (written p.before _ p.stored p.head p.entry _ p.held refl
            (λ r' e. sym (ap (λ o. chain_of o p.entry.chain) e)))
  ]
    where
      chain_of : Option ChainRecord → DriverChain → DriverChain
      chain_of none c = c
      chain_of (some r) c = r.chain

  pub pop_used-Carried : Carried t.queue (step Op.pop_used t).queue
  unfolding step
  pop_used-Carried = elim (pop_used-cases inv.queue) [
    | inl off ↦ same_queue (ap (λ x. x.0) off.1)
    | inr (inl (s, e, empty, outcome)) ↦
        subst (λ x. Carried t.queue x.0) (sym outcome) (same_records s s e refl)
    | inr (inr p) ↦
        subst (λ x. Carried t.queue x.0) (sym p.outcome)
          (written p.before _ p.stored p.element.head p.entry _ p.held refl (λ r' e. absurd (cc e)))
  ]

  pub complete-Carried : (i used : ℕ) → Carried t.queue (step (Op.complete i used) t).queue
  unfolding step
  complete-Carried i used = elim (Option-cases (get_elem? t.outstanding i)) [
    | inl e ↦ same_queue (ground (arith, e))
    | inr (c, owned) ↦
        subst (Carried t.queue)
          (let eq : (Transfer.complete t.queue c used).0 ≡ (step (Op.complete i used) t).queue =
              ground (arith, owned) in
            eq)
          (elim (complete-cases inv.queue c used) [
            | inl failed ↦ same_queue (ap (λ x. x.0) failed.1)
            | inr p ↦
                subst (λ x. Carried t.queue x.0) (sym p.outcome)
                  (written p.before _ p.stored c.id.token p.entry _ p.held refl
                    (λ r' e. ground arith))
          ])
  ]

  pub switched : (q : SplitQueue) → Switched t.queue q → Carried t.queue q
  switched q (a, u, e) = same_storage (ap (λ x. x.state.epoch) e) (ap (λ x. x.storage) e)

  pub set_ready-Carried : (ready : Bool) → Carried t.queue (step (Op.set_ready ready) t).queue
  unfolding step
  set_ready-Carried ready = elim (set_ready-cases inv ready) [
    | inl same ↦ same_queue same
    | inr (e, sized) ↦ same_storage (ap (λ x. x.state.epoch) e) (ap (λ x. x.storage) e)
  ]

  pub driver_reset-Carried : (epoch : ℕ) → Carried t.queue (step (Op.driver_reset epoch) t).queue
  unfolding step Queue.driver_reset advance_epoch unconfigured
  driver_reset-Carried epoch = elim (Bool-cases (leb epoch t.queue.state.epoch)) [
    | inl stale ↦ same_queue (ground arith)
    | inr later ↦ no_storage (ground arith) (ground arith)
  ]

  pub device_reset-Carried : (epoch : ℕ) → Carried t.queue (step (Op.device_reset epoch) t).queue
  unfolding step Queue.device_reset advance_epoch unconfigured
  device_reset-Carried epoch = elim (Bool-cases (leb epoch t.queue.state.epoch)) [
    | inl stale ↦ same_queue (ground arith)
    | inr later ↦ no_storage (ground arith) (ground arith)
  ]

  pub set_next_descriptor-Carried :
      (index : ℕ) → Carried t.queue (step (Op.set_next_descriptor index) t).queue
  unfolding step Queue.set_next_descriptor
  set_next_descriptor-Carried index = elim (Option-cases t.queue.storage) [
    | inl e ↦ same_queue (ground (arith, e))
    | inr (s, e) ↦ elim (Bool-cases (leb s.size index)) [
      | inl out ↦ same_queue (ground (arith, e))
      | inr lt ↦
          subst (Carried t.queue)
            (let eq : record (t.queue) { storage = some (record s { next_descriptor = index }) }
                  ≡ (step (Op.set_next_descriptor index) t).queue =
                ground (arith, e) in
              eq)
            (same_records s (record s { next_descriptor = index }) e refl)
    ]
  ]

  pub set_empty_ring_index-Carried :
      (index : ℕ) (lt : index < 2 ^ 16)
      → Carried t.queue (step (Op.set_empty_ring_index index lt) t).queue
  unfolding step Queue.set_empty_ring_index
  set_empty_ring_index-Carried index lt = elim (Option-cases t.queue.storage) [
    | inl e ↦ same_queue (ground (arith, e))
    | inr (s, e) ↦ elim (==_cases s.active_chains 0) [
      | inr busy ↦ same_queue (ground (arith, e))
      | inl idle ↦
          subst (Carried t.queue)
            (let eq : record (t.queue) {
              storage = some (moved (inv.queue.stored s e).0 idle index);
            }
                  ≡ (step (Op.set_empty_ring_index index lt) t).queue =
                ground (arith, e) in
              eq)
            (same_records s (moved (inv.queue.stored s e).0 idle index) e refl)
    ]
  ]

  pub configure-Carried :
      (reserve : ℕ → Bool) (value size : ℕ) (accepted : new_size value ≡ some size)
      → Carried t.queue (step (Op.configure reserve value size accepted) t).queue
  unfolding step
  configure-Carried reserve value size accepted =
      elim (configure-cases inv reserve value size accepted) [
        | inl same ↦ same_queue same
        | inr (s, made, idle, e) ↦ subst (Carried t.queue) (sym e) (record {
          later = omega arith;
          held = λ head chain (s', r, found, there, same). absurd (
              cc (
                vacant size reserve made head,
                let w : s ≡ s' = cc found in subst (λ x. at x.records head ≡ some r) (sym w) there,
              ));
        })
      ]
