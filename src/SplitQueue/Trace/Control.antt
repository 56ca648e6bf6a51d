-- ===== src/SplitQueue/Trace/Control.antt =====
-- Configuration, resets and switches keep the invariant of a trace of a split queue.
use virtio_accel.Prelude.{
  ℕ, ◌≤◌, ◌<◌, ◌≡◌, ◌⊎◌, inl, inr, Bool, true, false, List, [], ◌∷◌, ◌++◌, sum_by, none, is_some,
  All, ap, refl, ◌∙◌, sym, subst, arith, Option-cases, Bool-cases, Result-cases, leb,
}
use virtio_accel.Transport.{new_state, unconfigured}
use virtio_accel.SplitQueue.Chain.{DeviceChain}
use virtio_accel.SplitQueue.Queue.{
  SplitQueue, Error, Outcome, is_in_flight, is_available, is_used, has_chains, advance_epoch,
}
use virtio_accel.SplitQueue.Queue
use virtio_accel.SplitQueue.Queue.Transfer
use virtio_accel.SplitQueue.Calls.{QueueInv}
use virtio_accel.SplitQueue.Trace.{Trace, Op, step}
use virtio_accel.SplitQueue.Trace.Inv.{TraceInv, somes, all_waiting, all_finished, flying_at, owns}

-- A queue with the same storage and epoch.
pub TraceInv-queue :
    {t : Trace} (q : SplitQueue)
    → TraceInv t
    → QueueInv q
    → q.storage ≡ t.queue.storage
    → q.state.epoch ≡ t.queue.state.epoch
    → TraceInv (record t { queue = q })
TraceInv-queue {t} q inv qi e epoch = record {
  queue = qi;
  available_fifo = inv.available_fifo ∙ ap (λ o. somes t.popped ++ all_waiting o) (sym e);
  used_fifo = inv.used_fifo ∙ ap (λ o. somes t.reclaimed ++ all_finished o) (sym e);
  no_later = subst (λ k. All (λ c. c.id.epoch ≤ k) t.outstanding) (sym epoch) inv.no_later;
  in_flight = λ h.
      subst (λ k. sum_by (owns k h) t.outstanding ≤ flying_at q.storage h) (sym epoch)
        (subst (λ o. sum_by (owns t.queue.state.epoch h) t.outstanding ≤ flying_at o h) (sym e)
          (inv.in_flight h));
}

-- The flags of a queue are not part of its invariant.
QueueInv-flags :
    {q : SplitQueue} (a u : Bool)
    → QueueInv q
    → QueueInv (record q { available_notifications = a; used_notifications = u })
QueueInv-flags a u inv = record {
  epoch_shared = inv.epoch_shared;
  stored = inv.stored;
  size_stored = inv.size_stored;
  ready_stored = inv.ready_stored;
}

-- A switch changes the flags at most.
abbrev pub Switched : SplitQueue → SplitQueue → Type 0
Switched q q' =
    (a : Bool) × (u : Bool) × (q'
      ≡ record q { available_notifications = a; used_notifications = u })

pub Switched-TraceInv :
    {t : Trace} (q : SplitQueue)
    → TraceInv t
    → Switched t.queue q
    → TraceInv (record t { queue = q })
Switched-TraceInv {t} q inv (a, u, e) =
    TraceInv-queue q inv (subst QueueInv (sym e) (QueueInv-flags a u inv.queue))
      (ap (λ x. x.storage) e) (ap (λ x. x.state.epoch) e)

module _ {t : Trace} (inv : TraceInv t) where
  pub enable_available-Switched :
      Switched t.queue (Transfer.enable_available_notifications t.queue).0
  unfolding Transfer.enable_available_notifications
  enable_available-Switched = elim (Bool-cases t.queue.state.ready) [
    | inr off ↦ (t.queue.available_notifications, t.queue.used_notifications, ground arith)
    | inl on ↦ elim (Option-cases t.queue.storage) [
      | inl e ↦ (true, t.queue.used_notifications, ground arith)
      | inr (s, e) ↦ (true, t.queue.used_notifications, ground arith)
    ]
  ]

  pub enable_used-Switched : Switched t.queue (Transfer.enable_used_notifications t.queue).0
  unfolding Transfer.enable_used_notifications
  enable_used-Switched = elim (Bool-cases t.queue.state.ready) [
    | inr off ↦ (t.queue.available_notifications, t.queue.used_notifications, ground arith)
    | inl on ↦ elim (Option-cases t.queue.storage) [
      | inl e ↦ (t.queue.available_notifications, true, ground arith)
      | inr (s, e) ↦ (t.queue.available_notifications, true, ground arith)
    ]
  ]

  pub disable_available-Switched :
      Switched t.queue (Transfer.disable_available_notifications t.queue).0
  unfolding Transfer.disable_available_notifications
  disable_available-Switched = elim (Bool-cases t.queue.state.ready) [
    | inr off ↦ (t.queue.available_notifications, t.queue.used_notifications, ground arith)
    | inl on ↦ (false, t.queue.used_notifications, ground arith)
  ]

  pub disable_used-Switched : Switched t.queue (Transfer.disable_used_notifications t.queue).0
  unfolding Transfer.disable_used_notifications
  disable_used-Switched = elim (Bool-cases t.queue.state.ready) [
    | inr off ↦ (t.queue.available_notifications, t.queue.used_notifications, ground arith)
    | inl on ↦ (t.queue.available_notifications, false, ground arith)
  ]

  pub set_ready-cases :
      (ready : Bool)
      → ((Queue.set_ready t.queue ready).0 ≡ t.queue)
        ⊎ (((Queue.set_ready t.queue ready).0
              ≡ record (t.queue) { state = record (t.queue.state) { ready = ready } })
            × (ready ≡ true → is_some t.queue.state.size ≡ true))
  unfolding Queue.set_ready new_state
  set_ready-cases ready =
      elim (Result-cases
        (new_state t.queue.state.max_size t.queue.state.size ready t.queue.state.epoch)) [
          | inr (e, failed) ↦ inl (ground arith)
          | inl (s, done) ↦ inr (ground arith, λ on. ground arith)
        ]

  -- A queue that is made ready has a size, and so a storage.
  pub set_ready-TraceInv : (ready : Bool) → TraceInv (step (Op.set_ready ready) t)
  unfolding step
  set_ready-TraceInv ready = elim (set_ready-cases ready) [
    | inl same ↦ subst (λ q. TraceInv (record t { queue = q })) (sym same) inv
    | inr (e, sized) ↦
        TraceInv-queue (Queue.set_ready t.queue ready).0 inv
          (subst QueueInv (sym e) (record {
            epoch_shared = inv.queue.epoch_shared;
            stored = inv.queue.stored;
            size_stored = inv.queue.size_stored;
            ready_stored = λ on. sym inv.queue.size_stored ∙ sized on;
          }))
          (ap (λ x. x.storage) e) (ap (λ x. x.state.epoch) e)
  ]

-- No chain of a later epoch has been handed out.
owns-later :
    (old new h : ℕ) (cs : List DeviceChain)
    → old < new
    → All (λ c. c.id.epoch ≤ old) cs
    → sum_by (owns new h) cs ≡ 0
owns-later old new h [] lt a = refl
owns-later old new h (c ∷ cs) lt a = ground (arith, owns-later old new h cs lt a.1)

All-later :
    (old new : ℕ) (cs : List DeviceChain)
    → old < new
    → All (λ c. c.id.epoch ≤ old) cs
    → All (λ c. c.id.epoch ≤ new) cs
All-later old new [] lt a = tt
All-later old new (c ∷ cs) lt a = (omega arith, All-later old new cs lt a.1)

abbrev restarted : SplitQueue → ℕ → SplitQueue
restarted q epoch = record q {
  current_epoch = epoch;
  state = record { max_size = q.state.max_size; size = none; ready = false; epoch = epoch };
  available_notifications = true;
  used_notifications = true;
  storage = none;
}

module _ {t : Trace} (inv : TraceInv t) (epoch : ℕ) where
  -- A reset forgets the history; the chains that the device still owns are of an earlier epoch.
  restarted-TraceInv :
      t.queue.state.epoch < epoch
      → TraceInv (record t {
        queue = restarted t.queue epoch;
        published = [];
        popped = [];
        completed = [];
        reclaimed = [];
      })
  restarted-TraceInv later = record {
    queue = record {
      epoch_shared = refl;
      stored = λ s e. absurd (cc e);
      size_stored = refl;
      ready_stored = λ on. absurd (cc on);
    };
    available_fifo = refl;
    used_fifo = refl;
    no_later = All-later t.queue.state.epoch epoch t.outstanding later inv.no_later;
    in_flight =
        λ h. omega (arith, owns-later t.queue.state.epoch epoch h t.outstanding later inv.no_later);
  }

  pub driver_reset-TraceInv : TraceInv (step (Op.driver_reset epoch) t)
  unfolding step Queue.driver_reset advance_epoch unconfigured
  driver_reset-TraceInv = elim (Bool-cases (leb epoch t.queue.state.epoch)) [
    | inl stale ↦
        subst TraceInv (let e : t ≡ step (Op.driver_reset epoch) t = ground arith in e) inv
    | inr later ↦
        subst TraceInv
          (let e : record t {
            queue = restarted t.queue epoch;
            published = [];
            popped = [];
            completed = [];
            reclaimed = [];
          }
                ≡ step (Op.driver_reset epoch) t =
              ground arith in
            e)
          (restarted-TraceInv (ground arith))
  ]

  pub device_reset-TraceInv : TraceInv (step (Op.device_reset epoch) t)
  unfolding step Queue.device_reset advance_epoch unconfigured
  device_reset-TraceInv = elim (Bool-cases (leb epoch t.queue.state.epoch)) [
    | inl stale ↦
        subst TraceInv (let e : t ≡ step (Op.device_reset epoch) t = ground arith in e) inv
    | inr later ↦
        subst TraceInv
          (let e : record t {
            queue = restarted t.queue epoch;
            published = [];
            popped = [];
            completed = [];
            reclaimed = [];
          }
                ≡ step (Op.device_reset epoch) t =
              ground arith in
            e)
          (restarted-TraceInv (ground arith))
  ]
