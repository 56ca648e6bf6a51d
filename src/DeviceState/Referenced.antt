-- ===== src/DeviceState/Referenced.antt =====
-- The references that events hold on a table, against the in-flight counts of its records.
use virtio_accel.Prelude.{
  ℕ, suc, ◌+◌, ◌<◌, ◌≡◌, ◌∙◌, some, List, [], ◌∷◌, arith, sum_by, All, u32_mod, ok,
}
use virtio_accel.ObjectTable.{ObjectTable, get, remove}
use virtio_accel.ObjectTable.Valid.{total, IsValid}
use virtio_accel.ObjectTable.Laws.{total-remove}
use virtio_accel.ObjectTable.Insert.{Inserted}
use virtio_accel.ObjectTable.View.{
  view, view-ok, view-some, view-remove, view-insert, view_fresh, Same, total-ge, total-zero,
}
use virtio_accel.DeviceState.Records.{EventRecord, program_ids}

-- What an event refers to.
pub record EventRefs : Type 0 where
  pub context_id : ℕ
  pub queue_id : ℕ
  pub programs : List ℕ
  pub buffers : List ℕ

unfoldable pub refs_of : {E : Type 0} → EventRecord E → EventRefs
refs_of e = record {
  context_id = e.context_id;
  queue_id = e.queue_id;
  programs = program_ids e;
  buffers = e.buffer_ids;
}

module _ {X E : Type 0} where
  -- `refs` of each record is how often the events use it, with the `pending` ones, which have left
  -- the table or have not entered it; what an event uses is there and belongs to its context.
  pub record Referenced (refs owner : X → ℕ) (xs : ObjectTable X) (use_count : EventRefs → ℕ → ℕ)
      (events : ObjectTable (EventRecord E)) (pending : List EventRefs) : Type 0 where
    pub counted :
        (k n : ℕ)
        → view refs xs k ≡ some n
        → n ≡ total (λ e. use_count (refs_of e) k) events + sum_by (λ e. use_count e k) pending
    pub held :
        (j k : ℕ) (e : EventRefs)
        → view refs_of events j ≡ some e
        → 0 < use_count e k
        → view owner xs k ≡ some e.context_id
    pub awaited :
        All (λ e. (k : ℕ) → 0 < use_count e k → view owner xs k ≡ some e.context_id) pending
    pub fits : (k n : ℕ) → view refs xs k ≡ some n → n < u32_mod

module _ {X : Type 0} (owner : X → ℕ) (use_count : EventRefs → ℕ → ℕ) where
  All-used :
      (xs ys : ObjectTable X) (pending : List EventRefs)
      → ((k c : ℕ) → view owner xs k ≡ some c → view owner ys k ≡ some c)
      → All (λ e. (k : ℕ) → 0 < use_count e k → view owner xs k ≡ some e.context_id) pending
      → All (λ e. (k : ℕ) → 0 < use_count e k → view owner ys k ≡ some e.context_id) pending
  All-used xs ys [] h a = tt
  All-used xs ys (e ∷ pending) h a =
      (λ k p. h k e.context_id (a.0 k p), All-used xs ys pending h a.1)

module _ {X E : Type 0} (refs owner : X → ℕ) (use_count : EventRefs → ℕ → ℕ) where
  pub Referenced-Same :
      (xs ys : ObjectTable X) (events events' : ObjectTable (EventRecord E))
      (pending : List EventRefs)
      → Same refs xs ys
      → Same owner xs ys
      → Same refs_of events events'
      → Referenced refs owner xs use_count events pending
      → Referenced refs owner ys use_count events' pending
  Referenced-Same xs ys events events' pending a b c h = record {
    counted = λ k n e. ground (arith, a.views k, c.totals (λ x. use_count x k), h.counted k n);
    held = λ j k e p u. b.views k ∙ h.held j k e (ground (arith, c.views j)) u;
    awaited = All-used owner use_count xs ys pending (λ k o p. b.views k ∙ p) h.awaited;
    fits = λ k n e. ground (arith, a.views k, h.fits k n);
  }

  -- A new record is used by no event, and a record that none uses may go.
  pub Referenced-insert :
      (xs ys : ObjectTable X) (id : ℕ) (x : X) (events : ObjectTable (EventRecord E))
      → Inserted xs ys id x
      → refs x ≡ 0
      → IsValid events
      → Referenced refs owner xs use_count events []
      → Referenced refs owner ys use_count events []
  Referenced-insert xs ys id x events i z v h =
      let unused : total (λ e. use_count (refs_of e) id) events ≡ 0 =
        total-zero (λ e. use_count (refs_of e) id) events v
          λ j e f. ground (
            arith,
            h.held j id (refs_of e) (view-ok refs_of events j e f),
            view_fresh owner xs ys id x i,
          ) in
      record {
        counted = λ k n e. ground (arith, view-insert refs xs ys id k x i, unused, h.counted k n);
        held = λ j k e p u. ground (
          arith,
          view-insert owner xs ys id k x i,
          view_fresh owner xs ys id x i,
          h.held j k e p u,
        );
        awaited = tt;
        fits = λ k n e. ground (arith, view-insert refs xs ys id k x i, h.fits k n);
      }

  pub Referenced-remove :
      (xs : ObjectTable X) (id : ℕ) (x : X) (events : ObjectTable (EventRecord E))
      → get xs id ≡ ok x
      → refs x ≡ 0
      → Referenced refs owner xs use_count events []
      → Referenced refs owner (remove xs id).0 use_count events []
  Referenced-remove xs id x events found z h =
      let there : view refs xs id ≡ some (refs x) = view-ok refs xs id x found in
      let stay : (j k : ℕ) (e : EventRefs)
          → view refs_of events j ≡ some e
          → 0 < use_count e k
          → view owner (remove xs id).0 k ≡ some e.context_id =
        λ j k e p u.
          let (r, f, o) = view-some refs_of events j e p in
          ground (
            arith,
            view-remove owner xs id k x found,
            h.held j k e p u,
            h.counted id (refs x) there,
            total-ge (λ e. use_count (refs_of e) id) events j r f,
          ) in
      record {
        counted = λ k n e. ground (arith, view-remove refs xs id k x found, h.counted k n);
        held = stay;
        awaited = tt;
        fits = λ k n e. ground (arith, view-remove refs xs id k x found, h.fits k n);
      }

  -- A pending event enters the table, or an event leaves it and is pending.
  pub Referenced-enter :
      (xs : ObjectTable X) (events events' : ObjectTable (EventRecord E)) (j : ℕ)
      (e : EventRecord E) (pending : List EventRefs)
      → Inserted events events' j e
      → Referenced refs owner xs use_count events (refs_of e ∷ pending)
      → Referenced refs owner xs use_count events' pending
  Referenced-enter xs events events' j e pending i h = record {
    counted = λ k n p. ground (arith, i.totals (λ x. use_count (refs_of x) k), h.counted k n);
    held = λ m k r p u.
        ground (arith, view-insert refs_of events events' j m e i, h.held m k r, h.awaited.0 k);
    awaited = h.awaited.1;
    fits = h.fits;
  }

  pub Referenced-leave :
      (xs : ObjectTable X) (events : ObjectTable (EventRecord E)) (j : ℕ) (e : EventRecord E)
      (pending : List EventRefs)
      → get events j ≡ ok e
      → Referenced refs owner xs use_count events pending
      → Referenced refs owner xs use_count (remove events j).0 (refs_of e ∷ pending)
  Referenced-leave xs events j e pending found h = record {
    counted = λ k n p.
        ground (arith, total-remove (λ x. use_count (refs_of x) k) events j e found, h.counted k n);
    held = λ m k r p u. ground (arith, view-remove refs_of events j m e found, h.held m k r);
    awaited = (λ k u. h.held j k (refs_of e) (view-ok refs_of events j e found) u, h.awaited);
    fits = h.fits;
  }

  -- The counts go up by what a pending event uses, and down again.
  pub Referenced-raise :
      (xs ys : ObjectTable X) (events : ObjectTable (EventRecord E)) (e : EventRefs)
      (pending : List EventRefs)
      → ((k n : ℕ)
          → view refs ys k ≡ some n
          → (m : ℕ) × (view refs xs k ≡ some m) × (n ≡ m + use_count e k) × (n < u32_mod))
      → Same owner xs ys
      → ((k : ℕ) → 0 < use_count e k → view owner xs k ≡ some e.context_id)
      → Referenced refs owner xs use_count events pending
      → Referenced refs owner ys use_count events (e ∷ pending)
  Referenced-raise xs ys events e pending up b named h = record {
    counted = λ k n p. let (m, q, s, _) = up k n p in ground (arith, h.counted k m q, s);
    held = λ j k r p u. b.views k ∙ h.held j k r p u;
    awaited = (
      λ k u. b.views k ∙ named k u,
      All-used owner use_count xs ys pending (λ k o p. b.views k ∙ p) h.awaited,
    );
    fits = λ k n p. (up k n p).3;
  }

  pub Referenced-lower :
      (xs ys : ObjectTable X) (events : ObjectTable (EventRecord E)) (e : EventRefs)
      (pending : List EventRefs)
      → ((k n : ℕ)
          → view refs ys k ≡ some n
          → (m : ℕ) × (view refs xs k ≡ some m) × (m ≡ n + use_count e k))
      → Same owner xs ys
      → Referenced refs owner xs use_count events (e ∷ pending)
      → Referenced refs owner ys use_count events pending
  Referenced-lower xs ys events e pending down b h = record {
    counted = λ k n p. let (m, q, s) = down k n p in ground (arith, h.counted k m q, s);
    held = λ j k r p u. b.views k ∙ h.held j k r p u;
    awaited = All-used owner use_count xs ys pending (λ k o p. b.views k ∙ p) h.awaited.1;
    fits = λ k n p. let (m, q, s) = down k n p in ground (arith, h.fits k m q, s);
  }

  -- A pending event accounts for its part of every count.
  pub Referenced-ge :
      (xs : ObjectTable X) (events : ObjectTable (EventRecord E)) (e : EventRefs)
      (pending : List EventRefs) (k n : ℕ)
      → Referenced refs owner xs use_count events (e ∷ pending)
      → view refs xs k ≡ some n
      → (use_count e k + 0 < suc n) × (n < u32_mod)
  Referenced-ge xs events e pending k n h p = (ground (arith, h.counted k n p), h.fits k n p)
