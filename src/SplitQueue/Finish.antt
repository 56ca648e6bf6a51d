-- ===== src/SplitQueue/Finish.antt =====
-- `complete` of crates/virtio-accel-split-queue/src/queue.rs pushes a used element and keeps the
-- invariant of the rings.
use native.Mathlib.Numerals.{add-one}
use virtio_accel.Prelude.{
  ℕ, ◌+◌, ◌<◌, ◌≡◌, ◌∙◌, sym, Bool, true, [], ◌∷◌, ◌++◌, set, sum_by-push, length-set, Option, some,
  arith, All, All-push, ==_refl, ok, refl, subst,
}
use virtio_accel.Transport.{ChainId}
use virtio_accel.SplitQueue.Ring.{
  RingStorage, ChainRecord, ChainState, UsedElement, at, ring_slot, wrapping_add,
}
use virtio_accel.SplitQueue.Queue.{is_available, is_in_flight, is_used}
use virtio_accel.SplitQueue.Queue.Transfer.{complete_storage}
use virtio_accel.SplitQueue.Window.{window-push}
use virtio_accel.SplitQueue.Entries.{present, at-lt, at-set_self, at-set_ne, sum_by-parts}
use virtio_accel.SplitQueue.Rings.{Rings, finished, state_of, uses, Completed}
use virtio_accel.SplitQueue.Enqueue.{
  state_once, slot_after, slot_lt, counted_write, ids_write, state_write, state_at,
}
use virtio_accel.SplitQueue.Queue.{hint}

-- The writes of `complete`.
abbrev pub finish : RingStorage → ChainRecord → ChainId → ℕ → ℕ → RingStorage
finish s r id used head = record s {
  records = set s.records head (some (record r { state = ChainState.used }));
  used =
      set s.used (ring_slot s.size s.used_index)
        (some (record { head = head; id = id; used = used }));
  used_index = wrapping_add s.used_index 1;
  used_count = s.used_count + 1;
}

abbrev pub element : ChainRecord → ℕ → ℕ → UsedElement
element r used head = record { head = head; id = r.id; used = used }

module _ {epoch : ℕ} {s : RingStorage} (v : Rings epoch s) (r : ChainRecord) (used head : ℕ)
    (held : at s.records head ≡ some r) (flying : is_in_flight r.state ≡ true) where
  inside : head < s.size
  inside = omega (arith, v.records_length, at-lt s.records head held)

  not_used : state_of is_used (at s.records head) ≡ 0
  not_used = rw held (ground arith)

  not_available : state_of is_available (at s.records head) ≡ 0
  not_available = rw held (ground arith)

  -- The used ring has room for a chain that is in flight.
  pub used_room : s.used_count < s.size
  used_room = omega (
    arith,
    v.used_number,
    v.records_length,
    sum_by-parts (state_of is_used) (λ _. 0) s.records head (state_once is_used)
        (omega (arith, v.records_length, inside)) not_used refl,
  )

  pub complete_storage-ok :
      (notifications : Bool)
      → complete_storage notifications r.id used head s
        ≡ (finish s r r.id used head, ok (hint notifications))
  unfolding complete_storage
  complete_storage-ok notifications =
      ground (arith, used_room, ==_refl r.id.epoch, ==_refl r.id.token)

  pub finished-finish :
      finished (finish s r r.id used head) ≡ finished s ++ some (element r used head) ∷ []
  finished-finish = rw (add-one) (
      window-push (λ i. at s.used i) (λ i. at (set s.used position (some (element r used head))) i)
        s.size (some (element r used head)) s.used_count (ring_slot s.size s.consumed_used) position
        (λ j ne. at-set_ne s.used position j (some (element r used head)) ne)
        (at-set_self s.used position (some (element r used head))
          (omega (arith, v.used_length, slot_lt s.size v.exponent s.used_index v.power v.small)))
        (slot_lt s.size v.exponent s.consumed_used v.power v.small) used_room v.used_end)
    where
      position : ℕ
      position = ring_slot s.size s.used_index

  pub finish-Rings : Rings epoch (finish s r r.id used head)
  finish-Rings = record {
    exponent = v.exponent;
    power = v.power;
    small = v.small;
    records_length = length-set s.records head done ∙ v.records_length;
    available_length = v.available_length;
    used_length =
        length-set s.used (ring_slot s.size s.used_index) (some (element r used head))
        ∙ v.used_length;
    available_range = v.available_range;
    consumed_available_range = v.consumed_available_range;
    used_range = omega arith;
    consumed_used_range = v.consumed_used_range;
    available_end = v.available_end;
    used_end =
        slot_after s.size v.exponent s.used_index (ring_slot s.size s.consumed_used) s.used_count
          v.power v.small v.used_range v.used_end;
    ids = ids_write v head inside (record r { state = ChainState.used }) (v.ids head r held);
    waiting_filled = v.waiting_filled;
    finished_completed = subst (All (Completed epoch)) (sym finished-finish) (
        All-push (Completed epoch) (finished s) (some (element r used head)) v.finished_completed
          (v.ids head r held));
    waiting_once = λ h. ground (
      arith,
      v.waiting_once h,
      state_write v head inside is_available done h,
      state_at v head inside is_available (some r) h held,
      not_available,
    );
    finished_once = λ h. rw finished-finish (
        ground (
          arith,
          sum_by-push (uses h) (finished s) (some (element r used head)),
          v.finished_once h,
          state_write v head inside is_used done h,
          state_at v head inside is_used (some r) h held,
          not_used,
        ));
    available_number = ground (
      arith,
      counted_write v head inside (state_of is_available) done,
      v.available_number,
      not_available,
    );
    used_number =
        ground
          (arith, counted_write v head inside (state_of is_used) done, v.used_number, not_used);
    active_number = ground (arith, counted_write v head inside present done, v.active_number, held);
  }
    where
      done : Option ChainRecord
      done = some (record r { state = ChainState.used })
