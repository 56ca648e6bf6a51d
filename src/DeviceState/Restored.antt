-- ===== src/DeviceState/Restored.antt =====
-- Counting the references of an event and taking them back restores every record
-- (`increment_event_references` and `decrement_event_references` of
-- crates/virtio-accel-device/src/state.rs).
use virtio_accel.Prelude.{
  ℕ, zero, suc, ◌+◌, ◌<◌, ◌≡◌, refl, ap, ◌∙◌, List, [], ◌∷◌, inl, inr, arith, is_ok, ok,
  Result-cases, u32_mod, add_u32, sub_u32,
}
use virtio_accel.ObjectTable.{ObjectTable, get}
use virtio_accel.DeviceState.Records.{ContextRecord, BufferRecord, ProgramRecord, QueueRecord}
use virtio_accel.DeviceState.Graph.{DeviceState, find}
use virtio_accel.DeviceState.References.{
  count, retain_buffer, retain_program, retain_queue, add_event, release_buffer, release_program,
  release_queue, drop_event, increment_event_references, decrement_event_references,
  change_references,
}
use virtio_accel.DeviceState.Referenced.{EventRefs}
use virtio_accel.DeviceState.Change.{times, Changed, Resolve, change_all-Changed}
use virtio_accel.DeviceState.Increment.{Countable, single}

-- Two states in which every ID resolves to the same, with the same events and charges.
pub record Restored {C B P Q E : Type 0} (s s' : DeviceState C B P Q E) : Type 0 where
  pub contexts : (j : ℕ) → get s'.contexts j ≡ get s.contexts j
  pub buffers : (j : ℕ) → get s'.buffers j ≡ get s.buffers j
  pub programs : (j : ℕ) → get s'.programs j ≡ get s.programs j
  pub queues : (j : ℕ) → get s'.queues j ≡ get s.queues j
  pub events : s'.events ≡ s.events
  pub retained : s'.retained ≡ s.retained

Resolve-Changed :
    {T : Type 0} (f : T → T) (ids : List ℕ) {t u : ObjectTable T}
    → Changed f ids t u
    → Resolve t ids
    → Resolve u ids
Resolve-Changed f ids {t} {u} there h j p = elim (Result-cases (get t j)) [
  | inl (r, e) ↦ rw (there.lookups j, e) refl
  | inr (e, bad) ↦ absurd (ground (arith, h j p, bad))
]

module _ {T : Type 0} (f g : T → T) (ids : List ℕ) {t u v : ObjectTable T}
    (there : Changed f ids t u) (back : Changed g ids u v) where
  -- What is changed back is as it was.
  undone :
      ((j : ℕ) (r : T) → get t j ≡ ok r → times g (count j ids) (times f (count j ids) r) ≡ r)
      → (j : ℕ) → get v j ≡ get t j
  undone h j = elim (Result-cases (get t j)) [
    | inl (r, e) ↦ back.lookups j ∙ rw (there.lookups j, e) (ap ok (h j r e))
    | inr (e, bad) ↦ back.lookups j ∙ rw (there.lookups j, bad) refl
  ]

sub-add : (x : ℕ) → x + 1 < u32_mod → sub_u32 (add_u32 x 1) 1 ≡ x
sub-add x h = omega arith

-- A count that goes up by `f` and down by `g`.
module _ {T : Type 0} (f g : T → T) (c : T → ℕ)
    (up : (r : T) → c r + 1 < u32_mod → c (f r) ≡ c r + 1)
    (down : (r : T) → c r + 1 < u32_mod → g (f r) ≡ r) where
  times-inner : (n : ℕ) (r : T) → times f n (f r) ≡ f (times f n r)
  times-inner zero r = refl
  times-inner (suc n) r = times-inner n (f r)

  times-count : (n : ℕ) (r : T) → c r + n < u32_mod → c (times f n r) ≡ c r + n
  times-count zero r h = omega arith
  times-count (suc n) r h =
      let one : c (f r) ≡ c r + 1 = up r (omega arith) in
      omega (arith, one, times-count n (f r) (omega (arith, one)))

  times-undone : (n : ℕ) (r : T) → c r + n < u32_mod → times g n (times f n r) ≡ r
  times-undone zero r h = refl
  times-undone (suc n) r h =
      ap (λ x. times g n (g x)) (times-inner n r)
      ∙ ap (times g n) (down (times f n r) (omega (arith, times-count n r (omega arith))))
      ∙ times-undone n r (omega arith)

  times-back : (n : ℕ) (r : T) → (0 < n → c r + n < u32_mod) → times g n (times f n r) ≡ r
  times-back zero r h = refl
  times-back (suc n) r h = times-undone (suc n) r (h (omega arith))

found_one :
    {T : Type 0} (t : ObjectTable T) (id : ℕ) → Resolve t (id ∷ []) → (r : T) × (get t id ≡ ok r)
unfolding count
found_one t id h = elim (Result-cases (get t id)) [
  | inl (r, e) ↦ (r, e)
  | inr (e, bad) ↦ absurd (ground (arith, h id, bad))
]

-- What the two functions do to the tables of a state.
record Moved {C B P Q E : Type 0} (on_queue : QueueRecord Q → QueueRecord Q)
    (on_program : ProgramRecord P → ProgramRecord P) (on_buffer : BufferRecord B → BufferRecord B)
    (on_context : ContextRecord C → ContextRecord C) (e : EventRefs) (s s' : DeviceState C B P Q E)
    : Type 0 where
  queues : Changed on_queue (e.queue_id ∷ []) s.queues s'.queues
  programs : Changed on_program e.programs s.programs s'.programs
  buffers : Changed on_buffer e.buffers s.buffers s'.buffers
  contexts : Changed on_context (e.context_id ∷ []) s.contexts s'.contexts
  events : s'.events ≡ s.events
  retained : s'.retained ≡ s.retained

module _ {C B P Q E : Type 0} where
  record Resolved (s : DeviceState C B P Q E) (e : EventRefs) : Type 0 where
    queue : Resolve s.queues (e.queue_id ∷ [])
    programs : Resolve s.programs e.programs
    buffers : Resolve s.buffers e.buffers
    context : Resolve s.contexts (e.context_id ∷ [])

  change_references-Moved :
      (on_queue : QueueRecord Q → QueueRecord Q) (on_program : ProgramRecord P → ProgramRecord P)
      (on_buffer : BufferRecord B → BufferRecord B) (on_context : ContextRecord C → ContextRecord C)
      (s : DeviceState C B P Q E) (e : EventRefs)
      → Resolved s e
      → Moved on_queue on_program on_buffer on_context e s
          (change_references on_queue on_program on_buffer on_context s e.context_id e.queue_id
            e.programs e.buffers).0
  unfolding change_references find
  change_references-Moved on_queue on_program on_buffer on_context s e h =
      let (q, q_found) = found_one s.queues e.queue_id h.queue in
      let (c, c_found) = found_one s.contexts e.context_id h.context in
      let (programs_done, programs_changed) =
        change_all-Changed on_program s.programs e.programs h.programs in
      let (buffers_done, buffers_changed) =
        change_all-Changed on_buffer s.buffers e.buffers h.buffers in
      rw (q_found, programs_done, buffers_done, c_found, change_references, find)
        (record {
          queues = single on_queue s.queues e.queue_id q q_found;
          programs = programs_changed;
          buffers = buffers_changed;
          contexts = single on_context s.contexts e.context_id c c_found;
          events = refl;
          retained = refl;
        })

-- One ID occurs once in a list of its own.
one_room :
    {T : Type 0} (t : ObjectTable T) {r0 : T} (id j : ℕ) (r : T) (c : T → ℕ)
    → get t id ≡ ok r0
    → get t j ≡ ok r
    → c r0 + 1 < u32_mod
    → 0 < count j (id ∷ [])
    → c r + count j (id ∷ []) < u32_mod
unfolding count
one_room t {r0 = r0} id j r c found0 found room p =
    let same : id ≡ j = ground arith in
    let e : r0 ≡ r = cc (found0, ap (get t) same, found) in ground (arith, ap c e)

module _ {C B P Q E : Type 0} (s : DeviceState C B P Q E) (e : EventRefs) (h : Countable s e) where
  resolved : Resolved s e
  unfolding count
  resolved = record {
    queue = λ j p. ground (arith, h.queue_found);
    programs = λ j p. let (r, found, _, _) = h.programs j p in ap is_ok found;
    buffers = λ j p. let (r, found, _, _) = h.buffers j p in ap is_ok found;
    context = λ j p. ground (arith, h.context_found);
  }

  queue_back :
      (j : ℕ) (r : QueueRecord Q)
      → get s.queues j ≡ ok r
      → times release_queue
          (count j (e.queue_id ∷ []))
          (times retain_queue (count j (e.queue_id ∷ [])) r)
        ≡ r
  unfolding retain_queue release_queue
  queue_back j r found =
      times-back retain_queue release_queue (λ x. x.in_flight) (λ x fits. omega arith)
        (λ x fits. ap (λ n. record x { in_flight = n }) (sub-add x.in_flight fits))
        (count j (e.queue_id ∷ [])) r
        (one_room s.queues e.queue_id j r (λ q. q.in_flight) h.queue_found found h.queue_room)

  program_back :
      (j : ℕ) (r : ProgramRecord P)
      → get s.programs j ≡ ok r
      → times release_program (count j (e.programs)) (times retain_program (count j (e.programs)) r)
        ≡ r
  unfolding retain_program release_program
  program_back j r found =
      times-back retain_program release_program (λ x. x.in_flight) (λ x fits. omega arith)
        (λ x fits. ap (λ n. record x { in_flight = n }) (sub-add x.in_flight fits))
        (count j (e.programs)) r (λ p. h.program_room j r p found)

  buffer_back :
      (j : ℕ) (r : BufferRecord B)
      → get s.buffers j ≡ ok r
      → times release_buffer (count j (e.buffers)) (times retain_buffer (count j (e.buffers)) r) ≡ r
  unfolding retain_buffer release_buffer
  buffer_back j r found =
      times-back retain_buffer release_buffer (λ x. x.in_flight) (λ x fits. omega arith)
        (λ x fits. ap (λ n. record x { in_flight = n }) (sub-add x.in_flight fits))
        (count j (e.buffers)) r (λ p. h.buffer_room j r p found)

  context_back :
      (j : ℕ) (r : ContextRecord C)
      → get s.contexts j ≡ ok r
      → times drop_event
          (count j (e.context_id ∷ []))
          (times add_event (count j (e.context_id ∷ [])) r)
        ≡ r
  unfolding add_event drop_event
  context_back j r found =
      times-back add_event drop_event (λ x. x.children.events) (λ x fits. omega arith)
        (λ x fits.
          ap (λ n. record x { children = record (x.children) { events = n } })
            (sub-add x.children.events fits))
        (count j (e.context_id ∷ [])) r
        (one_room s.contexts e.context_id j r (λ c. c.children.events) h.context_found found
          h.context_room)

  -- For a checked submission, the references that are counted and then taken back leave every record
  -- as it was.
  pub references-Restored :
      Restored s
        (decrement_event_references
          (increment_event_references s e.context_id e.queue_id e.programs e.buffers).0
          e.context_id
          e.queue_id
          e.programs
          e.buffers).0
  unfolding increment_event_references decrement_event_references
  references-Restored =
      let s1 : DeviceState C B P Q E =
        (increment_event_references s e.context_id e.queue_id e.programs e.buffers).0 in
      let m : Moved retain_queue retain_program retain_buffer add_event e s s1 =
        change_references-Moved retain_queue retain_program retain_buffer add_event s e resolved in
      let r1 : Resolved s1 e = record {
        queue = Resolve-Changed retain_queue _ m.queues resolved.queue;
        programs = Resolve-Changed retain_program _ m.programs resolved.programs;
        buffers = Resolve-Changed retain_buffer _ m.buffers resolved.buffers;
        context = Resolve-Changed add_event _ m.contexts resolved.context;
      } in
      let n : Moved release_queue release_program release_buffer drop_event e s1 _ =
        change_references-Moved release_queue release_program release_buffer drop_event s1 e r1 in
      record {
        queues = undone retain_queue release_queue _ m.queues n.queues queue_back;
        programs = undone retain_program release_program _ m.programs n.programs program_back;
        buffers = undone retain_buffer release_buffer _ m.buffers n.buffers buffer_back;
        contexts = undone add_event drop_event _ m.contexts n.contexts context_back;
        events = n.events ∙ m.events;
        retained = n.retained ∙ m.retained;
      }
