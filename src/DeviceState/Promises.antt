-- ===== src/DeviceState/Promises.antt =====
-- What a reachable device guarantees to its callers.
use virtio_accel.Prelude.{ℕ, ◌<◌, ◌≤◌, ◌≡◌, refl, true, false, [], arith, is_some, ok, err, ◌==◌}
use virtio_accel.ObjectTable.{ObjectTable, get}
use virtio_accel.ObjectTable.Valid.{total}
use virtio_accel.ObjectTable.View.{view-ok, view-some, total-ge}
use virtio_accel.DeviceState.Records.{
  busy, is_releasing, ContextRecord, BufferRecord, ProgramRecord, QueueRecord, EventRecord,
  program_ids,
}
use virtio_accel.DeviceState.Graph.{DeviceState, find}
use virtio_accel.DeviceState.References.{count}
use virtio_accel.DeviceState.Counted.{hit, Counted}
use virtio_accel.DeviceState.Referenced.{refs_of}
use virtio_accel.DeviceState.Settled.{settled, AllOk-get}
use virtio_accel.DeviceState.Release.{
  begin_buffer_release, begin_program_release, begin_queue_release, commit_buffer_release,
  commit_program_release, commit_queue_release,
}
use virtio_accel.DeviceState.Inv.{uses_buffer, uses_program, uses_queue, backing_bytes}
use virtio_accel.DeviceState.Commit.{commit_queue-Inv}
use virtio_accel.DeviceState.CommitCharged.{commit_buffer-Inv, commit_program-Inv}
use virtio_accel.DeviceState.Pending.{used_held}
use virtio_accel.DeviceState.Reach.{Reachable, Reachable-Inv}

module _ {C B P Q E : Type 0} (Fault : Type 0) where
  -- In a reachable state the retained backing bytes are the sum of the allocation sizes of the
  -- buffers in the table, the resident bytes are the sum over the programs, and they do not exceed
  -- the policy's limit.
  pub retained-exact :
      (s : DeviceState C B P Q E)
      → Reachable Fault s
      → (s.retained.buffer_backing ≡ total backing_bytes s.buffers)
        × (s.retained.program_resident ≡ total (λ p. p.resident_bytes) s.programs)
        × (s.retained.program_resident ≤ s.policy.max_program_resident_bytes)
  retained-exact s r =
      let v = Reachable-Inv Fault s r in
      (v.buffers.charged, v.programs.charged, omega (arith, v.programs.within))

  -- In a reachable state the child counts of a context are the numbers of buffers, programs, queues
  -- and events in the tables that name it as their context.
  pub children-exact :
      (s : DeviceState C B P Q E) (id : ℕ) (c : ContextRecord C)
      → Reachable Fault s
      → get s.contexts id ≡ ok c
      → (c.children.buffers ≡ total (λ b. hit b.context_id id) s.buffers)
        × (c.children.programs ≡ total (λ p. hit p.context_id id) s.programs)
        × (c.children.queues ≡ total (λ q. hit q.context_id id) s.queues)
        × (c.children.events ≡ total (λ e. hit e.context_id id) s.events)
  children-exact s id c r found =
      let v = Reachable-Inv Fault s r in
      (kids v.buffers.kids, kids v.programs.kids, kids v.queues.kids, kids v.events.kids)
    where
      kids :
          {Y : Type 0} {f : ContextRecord C → ℕ} {owner : Y → ℕ} {xs : ObjectTable Y}
          → Counted f s.contexts owner xs []
          → f c ≡ total (λ y. hit (owner y) id) xs
      kids {f = f} h = omega (arith, h.kids id (f c) (view-ok f s.contexts id c found))

  -- In a reachable state the in-flight count of a buffer is the number of times that the events in
  -- the table name it.
  pub buffer_in_flight-exact :
      (s : DeviceState C B P Q E) (id : ℕ) (b : BufferRecord B)
      → Reachable Fault s
      → get s.buffers id ≡ ok b
      → b.in_flight ≡ total (λ e. count id e.buffer_ids) s.events
  unfolding refs_of
  buffer_in_flight-exact s id b r found =
      let h = (Reachable-Inv Fault s r).buffers.refs in
      omega (arith, h.counted id b.in_flight (view-ok (λ x. x.in_flight) s.buffers id b found))

  -- In a reachable state the in-flight count of a program is the number of times that the events in
  -- the table name it.
  pub program_in_flight-exact :
      (s : DeviceState C B P Q E) (id : ℕ) (p : ProgramRecord P)
      → Reachable Fault s
      → get s.programs id ≡ ok p
      → p.in_flight ≡ total (λ e. count id (program_ids e)) s.events
  unfolding refs_of
  program_in_flight-exact s id p r found =
      let h = (Reachable-Inv Fault s r).programs.refs in
      omega (arith, h.counted id p.in_flight (view-ok (λ x. x.in_flight) s.programs id p found))

  -- In a reachable state the in-flight count of a queue is the number of times that the events in
  -- the table name it.
  pub queue_in_flight-exact :
      (s : DeviceState C B P Q E) (id : ℕ) (q : QueueRecord Q)
      → Reachable Fault s
      → get s.queues id ≡ ok q
      → q.in_flight ≡ total (λ e. hit e.queue_id id) s.events
  unfolding refs_of
  queue_in_flight-exact s id q r found =
      let h = (Reachable-Inv Fault s r).queues.refs in
      omega (arith, h.counted id q.in_flight (view-ok (λ x. x.in_flight) s.queues id q found))

  -- In a reachable state, whatever buffer an event names resolves, is in the event's context, still
  -- holds its resource, and its release is refused as busy with the state as it was.
  pub used_buffer :
      (s : DeviceState C B P Q E) (event_id id : ℕ) (e : EventRecord E)
      → Reachable Fault s
      → get s.events event_id ≡ ok e
      → 0 < count id e.buffer_ids
      → ((x : BufferRecord B) × (get s.buffers id ≡ ok x)
          × (x.context_id ≡ e.context_id)
          × (is_some x.resource.resource ≡ true))
        × (begin_buffer_release s id ≡ (s, err busy))
  unfolding refs_of begin_buffer_release find
  used_buffer s event_id id e r there used =
      let v = Reachable-Inv Fault s r in
      let (x, found, owner) =
        view-some (λ x. x.context_id) s.buffers id e.context_id
          (v.buffers.refs.held event_id id (refs_of e) (view-ok refs_of s.events event_id e there)
            used) in
      let counted : x.in_flight ≡ total (λ e. uses_buffer (refs_of e) id) s.events = omega (
        arith,
        v.buffers.refs.counted id x.in_flight (view-ok (λ x. x.in_flight) s.buffers id x found),
      ) in
      let positive : 0 < x.in_flight = omega (
        arith,
        counted,
        total-ge (λ e. uses_buffer (refs_of e) id) s.events event_id e there,
        used,
      ) in
      let busy_now : (x.in_flight == 0) ≡ false = ground arith in
      (
        (
          x,
          found,
          owner,
          used_held x.resource x.in_flight
              (AllOk-get (λ x. settled x.resource x.in_flight) s.buffers id x v.buffers.slots found)
              positive,
        ),
        rw (found, busy_now, begin_buffer_release, find) refl,
      )

  -- In a reachable state, whatever program an event names resolves, is in the event's context, still
  -- holds its resource, and its release is refused as busy with the state as it was.
  pub used_program :
      (s : DeviceState C B P Q E) (event_id id : ℕ) (e : EventRecord E)
      → Reachable Fault s
      → get s.events event_id ≡ ok e
      → 0 < count id (program_ids e)
      → ((x : ProgramRecord P) × (get s.programs id ≡ ok x)
          × (x.context_id ≡ e.context_id)
          × (is_some x.resource.resource ≡ true))
        × (begin_program_release s id ≡ (s, err busy))
  unfolding refs_of begin_program_release find
  used_program s event_id id e r there used =
      let v = Reachable-Inv Fault s r in
      let (x, found, owner) =
        view-some (λ x. x.context_id) s.programs id e.context_id
          (v.programs.refs.held event_id id (refs_of e) (view-ok refs_of s.events event_id e there)
            used) in
      let counted : x.in_flight ≡ total (λ e. uses_program (refs_of e) id) s.events = omega (
        arith,
        v.programs.refs.counted id x.in_flight (view-ok (λ x. x.in_flight) s.programs id x found),
      ) in
      let positive : 0 < x.in_flight = omega (
        arith,
        counted,
        total-ge (λ e. uses_program (refs_of e) id) s.events event_id e there,
        used,
      ) in
      let busy_now : (x.in_flight == 0) ≡ false = ground arith in
      (
        (
          x,
          found,
          owner,
          used_held x.resource x.in_flight
              (AllOk-get (λ x. settled x.resource x.in_flight) s.programs id x v.programs.slots
                found)
              positive,
        ),
        rw (found, busy_now, begin_program_release, find) refl,
      )

  -- In a reachable state, whatever queue an event names resolves, is in the event's context, still
  -- holds its resource, and its release is refused as busy with the state as it was.
  pub used_queue :
      (s : DeviceState C B P Q E) (event_id id : ℕ) (e : EventRecord E)
      → Reachable Fault s
      → get s.events event_id ≡ ok e
      → 0 < hit e.queue_id id
      → ((x : QueueRecord Q) × (get s.queues id ≡ ok x)
          × (x.context_id ≡ e.context_id)
          × (is_some x.resource.resource ≡ true))
        × (begin_queue_release s id ≡ (s, err busy))
  unfolding refs_of begin_queue_release find
  used_queue s event_id id e r there used =
      let v = Reachable-Inv Fault s r in
      let (x, found, owner) =
        view-some (λ x. x.context_id) s.queues id e.context_id
          (v.queues.refs.held event_id id (refs_of e) (view-ok refs_of s.events event_id e there)
            used) in
      let counted : x.in_flight ≡ total (λ e. uses_queue (refs_of e) id) s.events = omega (
        arith,
        v.queues.refs.counted id x.in_flight (view-ok (λ x. x.in_flight) s.queues id x found),
      ) in
      let positive : 0 < x.in_flight = omega (
        arith,
        counted,
        total-ge (λ e. uses_queue (refs_of e) id) s.events event_id e there,
        used,
      ) in
      let busy_now : (x.in_flight == 0) ≡ false = ground arith in
      (
        (
          x,
          found,
          owner,
          used_held x.resource x.in_flight
              (AllOk-get (λ x. settled x.resource x.in_flight) s.queues id x v.queues.slots found)
              positive,
        ),
        rw (found, busy_now, begin_queue_release, find) refl,
      )

  -- In a reachable state, committing the release of a buffer whose release has begun succeeds.
  pub commit_buffer-ok :
      (s : DeviceState C B P Q E) (id : ℕ) (b : BufferRecord B)
      → Reachable Fault s
      → get s.buffers id ≡ ok b
      → is_releasing b.resource.release ≡ true
      → (commit_buffer_release s id).1 ≡ ok tt
  commit_buffer-ok s id b r found going =
      (commit_buffer-Inv s id b found going (Reachable-Inv Fault s r)).0

  -- In a reachable state, committing the release of a program whose release has begun succeeds.
  pub commit_program-ok :
      (s : DeviceState C B P Q E) (id : ℕ) (p : ProgramRecord P)
      → Reachable Fault s
      → get s.programs id ≡ ok p
      → is_releasing p.resource.release ≡ true
      → (commit_program_release s id).1 ≡ ok tt
  commit_program-ok s id p r found going =
      (commit_program-Inv s id p found going (Reachable-Inv Fault s r)).0

  -- In a reachable state, committing the release of a queue whose release has begun succeeds.
  pub commit_queue-ok :
      (s : DeviceState C B P Q E) (id : ℕ) (q : QueueRecord Q)
      → Reachable Fault s
      → get s.queues id ≡ ok q
      → is_releasing q.resource.release ≡ true
      → (commit_queue_release s id).1 ≡ ok tt
  commit_queue-ok s id q r found going =
      (commit_queue-Inv s id q found going (Reachable-Inv Fault s r)).0
