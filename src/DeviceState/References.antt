-- ===== src/DeviceState/References.antt =====
-- What a submission refers to: its validation, and the reference counts that its event holds
-- (crates/virtio-accel-device/src/state.rs).
use virtio_accel.Prelude.{
  ℕ, suc, ◌+◌, Bool, true, false, not, ◌||◌, List, [], ◌∷◌, leb, ◌==◌, if◌then◌else◌, Result, ok,
  err, ◌>>=◌, ◌>>◌, reject_if, attempt, u32_mod, add_u32, sub_u32,
}
use virtio_accel.ObjectTable.{ObjectTable, put}
use virtio_accel.DeviceState.Records.{
  DeviceStateError, invalid_argument, context_mismatch, reference_count_overflow, slot_get,
  ContextRecord, BufferRecord, ProgramRecord, QueueRecord,
}
use virtio_accel.DeviceState.Graph.{DeviceState, find}

-- `ids.iter().filter(|&&p| p == id).count()`.
unfoldable pub count : ℕ → List ℕ → ℕ
count id [] = 0
count id (x ∷ ids) = let rest = count id ids in if x == id then suc rest else rest

-- `ids.contains(&id)`.
unfoldable pub contains : ℕ → List ℕ → Bool
contains id [] = false
contains id (x ∷ ids) = x == id || contains id ids

-- `sort_unstable_by_key(|id| id.get())`: equal IDs are indistinguishable, so any sort will do.
unfoldable pub sort_in : ℕ → List ℕ → List ℕ
sort_in id [] = id ∷ []
sort_in id (x ∷ ids) = let rest = sort_in id ids in if leb id x then id ∷ x ∷ ids else x ∷ rest

unfoldable pub sort : List ℕ → List ℕ
unfolding sort_in
sort [] = []
sort (id ∷ ids) = sort_in id (sort ids)

-- `u32::try_from(n)` and `x.checked_add(n)`, each with `ReferenceCountOverflow` as its error.
unfoldable pub check_count : ℕ → Result DeviceStateError (Unit {0})
check_count n = reject_if (leb u32_mod n) reference_count_overflow

unfoldable pub check_add : ℕ → ℕ → Result DeviceStateError (Unit {0})
check_add x n = reject_if (leb u32_mod (x + n)) reference_count_overflow

-- A change to the records that a list of IDs names, one after the other; the first failing lookup
-- ends the loop, with the changes made so far.
unfoldable pub change_all :
    {T : Type 0}
    → (T → T)
    → ObjectTable T
    → List ℕ
    → ObjectTable T × Result DeviceStateError (Unit {0})
unfolding find
change_all f t [] = (t, ok tt)
change_all f t (id ∷ ids) = attempt t (find t id) λ r. change_all f (put t id (f r)) ids

-- `in_flight += 1` and `in_flight -= 1`.
unfoldable pub retain_buffer : {B : Type 0} → BufferRecord B → BufferRecord B
retain_buffer r = record r { in_flight = add_u32 r.in_flight 1 }

unfoldable pub release_buffer : {B : Type 0} → BufferRecord B → BufferRecord B
release_buffer r = record r { in_flight = sub_u32 r.in_flight 1 }

unfoldable pub retain_program : {P : Type 0} → ProgramRecord P → ProgramRecord P
retain_program r = record r { in_flight = add_u32 r.in_flight 1 }

unfoldable pub release_program : {P : Type 0} → ProgramRecord P → ProgramRecord P
release_program r = record r { in_flight = sub_u32 r.in_flight 1 }

unfoldable pub retain_queue : {Q : Type 0} → QueueRecord Q → QueueRecord Q
retain_queue r = record r { in_flight = add_u32 r.in_flight 1 }

unfoldable pub release_queue : {Q : Type 0} → QueueRecord Q → QueueRecord Q
release_queue r = record r { in_flight = sub_u32 r.in_flight 1 }

-- `children.events += 1` and `-= 1`.
unfoldable pub add_event : {C : Type 0} → ContextRecord C → ContextRecord C
add_event c = record c { children = record (c.children) { events = add_u32 c.children.events 1 } }

unfoldable pub drop_event : {C : Type 0} → ContextRecord C → ContextRecord C
drop_event c = record c { children = record (c.children) { events = sub_u32 c.children.events 1 } }

module _ {C B P Q E : Type 0} where
  unfoldable pub check_buffers :
      DeviceState C B P Q E → ℕ → List ℕ → Result DeviceStateError (Unit {0})
  unfolding find slot_get
  check_buffers s context_id [] = ok tt
  check_buffers s context_id (id ∷ ids) = do
    buffer ← find s.buffers id
    _ ← slot_get buffer.resource
    reject_if (not (buffer.context_id == context_id)) context_mismatch
    check_buffers s context_id ids

  unfoldable pub validate_submission :
      DeviceState C B P Q E → ℕ → ℕ → List ℕ → Result DeviceStateError ℕ
  unfolding check_buffers
  validate_submission s queue_id program_id buffer_ids = do
    queue ← find s.queues queue_id
    _ ← slot_get queue.resource
    program ← find s.programs program_id
    _ ← slot_get program.resource
    reject_if (not (program.context_id == queue.context_id)) context_mismatch
    check_buffers s queue.context_id buffer_ids
    ok queue.context_id

  unfoldable pub check_programs :
      DeviceState C B P Q E → ℕ → List ℕ → Result DeviceStateError (Unit {0})
  unfolding find slot_get
  check_programs s context_id [] = ok tt
  check_programs s context_id (id ∷ ids) = do
    program ← find s.programs id
    _ ← slot_get program.resource
    reject_if (not (program.context_id == context_id)) context_mismatch
    check_programs s context_id ids

  unfoldable pub validate_submission_sequence :
      DeviceState C B P Q E → ℕ → List ℕ → List ℕ → Result DeviceStateError ℕ
  unfolding validate_submission check_programs
  validate_submission_sequence s queue_id [] buffer_ids = err invalid_argument
  validate_submission_sequence s queue_id (first ∷ rest) buffer_ids = do
    context_id ← validate_submission s queue_id first buffer_ids
    check_programs s context_id rest
    ok context_id

  -- The loop over `program_ids`: `seen` holds the IDs before the index.
  unfoldable pub check_program_counts :
      DeviceState C B P Q E → List ℕ → List ℕ → Result DeviceStateError (Unit {0})
  unfolding find check_count check_add contains count
  check_program_counts s seen [] = ok tt
  check_program_counts s seen (id ∷ ids) =
      let rest = check_program_counts s (id ∷ seen) ids in
      if contains id seen then rest else do
        check_count (count id (id ∷ ids))
        program ← find s.programs id
        check_add program.in_flight (count id (id ∷ ids))
        rest

  -- The two nested `while` loops over the sorted buffer IDs: `run` IDs equal to `id` are behind the
  -- inner index.
  unfoldable pub check_buffer_run :
      DeviceState C B P Q E → ℕ → ℕ → Result DeviceStateError (Unit {0})
  unfolding find check_count check_add
  check_buffer_run s id run = do
    check_count run
    buffer ← find s.buffers id
    check_add buffer.in_flight run

  unfoldable pub check_buffer_runs :
      DeviceState C B P Q E → ℕ → ℕ → List ℕ → Result DeviceStateError (Unit {0})
  unfolding check_buffer_run
  check_buffer_runs s id run [] = check_buffer_run s id run
  check_buffer_runs s id run (x ∷ ids) = elim (x == id) [
    | true ↦ check_buffer_runs s id (run + 1) ids
    | false ↦ do check_buffer_run s id run; check_buffer_runs s x 1 ids
  ]

  unfoldable pub check_buffer_counts :
      DeviceState C B P Q E → List ℕ → Result DeviceStateError (Unit {0})
  unfolding check_buffer_runs
  check_buffer_counts s [] = ok tt
  check_buffer_counts s (id ∷ ids) = check_buffer_runs s id 1 ids

  unfoldable pub check_reference_increments :
      DeviceState C B P Q E → ℕ → List ℕ → List ℕ → Result DeviceStateError (Unit {0})
  unfolding check_program_counts check_buffer_counts
  check_reference_increments s queue_id program_ids sorted_buffer_ids = do
    queue ← find s.queues queue_id
    check_add queue.in_flight 1
    check_program_counts s [] program_ids
    check_buffer_counts s sorted_buffer_ids

  -- The common shape of `increment_event_references` and `decrement_event_references`: the queue,
  -- the programs, the buffers, the context.
  unfoldable pub change_references :
      (QueueRecord Q → QueueRecord Q)
      → (ProgramRecord P → ProgramRecord P)
      → (BufferRecord B → BufferRecord B)
      → (ContextRecord C → ContextRecord C)
      → DeviceState C B P Q E
      → ℕ
      → ℕ
      → List ℕ
      → List ℕ
      → DeviceState C B P Q E × Result DeviceStateError (Unit {0})
  unfolding find change_all
  change_references on_queue on_program on_buffer on_context s context_id queue_id program_ids
        buffer_ids =
      attempt s (find s.queues queue_id) λ queue.
        let s1 = record s { queues = put s.queues queue_id (on_queue queue) } in
        let (programs', programs_done) = change_all on_program s1.programs program_ids in
        let s2 = record s1 { programs = programs' } in
        attempt s2 programs_done λ _.
          let (buffers', buffers_done) = change_all on_buffer s2.buffers buffer_ids in
          let s3 = record s2 { buffers = buffers' } in
          attempt s3 buffers_done λ _. attempt s3 (find s3.contexts context_id) λ context.
            (record s3 { contexts = put s3.contexts context_id (on_context context) }, ok tt)

  unfoldable pub increment_event_references :
      DeviceState C B P Q E
      → ℕ
      → ℕ
      → List ℕ
      → List ℕ
      → DeviceState C B P Q E × Result DeviceStateError (Unit {0})
  unfolding change_references retain_queue retain_program retain_buffer add_event
  increment_event_references = change_references retain_queue retain_program retain_buffer add_event

  unfoldable pub decrement_event_references :
      DeviceState C B P Q E
      → ℕ
      → ℕ
      → List ℕ
      → List ℕ
      → DeviceState C B P Q E × Result DeviceStateError (Unit {0})
  unfolding change_references release_queue release_program release_buffer drop_event
  decrement_event_references =
      change_references release_queue release_program release_buffer drop_event
