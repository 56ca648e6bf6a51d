-- ===== src/DeviceState/Admitted.antt =====
-- Admitted submissions: their references can be counted, and there is room for their event.
use virtio_accel.Prelude.{
  ℕ, ◌<◌, ◌≡◌, refl, sym, inl, inr, true, false, List, [], ◌∷◌, arith, is_some, ok, Result-cases,
  ◌==◌, ==_cases,
}
use virtio_accel.ObjectTable.{Reserve, get}
use virtio_accel.ObjectTable.Preserve.{HasRoom}
use virtio_accel.DeviceState.Records.{QueueRecord, slot_get}
use virtio_accel.DeviceState.Graph.{DeviceState, find}
use virtio_accel.DeviceState.References.{
  count, sort, check_add, check_programs, validate_submission, validate_submission_sequence,
  check_reference_increments, check_program_counts, check_buffer_counts,
}
use virtio_accel.DeviceState.Submit.{check_event_quota, admit_event, admit_sequence}
use virtio_accel.DeviceState.Inv.{Inv}
use virtio_accel.DeviceState.Checks.{
  LiveBuffer, LiveProgram, check_buffers_lem, check_programs_lem, check_program_counts_lem,
  check_buffer_counts_lem, count-sort, sort-Sorted,
}
use virtio_accel.DeviceState.Admit.{reserve-HasRoom}
use virtio_accel.DeviceState.Increment.{Countable}

count_hit : (a k : ℕ) (ids : List ℕ) → a ≡ k → 0 < count k (a ∷ ids)
unfolding count
count_hit a k ids h = ground arith

count_miss : (a k : ℕ) (ids : List ℕ) → (a == k) ≡ false → count k (a ∷ ids) ≡ count k ids
unfolding count
count_miss a k ids h = ground arith

module _ {C B P Q E : Type 0} where
  -- What the validation of a submission has looked up.
  pub record Validated (s : DeviceState C B P Q E) (context_id queue_id : ℕ)
      (programs buffers : List ℕ) : Type 0 where
    pub queue : QueueRecord Q
    pub found : get s.queues queue_id ≡ ok queue
    pub held : is_some queue.resource.resource ≡ true
    pub owner : queue.context_id ≡ context_id
    pub live_programs : (k : ℕ) → 0 < count k programs → LiveProgram s context_id k
    pub live_buffers : (k : ℕ) → 0 < count k buffers → LiveBuffer s context_id k

  pub validate_submission-Validated :
      (s : DeviceState C B P Q E) (queue_id program_id : ℕ) (buffers : List ℕ) (context_id : ℕ)
      → validate_submission s queue_id program_id buffers ≡ ok context_id
      → Validated s context_id queue_id (program_id ∷ []) buffers
  unfolding validate_submission find slot_get count
  validate_submission-Validated s queue_id program_id buffers context_id h =
      elim (Result-cases (get s.queues queue_id)) [
        | inr (e, bad) ↦ absurd (ground arith)
        | inl (q, q_found) ↦ elim (Result-cases (get s.programs program_id)) [
          | inr (e, bad) ↦ absurd (ground arith)
          | inl (p, p_found) ↦ record {
            queue = q;
            found = q_found;
            held = ground arith;
            owner = ground arith;
            live_programs = λ k u. elim (==_cases program_id k) [
              | inr other ↦ absurd (ground arith)
              | inl same ↦ (p, rw (sym same) p_found, ground arith, ground arith)
            ];
            live_buffers = check_buffers_lem s context_id buffers (ground arith);
          }
        ]
      ]

  pub validate_submission_sequence-Validated :
      (s : DeviceState C B P Q E) (queue_id : ℕ) (programs buffers : List ℕ) (context_id : ℕ)
      → validate_submission_sequence s queue_id programs buffers ≡ ok context_id
      → Validated s context_id queue_id programs buffers
  unfolding validate_submission_sequence count
  validate_submission_sequence-Validated s queue_id [] buffers context_id h = absurd (ground arith)
  validate_submission_sequence-Validated s queue_id (first ∷ rest) buffers context_id h =
      let first_ok : validate_submission s queue_id first buffers ≡ ok context_id = ground arith in
      let rest_ok : check_programs s context_id rest ≡ ok tt = ground arith in
      let one = validate_submission-Validated s queue_id first buffers context_id first_ok in
      record {
        queue = one.queue;
        found = one.found;
        held = one.held;
        owner = one.owner;
        live_programs = λ k u. elim (==_cases first k) [
          | inl same ↦ one.live_programs k (count_hit first k [] same)
          | inr other ↦
              check_programs_lem s context_id rest rest_ok k
                (omega (arith, u, count_miss first k rest other))
        ];
        live_buffers = one.live_buffers;
      }

  -- The checks after the validation give the rest.
  checked-Countable :
      (s : DeviceState C B P Q E) (room : Reserve) (context_id queue_id : ℕ)
      (programs buffers : List ℕ)
      → Validated s context_id queue_id programs buffers
      → check_event_quota s room context_id ≡ ok tt
      → check_reference_increments s queue_id programs (sort buffers) ≡ ok tt
      → Inv s []
      → Countable s (record {
        context_id = context_id;
        queue_id = queue_id;
        programs = programs;
        buffers = sort buffers;
      })
        × HasRoom s.events
  unfolding check_event_quota check_reference_increments find check_add
  checked-Countable s room context_id queue_id programs buffers a quota counts v =
      elim (Result-cases (get s.contexts context_id)) [
        | inr (e, bad) ↦ absurd (ground arith)
        | inl (c, c_found) ↦
            let q_found = a.found in
            let program_counts : check_program_counts s [] programs ≡ ok tt =
              ground (arith, q_found) in
            let buffer_counts : check_buffer_counts s (sort buffers) ≡ ok tt =
              ground (arith, q_found) in
            (
              record {
                queue = a.queue;
                queue_found = a.found;
                queue_held = a.held;
                queue_owner = a.owner;
                queue_room = ground (arith, q_found);
                programs = a.live_programs;
                program_room = λ k r p found.
                    check_program_counts_lem s [] programs program_counts k r refl p found;
                buffers = λ k p. a.live_buffers k (omega (arith, p, count-sort buffers k));
                buffer_room = λ k r p found.
                    check_buffer_counts_lem s (sort buffers) (sort-Sorted buffers) buffer_counts k r
                      p found;
                context = c;
                context_found = c_found;
                context_room = ground (arith, v.limits.events);
              },
              reserve-HasRoom s.events room (ground arith),
            )
      ]

  -- A submission that the checks of `create_event_with` admit, in a state with the invariant, has live
  -- objects of one context under its IDs, none of its counts overflows a `u32`, and there is room for
  -- its event.
  pub admit_event-Countable :
      (s : DeviceState C B P Q E) (room : Reserve) (queue_id program_id : ℕ) (buffers : List ℕ)
      (context_id : ℕ)
      → admit_event s room queue_id program_id buffers ≡ ok context_id
      → Inv s []
      → Countable s (record {
        context_id = context_id;
        queue_id = queue_id;
        programs = (program_id ∷ []);
        buffers = sort buffers;
      })
        × HasRoom s.events
  unfolding admit_event
  admit_event-Countable s room queue_id program_id buffers context_id h v =
      let checked : validate_submission s queue_id program_id buffers ≡ ok context_id =
        ground arith in
      checked-Countable s room context_id queue_id (program_id ∷ []) buffers
        (validate_submission-Validated s queue_id program_id buffers context_id checked)
        (ground arith) (ground arith) v

  -- A submission that the checks of `create_event_sequence_with` admit, in a state with the invariant,
  -- has live objects of one context under its IDs, none of its counts overflows a `u32`, and there is
  -- room for its event.
  pub admit_sequence-Countable :
      (s : DeviceState C B P Q E) (room : Reserve) (queue_id : ℕ) (programs buffers : List ℕ)
      (context_id : ℕ)
      → admit_sequence s room queue_id programs buffers ≡ ok context_id
      → Inv s []
      → Countable s (record {
        context_id = context_id;
        queue_id = queue_id;
        programs = programs;
        buffers = sort buffers;
      })
        × HasRoom s.events
  unfolding admit_sequence
  admit_sequence-Countable s room queue_id programs buffers context_id h v =
      let checked : validate_submission_sequence s queue_id programs buffers ≡ ok context_id =
        ground arith in
      checked-Countable s room context_id queue_id programs buffers
        (validate_submission_sequence-Validated s queue_id programs buffers context_id checked)
        (ground arith) (ground arith) v
