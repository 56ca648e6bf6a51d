-- ===== src/DeviceState/Start.antt =====
-- A device that was just constructed: nothing is there, and the invariant holds.
use virtio_accel.Prelude.{ℕ, ◌*◌, ◌<◌, ◌≡◌, refl, sym, Bool, none, [], arith, ok, u32_mod}
use virtio_accel.ObjectTable.{
  ObjectKind, with_namespace, get, locate, check_slot, context, buffer, program, queue, event,
}
use virtio_accel.ObjectTable.Valid.{total, with_namespace-IsValid}
use virtio_accel.ObjectTable.View.{view}
use virtio_accel.DeviceState.Records.{DeviceLimits, ResourcePolicy, EventRecord}
use virtio_accel.DeviceState.Graph.{DeviceState, new, aggregate_slots}
use virtio_accel.DeviceState.Counted.{Counted}
use virtio_accel.DeviceState.Referenced.{EventRefs, Referenced, refs_of}
use virtio_accel.DeviceState.Settled.{AllOk}
use virtio_accel.DeviceState.Inv.{Inv, LimitsOk}

empty_view :
    {T K : Type 0} (g : T → K) (k : ObjectKind) (max namespace id : ℕ)
    → view g (with_namespace k max namespace) id ≡ none
unfolding view get locate check_slot with_namespace
empty_view g k max namespace id = ground arith

empty_total :
    {T : Type 0} (f : T → ℕ) (k : ObjectKind) (max namespace : ℕ)
    → total f (with_namespace k max namespace) ≡ 0
unfolding total with_namespace
empty_total f k max namespace = refl

AllOk-empty :
    {T : Type 0} (p : T → Bool) (k : ObjectKind) (max namespace : ℕ)
    → AllOk p (with_namespace k max namespace)
AllOk-empty p k max namespace id b e = absurd (ground (arith, empty_view p k max namespace id))

Counted-empty :
    {X Y : Type 0} (count : X → ℕ) (owner : Y → ℕ) (k k' : ObjectKind) (max max' namespace : ℕ)
    → Counted count (with_namespace k max namespace) owner (with_namespace k' max' namespace) []
Counted-empty count owner k k' max max' namespace = record {
  kids = λ id n e. absurd (ground (arith, empty_view count k max namespace id));
  owned = λ j id e. absurd (ground (arith, empty_view owner k' max' namespace j));
  awaited = tt;
  fits = λ id n e. absurd (ground (arith, empty_view count k max namespace id));
}

Referenced-empty :
    {X E : Type 0} (refs owner : X → ℕ) (use_count : EventRefs → ℕ → ℕ) (k k' : ObjectKind)
    (max max' namespace : ℕ)
    → Referenced refs owner
        (with_namespace k max namespace)
        use_count
        (with_namespace {T = EventRecord E} k' max' namespace)
        []
Referenced-empty {E = E} refs owner use_count k k' max max' namespace = record {
  counted = λ id n e. absurd (ground (arith, empty_view refs k max namespace id));
  held = λ j id e p u. absurd (ground (arith, empty_view (refs_of {E = E}) k' max' namespace j));
  awaited = tt;
  fits = λ id n e. absurd (ground (arith, empty_view refs k max namespace id));
}

-- The capacities of the child tables, which the construction computes.
record Fits (l : DeviceLimits) : Type 0 where
  buffers : l.max_contexts * l.max_buffers_per_context < u32_mod
  programs : l.max_contexts * l.max_programs_per_context < u32_mod
  queues : l.max_contexts * l.max_queues_per_context < u32_mod
  events : l.max_contexts * l.max_events_per_context < u32_mod

module _ {C B P Q E : Type 0} where
  -- The state that `new` returns where it returns one.
  abbrev start : ℕ → DeviceLimits → ResourcePolicy → DeviceState C B P Q E
  start namespace l policy = record {
    namespace = namespace;
    limits = l;
    policy = policy;
    retained = record { buffer_backing = 0; program_resident = 0 };
    contexts = with_namespace context l.max_contexts namespace;
    buffers = with_namespace buffer (l.max_contexts * l.max_buffers_per_context) namespace;
    programs = with_namespace program (l.max_contexts * l.max_programs_per_context) namespace;
    queues = with_namespace queue (l.max_contexts * l.max_queues_per_context) namespace;
    events = with_namespace event (l.max_contexts * l.max_events_per_context) namespace;
  }

  new_lem :
      (namespace : ℕ) (l : DeviceLimits) (policy : ResourcePolicy) (s : DeviceState C B P Q E)
      → new namespace l policy ≡ ok s
      → s ≡ start namespace l policy
  unfolding new aggregate_slots
  new_lem namespace l policy s h = ground arith

  new-Fits :
      (namespace : ℕ) (l : DeviceLimits) (policy : ResourcePolicy) (s : DeviceState C B P Q E)
      → new namespace l policy ≡ ok s
      → Fits l
  unfolding new aggregate_slots
  new-Fits namespace l policy s h = record {
    buffers = ground arith;
    programs = ground arith;
    queues = ground arith;
    events = ground arith;
  }

  start-Inv :
      (namespace : ℕ) (l : DeviceLimits) (policy : ResourcePolicy)
      → LimitsOk l policy
      → Fits l
      → Inv (start namespace l policy) []
  start-Inv namespace l policy small fits = record {
    limits = small;
    contexts = record {
      valid = with_namespace-IsValid context l.max_contexts namespace small.contexts;
      slots = AllOk-empty _ _ _ _;
    };
    buffers = record {
      valid = with_namespace-IsValid buffer _ namespace fits.buffers;
      kids = Counted-empty _ _ _ _ _ _ _;
      refs = Referenced-empty _ _ _ _ _ _ _ _;
      slots = AllOk-empty _ _ _ _;
      charged = sym (empty_total _ _ _ _);
      words = empty_total _ _ _ _;
    };
    programs = record {
      valid = with_namespace-IsValid program _ namespace fits.programs;
      kids = Counted-empty _ _ _ _ _ _ _;
      refs = Referenced-empty _ _ _ _ _ _ _ _;
      slots = AllOk-empty _ _ _ _;
      charged = sym (empty_total _ _ _ _);
      within = omega arith;
    };
    queues = record {
      valid = with_namespace-IsValid queue _ namespace fits.queues;
      kids = Counted-empty _ _ _ _ _ _ _;
      refs = Referenced-empty _ _ _ _ _ _ _ _;
      slots = AllOk-empty _ _ _ _;
    };
    events = record {
      valid = with_namespace-IsValid event _ namespace fits.events;
      kids = Counted-empty _ _ _ _ _ _ _;
      slots = AllOk-empty _ _ _ _;
      programmed = AllOk-empty _ _ _ _;
    };
  }

  -- Where the construction succeeds on limits and a policy of their machine types, the new device
  -- satisfies the invariant.
  pub new-Inv :
      (namespace : ℕ) (l : DeviceLimits) (policy : ResourcePolicy) (s : DeviceState C B P Q E)
      → LimitsOk l policy
      → new namespace l policy ≡ ok s
      → Inv s []
  new-Inv namespace l policy s small h =
      rw (new_lem namespace l policy s h)
        (start-Inv namespace l policy small (new-Fits namespace l policy s h))
