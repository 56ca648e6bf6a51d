-- ===== src/SplitQueue/Trace/Views.antt =====
-- What the driver and the device of a split queue see of a chain, in terms of the history of the
-- queue.
use virtio_accel.Prelude.{
  ℕ, ◌≡◌, inl, inr, List, [], ◌∷◌, ◌++◌, length, Option, none, some, ap, refl, sym, subst,
  get_elem?, Option-cases,
}
use virtio_accel.Transport.{UsedChain}
use virtio_accel.SplitQueue.Chain.{ChainData, DeviceChain, DriverChain}
use virtio_accel.SplitQueue.Ring.{UsedElement}
use virtio_accel.SplitQueue.Rings.{chain_id}
use virtio_accel.SplitQueue.Trace.{Trace}
use virtio_accel.SplitQueue.Trace.Sent.{Placed}
use virtio_accel.SplitQueue.Trace.Inv.{somes}

-- The entry of a history behind what has been popped.
pub next_in {ℓ} :
    {A : Type ℓ} (pushed popped : List A) (ring : List (Option A)) (x : A)
    → somes pushed ≡ somes popped ++ some x ∷ ring
    → get_elem? pushed (length popped) ≡ some x
next_in [] [] ring x e = absurd (cc)
next_in (y ∷ pushed) [] ring x e = cc e
next_in [] (z ∷ popped) ring x e = absurd (cc)
next_in (y ∷ pushed) (z ∷ popped) ring x e = next_in pushed popped ring x (cc e)

pub none_left {ℓ} :
    {A : Type ℓ} (pushed popped : List A)
    → somes pushed ≡ somes popped ++ []
    → get_elem? pushed (length popped) ≡ none
none_left [] [] e = refl
none_left (y ∷ pushed) [] e = absurd (cc)
none_left [] (z ∷ popped) e = refl
none_left (y ∷ pushed) (z ∷ popped) e = none_left pushed popped (cc e)

-- The chain that the device gets for a head: with the contents that the driver published last under
-- that head.
abbrev pub device_view : Trace → Option ℕ → Option DeviceChain
device_view t none = none
device_view t (some head) = elim (t.sent head) [
  | none ↦ none
  | some chain ↦ some (record {
    id = chain_id t.queue.state.epoch head;
    chain_data = chain.chain_data;
    max_descriptors = t.queue.max_chain_descriptors;
  })
]

-- The chain that the driver gets back for a completion, without its slots, and their number.
abbrev pub driver_view : Trace → Option UsedElement → Option (UsedChain DriverChain × ℕ)
driver_view t none = none
driver_view t (some element) = elim (t.sent element.head) [
  | none ↦ none
  | some chain ↦ some (
    record { id = element.id; used = element.used; chain = record chain { slots = [] } },
    length chain.slots,
  )
]

abbrev pub returned : Option (UsedChain DriverChain) → Option (UsedChain DriverChain × ℕ)
returned none = none
returned (some u) =
    some (record u { chain = record (u.chain) { slots = [] } }, length u.chain.slots)

-- What the driver published and what a storage holds, in the two views.
module _ (t : Trace) where
  pub device_view-Placed :
      (head : ℕ) (placed : DriverChain)
      → Placed (t.sent head) placed
      → device_view t (some head)
        ≡ some (record {
          id = chain_id t.queue.state.epoch head;
          chain_data = placed.chain_data;
          max_descriptors = t.queue.max_chain_descriptors;
        })
  device_view-Placed head placed h = elim (Option-cases (t.sent head)) [
    | inl e ↦ absurd (subst (λ o. Placed o placed) e h)
    | inr (chain, e) ↦
        let (same, slots) = subst (λ o. Placed o placed) e h in
        rw (device_view, e) (ap (λ d. some (view d)) (sym (ap (λ c. c.chain_data) same)))
  ]
    where
      view : ChainData → DeviceChain
      view contents = record {
        id = chain_id t.queue.state.epoch head;
        chain_data = contents;
        max_descriptors = t.queue.max_chain_descriptors;
      }

  pub driver_view-Placed :
      (u : UsedElement) (placed : DriverChain)
      → Placed (t.sent u.head) placed
      → driver_view t (some u)
        ≡ returned (some (record { id = u.id; used = u.used; chain = placed }))
  driver_view-Placed u placed h = elim (Option-cases (t.sent u.head)) [
    | inl e ↦ absurd (subst (λ o. Placed o placed) e h)
    | inr (chain, e) ↦
        let (same, slots) = subst (λ o. Placed o placed) e h in
        rw (driver_view, e) (ap some (cc (slots, ap (view) same)))
  ]
    where
      view : DriverChain → UsedChain DriverChain
      view c = record { id = u.id; used = u.used; chain = record c { slots = [] } }
