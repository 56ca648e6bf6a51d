-- ===== src/SplitQueue/Trace/Lists.antt =====
-- The histories of a trace and the chains that the device holds, as lists.
use mathlib.Core.List.{append_assoc}
use virtio_accel.Prelude.{
  ℕ, zero, suc, ◌+◌, ◌≤◌, ◌≡◌, List, [], ◌∷◌, ◌++◌, sum_by, Option, some, All, ap, ◌∙◌, sym, arith,
  get_elem?,
}
use virtio_accel.SplitQueue.Chain.{DeviceChain}
use virtio_accel.SplitQueue.Trace.{drop_at}
use virtio_accel.SplitQueue.Trace.Inv.{somes, somes-append}

-- A history that grows by an entry at the end of its ring.
pub fifo-push {ℓ} :
    {A : Type ℓ} (pushed popped : List A) (ring : List (Option A)) (x : A)
    → somes pushed ≡ somes popped ++ ring
    → somes (pushed ++ x ∷ []) ≡ somes popped ++ (ring ++ some x ∷ [])
fifo-push pushed popped ring x e =
    somes-append pushed (x ∷ [])
    ∙ ap (λ r. r ++ some x ∷ []) e
    ∙ append_assoc (somes popped) ring (some x ∷ [])

-- The first entry of a ring moves to what has been popped.
pub fifo-pop {ℓ} :
    {A : Type ℓ} (pushed popped : List A) (ring : List (Option A)) (x : A)
    → somes pushed ≡ somes popped ++ some x ∷ ring
    → somes pushed ≡ somes (popped ++ x ∷ []) ++ ring
fifo-pop pushed popped ring x e =
    e
    ∙ sym (
        ap (λ r. r ++ ring) (somes-append popped (x ∷ []))
        ∙ append_assoc (somes popped) (some x ∷ []) ring)

-- The device's chains without one of them.
pub sum_by-drop_at :
    (f : DeviceChain → ℕ) (cs : List DeviceChain) (i : ℕ) (c : DeviceChain)
    → get_elem? cs i ≡ some c
    → sum_by f (drop_at cs i) + f c ≡ sum_by f cs
sum_by-drop_at f [] i c e = absurd (cc)
sum_by-drop_at f (x ∷ cs) zero c e = ground arith
sum_by-drop_at f (x ∷ cs) (suc i) c e = omega (arith, sum_by-drop_at f cs i c e)

pub sum_by-drop_at_le :
    (f : DeviceChain → ℕ) (cs : List DeviceChain) (i : ℕ) → sum_by f (drop_at cs i) ≤ sum_by f cs
sum_by-drop_at_le f [] i = omega arith
sum_by-drop_at_le f (x ∷ cs) zero = omega arith
sum_by-drop_at_le f (x ∷ cs) (suc i) = omega (arith, sum_by-drop_at_le f cs i)

pub All-drop_at :
    (P : DeviceChain → Type 0) (cs : List DeviceChain) (i : ℕ) → All P cs → All P (drop_at cs i)
All-drop_at P [] i a = a
All-drop_at P (x ∷ cs) zero a = a.1
All-drop_at P (x ∷ cs) (suc i) a = (a.0, All-drop_at P cs i a.1)
