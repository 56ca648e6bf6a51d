-- ===== src/DeviceState/Settled.antt =====
-- Resource slots between two operations: a live slot holds its resource, and a releasing one has
-- given it up and is referred to by nothing.
use virtio_accel.Prelude.{ℕ, ◌≡◌, Bool, true, ◌&&◌, some, arith, ◌==◌, is_some, is_none, ok}
use virtio_accel.ObjectTable.{ObjectTable, get, put, remove}
use virtio_accel.ObjectTable.Insert.{Inserted}
use virtio_accel.ObjectTable.View.{view, view-ok, view-put, view-remove, view-insert}
use virtio_accel.DeviceState.Records.{live, releasing, ResourceSlot}

module _ {R : Type 0} where
  unfoldable pub settled : ResourceSlot R → ℕ → Bool
  settled s n = elim s.release [
    | live ↦ is_some s.resource
    | releasing ↦ is_none s.resource && n == 0
  ]

module _ {X : Type 0} where
  -- The test holds of every value of the table.
  abbrev pub AllOk : (X → Bool) → ObjectTable X → Type 0
  AllOk p xs = (k : ℕ) (b : Bool) → view p xs k ≡ some b → b ≡ true

  pub AllOk-put :
      (p : X → Bool) (xs : ObjectTable X) (id : ℕ) (x y : X)
      → get xs id ≡ ok x
      → p y ≡ true
      → AllOk p xs
      → AllOk p (put xs id y)
  AllOk-put p xs id x y found good h k b e = ground (arith, view-put p xs id k x y found, h k b)

  pub AllOk-insert :
      (p : X → Bool) (xs ys : ObjectTable X) (id : ℕ) (x : X)
      → Inserted xs ys id x
      → p x ≡ true
      → AllOk p xs
      → AllOk p ys
  AllOk-insert p xs ys id x i good h k b e = ground (arith, view-insert p xs ys id k x i, h k b)

  pub AllOk-remove :
      (p : X → Bool) (xs : ObjectTable X) (id : ℕ) (x : X)
      → get xs id ≡ ok x
      → AllOk p xs
      → AllOk p (remove xs id).0
  AllOk-remove p xs id x found h k b e = ground (arith, view-remove p xs id k x found, h k b)

  pub AllOk-get :
      (p : X → Bool) (xs : ObjectTable X) (id : ℕ) (x : X)
      → AllOk p xs
      → get xs id ≡ ok x
      → p x ≡ true
  AllOk-get p xs id x h found = h id (p x) (view-ok p xs id x found)
