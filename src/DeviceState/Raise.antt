-- ===== src/DeviceState/Raise.antt =====
-- Reference counts that a loop raises or lowers: each record's by as many as its ID occurs.
use virtio_accel.Prelude.{
  ℕ, zero, suc, ◌+◌, ◌≤◌, ◌<◌, ◌≡◌, refl, sym, ap, ◌∙◌, inl, inr, true, some, List, ◌∷◌, arith, ok,
  Result-cases, is_some, u32_mod, add_u32, sub_u32,
}
use virtio_accel.ObjectTable.{ObjectTable, get}
use virtio_accel.ObjectTable.View.{view, view-ok, view-some, Same}
use virtio_accel.DeviceState.Records.{ResourceSlot, EventRecord}
use virtio_accel.DeviceState.References.{count}
use virtio_accel.DeviceState.Referenced.{
  EventRefs, Referenced, Referenced-raise, Referenced-lower, Referenced-ge,
}
use virtio_accel.DeviceState.Settled.{settled, AllOk}
use virtio_accel.DeviceState.Change.{times, Changed}

module _ {X : Type 0} (refs : X → ℕ) (f : X → X) where
  times-keeps :
      {K : Type 0} (g : X → K) → ((x : X) → g (f x) ≡ g x) → (n : ℕ) (x : X) → g (times f n x) ≡ g x
  times-keeps g keeps zero x = refl
  times-keeps g keeps (suc n) x = times-keeps g keeps n (f x) ∙ keeps x

  times_up :
      ((x : X) → refs (f x) ≡ add_u32 (refs x) 1)
      → (n : ℕ) (x : X) → refs x + n < u32_mod
      → refs (times f n x) ≡ refs x + n
  times_up up zero x h = omega arith
  times_up up (suc n) x h =
      let one : refs (f x) ≡ refs x + 1 = omega (arith, up x) in
      omega (arith, times_up up n (f x) (omega (arith, one)), one)

  times_down :
      ((x : X) → refs (f x) ≡ sub_u32 (refs x) 1)
      → (n : ℕ) (x : X) → n ≤ refs x
      → refs x < u32_mod
      → refs (times f n x) + n ≡ refs x
  times_down down zero x h small = omega arith
  times_down down (suc n) x h small =
      let one : refs (f x) + 1 ≡ refs x = omega (arith, down x) in
      omega (arith, times_down down n (f x) (omega (arith, one)) (omega (arith, one)), one)

module _ {X : Type 0} (f : X → X) (ids : List ℕ) (xs ys : ObjectTable X)
    (changed : Changed f ids xs ys) where
  -- Where a changed record comes from.
  pub before :
      (k : ℕ) (y : X)
      → get ys k ≡ ok y
      → (x : X) × (get xs k ≡ ok x) × (y ≡ times f (count k ids) x)
  before k y e = elim (Result-cases (get xs k)) [
    | inr (m, bad) ↦ absurd (ground (arith, changed.lookups k))
    | inl (x, found) ↦ (x, found, ground (arith, changed.lookups k))
  ]

-- A submission may count references on these records.
abbrev pub MayRaise :
    {X R : Type 0} → (X → ℕ) → (X → ResourceSlot R) → List ℕ → ObjectTable X → Type 0
MayRaise {X} refs slot ids xs =
    (k : ℕ) (x : X)
    → 0 < count k ids
    → get xs k ≡ ok x
    → (refs x + count k ids < u32_mod) × (is_some (slot x).resource ≡ true)

module _ {X R : Type 0} (refs owner : X → ℕ) (slot : X → ResourceSlot R) (f : X → X)
    (keeps : (x : X) → slot (f x) ≡ slot x) where
  module _ (ids : List ℕ) (xs ys : ObjectTable X) (changed : Changed f ids xs ys) where
    pub raised :
        ((x : X) → refs (f x) ≡ add_u32 (refs x) 1)
        → MayRaise refs slot ids xs
        → (k : ℕ) (x : X) → get xs k ≡ ok x
        → refs x < u32_mod
        → (refs (times f (count k ids) x) ≡ refs x + count k ids) × (refs x + count k ids < u32_mod)
    raised up may k x found small = go (count k ids) refl
      where
        go :
            (n : ℕ)
            → count k ids ≡ n
            → (refs (times f (count k ids) x) ≡ refs x + count k ids)
              × (refs x + count k ids < u32_mod)
        go zero e = rw e (omega arith, omega arith)
        go (suc n) e =
            let fits : refs x + count k ids < u32_mod = (may k x (omega (arith, e)) found).0 in
            (times_up refs f up (count k ids) x fits, fits)

    pub AllOk-raised :
        ((x : X) → refs (f x) ≡ add_u32 (refs x) 1)
        → MayRaise refs slot ids xs
        → AllOk (λ x. settled (slot x) (refs x)) xs
        → AllOk (λ x. settled (slot x) (refs x)) ys
    unfolding settled
    AllOk-raised up may h k b e =
        let (y, there, is) = view-some (λ x. settled (slot x) (refs x)) ys k b e in
        let (x, found, from) = before f ids xs ys changed k y there in
        let was =
          h k (settled (slot x) (refs x)) (view-ok (λ x. settled (slot x) (refs x)) xs k x found) in
        let same : slot y ≡ slot x = ap slot from ∙ times-keeps refs f slot keeps (count k ids) x in
        sym is ∙ go x y found from same was (count k ids) refl
      where
        go :
            (x y : X)
            → get xs k ≡ ok x
            → y ≡ times f (count k ids) x
            → slot y ≡ slot x
            → settled (slot x) (refs x) ≡ true
            → (n : ℕ) → count k ids ≡ n
            → settled (slot y) (refs y) ≡ true
        go x y found from same was zero e =
            let keep : y ≡ x = from ∙ ap (λ n. times f n x) e in
            ap (λ z. settled (slot z) (refs z)) keep ∙ was
        go x y found from same was (suc n) e =
            let held = (may k x (omega (arith, e)) found).1 in rw same (ground arith)

    pub AllOk-lowered :
        ((k : ℕ) (x : X) → get xs k ≡ ok x → refs (times f (count k ids) x) ≤ refs x)
        → AllOk (λ x. settled (slot x) (refs x)) xs
        → AllOk (λ x. settled (slot x) (refs x)) ys
    unfolding settled
    AllOk-lowered less h k b e =
        let (y, there, is) = view-some (λ x. settled (slot x) (refs x)) ys k b e in
        let (x, found, from) = before f ids xs ys changed k y there in
        let was =
          h k (settled (slot x) (refs x)) (view-ok (λ x. settled (slot x) (refs x)) xs k x found) in
        let same : slot y ≡ slot x = ap slot from ∙ times-keeps refs f slot keeps (count k ids) x in
        let fewer : refs y ≤ refs x = omega (arith, ap refs from, less k x found) in
        sym is ∙ ap (λ z. settled z (refs y)) same ∙ ground arith

module _ {X E : Type 0} (refs owner : X → ℕ) (f : X → X) (use_count : EventRefs → ℕ → ℕ)
    (e : EventRefs) (pending : List EventRefs) (ids : List ℕ)
    (agree : (k : ℕ) → use_count e k ≡ count k ids) (xs ys : ObjectTable X)
    (events : ObjectTable (EventRecord E)) (changed : Changed f ids xs ys)
    (owners : Same owner xs ys) where
  pub Referenced-raised :
      ((k : ℕ) (x : X)
        → get xs k ≡ ok x
        → refs x < u32_mod
        → (refs (times f (count k ids) x) ≡ refs x + count k ids)
          × (refs x + count k ids < u32_mod))
      → ((k : ℕ) → 0 < count k ids → view owner xs k ≡ some e.context_id)
      → Referenced refs owner xs use_count events pending
      → Referenced refs owner ys use_count events (e ∷ pending)
  Referenced-raised up named h =
      Referenced-raise refs owner use_count xs ys events e pending
        (λ k n p.
          let (y, there, is) = view-some refs ys k n p in
          let (x, found, from) = before f ids xs ys changed k y there in
          let (more, fits) = up k x found (h.fits k (refs x) (view-ok refs xs k x found)) in
          (
            refs x,
            view-ok refs xs k x found,
            sym is ∙ ap refs from ∙ more ∙ ap (λ m. refs x + m) (sym (agree k)),
            rw (sym is, from) (omega (arith, more, fits)),
          ))
        owners (λ k u. named k (omega (arith, agree k))) h

  pub Referenced-lowered :
      ((x : X) → refs (f x) ≡ sub_u32 (refs x) 1)
      → Referenced refs owner xs use_count events (e ∷ pending)
      → Referenced refs owner ys use_count events pending
  Referenced-lowered down h =
      Referenced-lower refs owner use_count xs ys events e pending
        (λ k n p.
          let (y, there, is) = view-some refs ys k n p in
          let (x, found, from) = before f ids xs ys changed k y there in
          let (enough, small) =
            Referenced-ge refs owner use_count xs events e pending k (refs x) h
              (view-ok refs xs k x found) in
          let less =
            times_down refs f down (count k ids) x (omega (arith, enough, agree k)) small in
          let here : refs (times f (count k ids) x) ≡ n = ap refs (sym from) ∙ is in
          (refs x, view-ok refs xs k x found, omega (arith, less, here, agree k)))
        owners h

  pub lowered-le :
      ((x : X) → refs (f x) ≡ sub_u32 (refs x) 1)
      → Referenced refs owner xs use_count events (e ∷ pending)
      → (k : ℕ) (x : X) → get xs k ≡ ok x
      → refs (times f (count k ids) x) ≤ refs x
  lowered-le down h k x found =
      let (enough, small) =
        Referenced-ge refs owner use_count xs events e pending k (refs x) h
          (view-ok refs xs k x found) in
      omega (arith, times_down refs f down (count k ids) x (omega (arith, enough, agree k)) small)
