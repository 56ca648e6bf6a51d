-- ===== src/ObjectTable/Insert.antt =====
-- What an insertion does to every lookup and every total, and when it is refused.
use virtio_accel.Prelude.{
  ℕ, ◌+◌, ◌<◌, ◌≡◌, refl, sym, ap, ◌∙◌, false, none, some, List, [], ◌∷◌, ◌++◌, arith, length,
  get_elem?, set, if◌then◌else◌, add_u32, sum_by-set, sum_by-push, get_elem?-set_self,
  get_elem?-set_ne, get_elem?-push_ne, get_elem?-push_last, get_elem?-lt, get_elem?-past, ◌==◌, ok,
  err, All-get_elem?,
}
use virtio_accel.ObjectTable.{
  stale_id, Slot, ObjectTable, get, insert_prepared, new_id, Reserve, try_reserve_insert,
}
use virtio_accel.ObjectTable.Ids.{Decodes, new_id-Decodes}
use virtio_accel.ObjectTable.Lookup.{peek, get-peek}
use virtio_accel.ObjectTable.Valid.{weight, total, SlotOk, FreeOk, IsValid}
use virtio_accel.ObjectTable.Preserve.{HasRoom, insert_prepared_reuse, insert_prepared_grow}
use virtio_accel.ObjectTable.Laws.{write_law, peek_other, peek_empty, peek_hit}

module _ {T : Type 0} where
  -- What a client may rely on after an insertion.
  pub record Inserted (t u : ObjectTable T) (id : ℕ) (value : T) : Type 0 where
    pub lookups : (j : ℕ) → get u j ≡ (if j == id then ok value else get t j)
    pub fresh : get t id ≡ err stale_id
    pub totals : (f : T → ℕ) → total f u ≡ total f t + f value
    pub kind : u.kind ≡ t.kind
    pub namespace : u.namespace ≡ t.namespace
    pub max_slots : u.max_slots ≡ t.max_slots

  reuse-Inserted :
      (t : ObjectTable T) (value : T) (i : ℕ) (rest : List ℕ) (s : Slot T)
      → IsValid t
      → get_elem? t.slots i ≡ some s
      → s.value ≡ none
      → s.retired ≡ false
      → Inserted t
          (record t {
            slots = set t.slots i (record s { value = some value });
            free = rest;
            live = add_u32 t.live 1;
          })
          (new_id i t.namespace s.generation t.kind)
          value
  unfolding total
  reuse-Inserted t value i rest s v found empty kept =
      let id : ℕ = new_id i t.namespace s.generation t.kind in
      let s' : Slot T = record s { value = some value } in
      let u : ObjectTable T = record t {
        slots = set t.slots i s';
        free = rest;
        live = add_u32 t.live 1;
      } in
      let hit : get_elem? u.slots i ≡ some s' = get_elem?-set_self t.slots i s' found in
      let d : Decodes id i t.namespace s.generation t.kind =
        new_id-Decodes i t.namespace s.generation t.kind
          (omega (arith, get_elem?-lt t.slots i found, v.capacity, v.bounded))
          (omega (arith, (All-get_elem? SlotOk t.slots i s v.slots_ok found).0)) in
      record {
        lookups =
            write_law t u i id s.generation (ok value) refl refl d
              (λ n ne. get_elem?-set_ne t.slots i n s' (λ e. ne (sym e)))
              (λ g ne. peek_other _ s' g hit ne ∙ sym (peek_empty _ s g found empty))
              (ap (λ o. peek o s.generation) hit ∙ peek_hit s' value refl kept);
        fresh = get-peek t id i s.generation d ∙ peek_empty _ s s.generation found empty;
        totals = λ f. ground (arith, sum_by-set (weight f) t.slots i s' s found);
        kind = refl;
        namespace = refl;
        max_slots = refl;
      }

  grow-Inserted :
      (t : ObjectTable T) (value : T)
      → IsValid t
      → length t.slots < t.max_slots
      → Inserted t
          (record t {
            slots = t.slots ++ record { generation = 0; value = some value; retired = false } ∷ [];
            live = add_u32 t.live 1;
          })
          (new_id (length t.slots) t.namespace 0 t.kind)
          value
  unfolding total
  grow-Inserted t value v room =
      let i : ℕ = length t.slots in
      let id : ℕ = new_id i t.namespace 0 t.kind in
      let s' : Slot T = record { generation = 0; value = some value; retired = false } in
      let u : ObjectTable T = record t { slots = t.slots ++ s' ∷ []; live = add_u32 t.live 1 } in
      let hit : get_elem? u.slots i ≡ some s' = get_elem?-push_last t.slots s' in
      let past : get_elem? t.slots i ≡ none = get_elem?-past t.slots i (omega arith) in
      let d : Decodes id i t.namespace 0 t.kind =
        new_id-Decodes i t.namespace 0 t.kind (omega (arith, v.capacity, v.bounded))
          (omega arith) in
      record {
        lookups =
            write_law t u i id 0 (ok value) refl refl d (λ n ne. get_elem?-push_ne t.slots s' n ne)
              (λ g ne. peek_other _ s' g hit ne ∙ sym (ap (λ o. peek o g) past))
              (ap (λ o. peek o 0) hit ∙ peek_hit s' value refl refl);
        fresh = get-peek t id i 0 d ∙ ap (λ o. peek o 0) past;
        totals = λ f. sum_by-push (weight f) t.slots s';
        kind = refl;
        namespace = refl;
        max_slots = refl;
      }

  -- An insertion into a well-formed table with room: the new ID was stale before and resolves to the
  -- value, every other ID resolves or fails as before, every sum over the values grows by the new
  -- value's part, and the kind, the namespace and the capacity stay.
  pub insert_prepared-Inserted :
      (t : ObjectTable T) (value : T)
      → IsValid t
      → HasRoom t
      → Inserted t (insert_prepared t value).0 (insert_prepared t value).1 value
  insert_prepared-Inserted t value v room = go t.free refl
    where
      go :
          (free : List ℕ)
          → t.free ≡ free
          → Inserted t (insert_prepared t value).0 (insert_prepared t value).1 value
      go [] e = rw (insert_prepared_grow t value e) (grow-Inserted t value v (ground arith))
      go (i ∷ rest) e =
          let f : FreeOk t.slots (i ∷ rest) = rw e at (v.free_ok) in
          let (s, found, empty, kept) = f.0 in
          rw (insert_prepared_reuse t value i rest s e found)
            (reuse-Inserted t value i rest s v found empty kept)

  -- A reservation that succeeds leaves room for the insertion.
  pub try_reserve_insert-HasRoom :
      (t : ObjectTable T) (room : Reserve) → try_reserve_insert t room ≡ ok tt → HasRoom t
  unfolding try_reserve_insert
  try_reserve_insert-HasRoom t room h = ground arith
