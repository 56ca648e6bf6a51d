-- ===== src/Transport/Bytes.antt =====
-- The byte access of crates/virtio-accel-transport/src/bytes.rs: `ReadableBytes` and `WritableBytes`
-- for a slice. A byte is moved, never computed with.
pub mod Laws
mod Tests
use virtio_accel.Prelude.{
  ℕ, zero, suc, ◌+◌, ◌-◌, ◌^◌, ltb, leb, if◌then◌else◌, List, [], ◌∷◌, ◌++◌, length, take, drop,
  Option, none, some, Result, ok, err, ◌>>=◌, ◌>>◌, ok_or, reject_if,
}

pub data ByteAccessError : Type 0 where
  out_of_bounds busy reset access : ByteAccessError

-- `usize::checked_add`, on a 64-bit target.
abbrev pub checked_end : ℕ → ℕ → Option ℕ
checked_end start count = if ltb (start + count) (2 ^ 64) then some (start + count) else none

module _ {ℓ} {A : Type ℓ} where
  -- `slice.get(start..end)`.
  abbrev pub get_range : List A → ℕ → ℕ → Option (List A)
  get_range xs start end =
      if leb start end
      then (if leb end (length xs) then some (take (end - start) (drop start xs)) else none)
      else none

-- `<[u8] as ReadableBytes>::read_at` of `count` bytes: what it copies to the target.
unfoldable pub read_at : List ℕ → ℕ → ℕ → Result ByteAccessError (List ℕ)
read_at bytes offset count = do
  end ← ok_or (checked_end offset count) out_of_bounds
  ok_or (get_range bytes offset end) out_of_bounds

-- `<[u8] as WritableBytes>::write_at`: the bytes afterwards.
unfoldable pub write_at : List ℕ → ℕ → List ℕ → Result ByteAccessError (List ℕ)
write_at bytes offset source = do
  end ← ok_or (checked_end offset (length source)) out_of_bounds
  reject_if (ltb (length bytes) end) out_of_bounds
  ok (take offset bytes ++ source ++ drop end bytes)
