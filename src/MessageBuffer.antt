-- ===== src/MessageBuffer.antt =====
-- common/Utilities/MessageBuffer.h: the byte buffer of the sockets. Two positions cut the storage
-- into bytes already read, active bytes and free space.
pub mod Valid
pub mod Contents
mod Tests
use warhead_fix.Base.Options.{◌>>=◌}
use warhead_fix.Base.{
  ℕ, ◌+◌, ◌-◌, ◌*◌, ◌/◌, ◌≡◌, List, [], length, Option, none, some, if◌then◌else◌, ◌==◌, add_size,
  sub_size, size_mod, ◌%◌, resize, copy_out, copy_in,
}

pub record MessageBuffer : Type 0 where
  pub wpos : ℕ
  pub rpos : ℕ
  pub storage : List ℕ

-- `MessageBuffer(initialSize)`
unfoldable pub create_sized : ℕ → MessageBuffer
create_sized initial_size = record { wpos = 0; rpos = 0; storage = resize [] initial_size }

-- `MessageBuffer()`
unfoldable pub create : MessageBuffer
unfolding create_sized
create = create_sized 4096

unfoldable pub reset : MessageBuffer → MessageBuffer
reset b = record b { wpos = 0; rpos = 0 }

-- `Resize` leaves the positions alone.
unfoldable pub resize_to : MessageBuffer → ℕ → MessageBuffer
resize_to b bytes = record b { storage = resize b.storage bytes }

unfoldable pub read_completed : MessageBuffer → ℕ → MessageBuffer
read_completed b bytes = record b { rpos = add_size b.rpos bytes }

unfoldable pub write_completed : MessageBuffer → ℕ → MessageBuffer
write_completed b bytes = record b { wpos = add_size b.wpos bytes }

unfoldable pub active_size : MessageBuffer → ℕ
active_size b = sub_size b.wpos b.rpos

unfoldable pub remaining_space : MessageBuffer → ℕ
remaining_space b = sub_size (length b.storage) b.wpos

unfoldable pub buffer_size : MessageBuffer → ℕ
buffer_size b = length b.storage

-- `memmove` of the active bytes to the front of the storage.
move_front : MessageBuffer → Option MessageBuffer
unfolding active_size
move_front b = do
  bytes ← copy_out b.storage b.rpos (active_size b)
  storage ← copy_in b.storage 0 bytes
  some (record b { storage = storage })

-- `Normalize`: discards the bytes already read. `none` is a `memmove` outside the storage.
unfoldable pub normalize : MessageBuffer → Option MessageBuffer
unfolding move_front
normalize b = if b.rpos == 0 then some b else do
  moved ← (if b.rpos == b.wpos then some b else move_front b)
  some (record moved { wpos = sub_size moved.wpos moved.rpos; rpos = 0 })

-- `EnsureFreeSpace`: a full storage grows by half.
unfoldable pub ensure_free_space : MessageBuffer → MessageBuffer
unfolding remaining_space resize_to
ensure_free_space b =
    if remaining_space b == 0 then resize_to b ((length b.storage * 3) % size_mod / 2) else b

-- `Write(data, size)`, the bytes of `data` as a list. `none` is a `memcpy` past the storage.
unfoldable pub write : MessageBuffer → List ℕ → Option MessageBuffer
unfolding write_completed
write b bytes = if length bytes == 0 then some b else do
  storage ← copy_in b.storage b.wpos bytes
  some (write_completed (record b { storage = storage }) (length bytes))

-- `Move()`: the storage that is handed over, and what stays behind.
unfoldable pub move : MessageBuffer → List ℕ × MessageBuffer
move b = (b.storage, record { wpos = 0; rpos = 0; storage = [] })
