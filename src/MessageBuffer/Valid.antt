-- ===== src/MessageBuffer/Valid.antt =====
-- The invariant of MessageBuffer.h: 0 ≤ rpos ≤ wpos ≤ size, far from the limit of `size_t`.
use warhead_fix.Base.{ℕ, ◌-◌, ◌^◌, ◌≤◌, ◌<◌, ◌≡◌, [], ◌*◌, ◌%◌, ◌/◌, length, arith, length-resize}
use warhead_fix.MessageBuffer.{
  MessageBuffer, create_sized, reset, read_completed, write_completed, active_size, remaining_space,
  ensure_free_space,
}

pub record IsValid (b : MessageBuffer) : Type 0 where
  pub ordered : b.rpos ≤ b.wpos
  pub within : b.wpos ≤ length b.storage
  pub small : length b.storage < 2 ^ 62

pub create_sized-IsValid : (n : ℕ) → n < 2 ^ 62 → IsValid (create_sized n)
unfolding create_sized
create_sized-IsValid n h = omega (arith, length-resize [] n)

pub reset-IsValid : {b : MessageBuffer} → IsValid b → IsValid (reset b)
unfolding reset
reset-IsValid v = omega arith

-- Nothing wraps: the sizes are the plain differences and make up the storage.
pub sizes :
    {b : MessageBuffer}
    → IsValid b
    → (active_size b ≡ b.wpos - b.rpos) × (remaining_space b ≡ length b.storage - b.wpos)
unfolding active_size remaining_space
sizes v = omega arith

pub read_completed-IsValid :
    {b : MessageBuffer} (n : ℕ) → IsValid b → n ≤ active_size b → IsValid (read_completed b n)
unfolding read_completed active_size
read_completed-IsValid n v h = omega arith

pub write_completed-IsValid :
    {b : MessageBuffer} (n : ℕ) → IsValid b → n ≤ remaining_space b → IsValid (write_completed b n)
unfolding write_completed remaining_space
write_completed-IsValid n v h = omega arith

pub ensure_free_space-IsValid :
    {b : MessageBuffer} → IsValid b → length b.storage < 2 ^ 61 → IsValid (ensure_free_space b)
unfolding ensure_free_space
ensure_free_space-IsValid {b} v h =
    ground (arith, length-resize b.storage (length b.storage * 3 % 2 ^ 64 / 2))
