-- ===== src/MessageBuffer/Tests.antt =====
-- MessageBuffer on a storage of four bytes, of which the first was read and the last is free.
use warhead_fix.Base.{◌≤◌, ◌≡◌, some, [], ◌∷◌, arith, length}
use warhead_fix.MessageBuffer.{MessageBuffer, normalize, write, remaining_space}
use warhead_fix.MessageBuffer.Valid.{IsValid}
use warhead_fix.MessageBuffer.Contents.{active, normalize-active, write-active}

abbrev part_read : MessageBuffer
part_read = record { wpos = 3; rpos = 1; storage = 7 ∷ 8 ∷ 9 ∷ 0 ∷ [] }

part_read-IsValid : IsValid part_read
part_read-IsValid = omega arith

normalize-active_example :
    (b' : MessageBuffer) × (normalize part_read ≡ some b')
    × (active b' ≡ 8 ∷ 9 ∷ [])
    × (b'.rpos ≡ 0)
    × (length b'.storage ≡ 4)
    × IsValid b'
normalize-active_example = normalize-active part_read part_read-IsValid

one_free : 1 ≤ remaining_space part_read
unfolding remaining_space
one_free = omega arith

write-active_run :
    (b' : MessageBuffer) × (write part_read (5 ∷ []) ≡ some b')
    × (active b' ≡ 8 ∷ 9 ∷ 5 ∷ [])
    × (b'.rpos ≡ 1)
    × (length b'.storage ≡ 4)
    × IsValid b'
write-active_run = write-active part_read (5 ∷ []) part_read-IsValid one_free
