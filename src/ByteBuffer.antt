-- ===== src/ByteBuffer.antt =====
-- shared/Packets/ByteBuffer.h and ByteBuffer.cpp: the packet buffer, its exceptions, and the
-- operations on raw bytes. A method is a function of the buffer that returns a value and the buffer
-- left behind, or the exception and the buffer left behind.
-- The capacity of the vector is not part of the state: `reserve`, `shrink_to_fit` and the allocation
-- steps of `append` change nothing that can be read. Pointers are lists of the bytes they point to,
-- so the tests for a null pointer have no counterpart.
pub mod Numbers
pub mod Strings
pub mod Guid
pub mod PackedTime
pub mod Appending
pub mod Reading
mod Tests
use warhead_fix.Base.{
  ℕ, zero, suc, ◌+◌, ◌-◌, ◌*◌, ◌/◌, ◌%◌, ◌^◌, ◌≤◌, ◌<◌, min, ◌≡◌, refl, sym, ap, ap₂, subst, ◌∙◌,
  ◌≢◌, ◌↔◌, ◌⊎◌, inl, inr, Bool, true, false, not, ◌&&◌, ◌||◌, Option, none, some, List, [], ◌∷◌,
  ◌++◌, append-nil, append_assoc, arith, ltb, leb, ◌==◌, if◌then◌else◌, ltb→lt, lt→ltb, le→not-ltb,
  leb→le, le→leb, lt→not-leb, ==_iff, Bool-cases, Option-cases, length, take, drop, replicate,
  length-append, length-take, length-drop, length-replicate, take-append-drop, take-append,
  drop-append, take-append_le, drop-append_le, take_all, take-take, drop-drop, drop-take, size_mod,
  add_size, sub_size, resize, copy_out, splice, copy_in, length-resize, length-splice,
  copy_out-some, copy_in-some,
}
use warhead_fix.MessageBuffer
use warhead_fix.MessageBuffer.{MessageBuffer}

pub record ByteBuffer : Type 0 where
  pub rpos : ℕ
  pub wpos : ℕ
  pub storage : List ℕ

-- What a value was read as, in the text of an exception.
pub data Kind : Type 0 where
  float_kind double_kind string_kind : Kind

-- The exceptions, with the arguments of their constructors. The last three are no exceptions:
-- a failed `ASSERT` ends the process, `undefined` is an access outside the storage, and `endless`
-- a loop that has not ended within the rounds that the model grants it.
pub data Error : Type 0 where
  position : (add : Bool) (pos size value_size : ℕ) → Error
  invalid_value : (type : Kind) (value : List ℕ) → Error
  no_storage : Error
  assertion : Error
  undefined : Error
  endless : Error

pub data Outcome {ℓ} (A : Type ℓ) : Type ℓ where
  ok : A → ByteBuffer → Outcome A
  err : Error → ByteBuffer → Outcome A

abbrev pub Method {ℓ} : Type ℓ → Type ℓ
Method A = ByteBuffer → Outcome A

infixl 5 ◌>>=◌ ◌>>◌
abbrev pub ◌>>=◌ {ℓ κ} : {A : Type ℓ} {B : Type κ} → Method A → (A → Method B) → Method B
◌>>=◌ m f b = elim (m b) [ ok a b' ↦ f a b' | err e b' ↦ err e b' ]

abbrev pub ◌>>◌ {ℓ} : {B : Type ℓ} → Method (Unit {0}) → Method B → Method B
m >> k = m >>= λ _. k

abbrev pub throw {ℓ} : {A : Type ℓ} → Error → Method A
throw e b = err e b

abbrev pub return {ℓ} : {A : Type ℓ} → A → Method A
return a b = ok a b

pub if_method {ℓ} :
    {A : Type ℓ} (test : Bool) (m n : Method A) (b : ByteBuffer)
    → (if test then m else n) b ≡ (if test then m b else n b)
if_method true m n b = refl
if_method false m n b = refl

-- The buffer itself, to look at.
abbrev pub this : Method ByteBuffer
this b = ok b b

-- The bytes that a pointer into a vector reaches, or undefined behaviour.
abbrev pub fetched : Option (List ℕ) → Method (List ℕ)
fetched none b = err undefined b
fetched (some bytes) b = ok bytes b

abbrev pub size : ByteBuffer → ℕ
size b = length b.storage

unfoldable pub is_empty : ByteBuffer → Bool
is_empty b = size b == 0

-- `ByteBuffer()` and `ByteBuffer(size_t reserve)`
unfoldable pub create : ByteBuffer
create = record { rpos = 0; wpos = 0; storage = [] }

-- `ByteBuffer(MessageBuffer&&)`: the whole storage, free space included.
unfoldable pub of_message_buffer : MessageBuffer → ByteBuffer
unfolding MessageBuffer.move
of_message_buffer m = record { rpos = 0; wpos = 0; storage = (MessageBuffer.move m).0 }

unfoldable pub clear : ByteBuffer → ByteBuffer
clear b = record { rpos = 0; wpos = 0; storage = [] }

unfoldable pub resize_to : ByteBuffer → ℕ → ByteBuffer
resize_to b new_size =
    let storage = resize b.storage new_size in
    record { rpos = 0; wpos = length storage; storage = storage }

unfoldable pub set_rpos : ByteBuffer → ℕ → ByteBuffer
set_rpos b pos = record b { rpos = pos }

unfoldable pub rfinish : ByteBuffer → ByteBuffer
rfinish b = record b { rpos = b.wpos }

unfoldable pub set_wpos : ByteBuffer → ℕ → ByteBuffer
set_wpos b pos = record b { wpos = pos }

-- `contents()`: the pointer to the first byte, as all the bytes.
unfoldable pub contents : Method (List ℕ)
unfolding is_empty
contents b = if is_empty b then err no_storage b else ok b.storage b

-- `operator[]`
unfoldable pub at : ℕ → Method (List ℕ)
at pos b =
    if leb (size b) pos
    then err (position false pos 1 (size b)) b
    else fetched (copy_out b.storage pos 1) b

unfoldable pub read_skip : ℕ → Method (Unit {0})
read_skip skip b =
    if ltb (size b) (add_size b.rpos skip)
    then err (position false b.rpos skip (size b)) b
    else ok tt (record b { rpos = add_size b.rpos skip })

-- `read(uint8* dest, size_t len)`
unfoldable pub read_bytes : ℕ → Method (List ℕ)
read_bytes len b =
    if ltb (size b) (add_size b.rpos len)
    then err (position false b.rpos len (size b)) b
    else (do
      bytes ← fetched (copy_out b.storage b.rpos len)
      λ b'. ok bytes (record b' { rpos = add_size b'.rpos len }))
        b

-- The largest storage that `append` takes on.
abbrev pub max_size : ℕ
max_size = 10000000

-- The storage of `append` before its `memcpy`.
abbrev pub enlarged : ByteBuffer → ℕ → List ℕ
enlarged b new_size = if ltb (size b) new_size then resize b.storage new_size else b.storage

-- `append(uint8 const* src, size_t cnt)`: writes at the write position, over what is there.
unfoldable pub append : List ℕ → Method (Unit {0})
append src b =
    if length src == 0
    then err assertion b
    else if ltb (size b) max_size
    then (do
      storage ← fetched (copy_in (enlarged b (add_size b.wpos (length src))) b.wpos src)
      λ b'. ok tt (record b' { wpos = add_size b'.wpos (length src); storage = storage }))
        b
    else err assertion b

-- `append(ByteBuffer const& buffer)`
unfoldable pub append_buffer : ByteBuffer → Method (Unit {0})
unfolding append is_empty
append_buffer other b =
    if other.wpos == 0
    then ok tt b
    else if is_empty other
    then err no_storage b
    else (do bytes ← fetched (copy_out other.storage 0 other.wpos); append bytes) b

-- `put(size_t pos, uint8 const* src, size_t cnt)`
unfoldable pub put : ℕ → List ℕ → Method (Unit {0})
put pos src b =
    if leb (add_size pos (length src)) (size b) && not (length src == 0)
    then (do
      storage ← fetched (copy_in b.storage pos src)
      λ b'. ok tt (record b' { storage = storage }))
        b
    else err assertion b
