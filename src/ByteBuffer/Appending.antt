-- ===== src/ByteBuffer/Appending.antt =====
-- What `append` and `put` of ByteBuffer.cpp write, and where.
use warhead_fix.Base.{
  ℕ, ◌+◌, ◌-◌, ◌^◌, ◌≤◌, ◌<◌, ◌≡◌, refl, sym, ap, ◌∙◌, inl, inr, List, [], ◌∷◌, ◌++◌, append-nil,
  arith, ltb, if◌then◌else◌, Bool-cases, length, take, drop, replicate, length-append,
  length-replicate, take-append, take-append_le, take_all, drop_all, take-splice, drop-splice,
  take-drop-splice, drop_behind-splice, add_size, resize, splice, length-resize, length-splice,
  copy_in-some,
}
use warhead_fix.ByteBuffer.{ByteBuffer, ok, size, max_size, enlarged, append, put}

-- The buffer after `append` of at least one byte: the bytes stand at the old write position, over
-- what was there, and the storage is as long as it must be.
abbrev pub appended : ByteBuffer → List ℕ → ByteBuffer
appended b src = record b {
  wpos = b.wpos + length src;
  storage = splice (enlarged b (b.wpos + length src)) b.wpos src;
}

enlarged_fits : (b : ByteBuffer) (n : ℕ) → n ≤ length (enlarged b n)
enlarged_fits b n = ground (arith, length-resize b.storage n)

pub append_lem :
    (b : ByteBuffer) (src : List ℕ)
    → 0 < length src
    → size b < max_size
    → b.wpos + length src < 2 ^ 64
    → append src b ≡ ok tt (appended b src)
unfolding append
append_lem b [] some_bytes room no_wrap = absurd (omega arith)
append_lem b (y ∷ ys) some_bytes room no_wrap =
    let e : add_size b.wpos (length (y ∷ ys)) ≡ b.wpos + length (y ∷ ys) = omega arith in
    rw
      (
        e,
        copy_in-some (enlarged b (b.wpos + length (y ∷ ys))) b.wpos (y ∷ ys)
            (enlarged_fits b (b.wpos + length (y ∷ ys))),
      )
      (ground arith)

pub length-appended :
    (b : ByteBuffer) (src : List ℕ)
    → size (appended b src) ≡ length (enlarged b (b.wpos + length src))
length-appended b src =
    length-splice (enlarged b (b.wpos + length src)) b.wpos src
      (enlarged_fits b (b.wpos + length src))

length-enlarged :
    (b : ByteBuffer) (n : ℕ) → length (enlarged b n) ≡ (if ltb (size b) n then n else size b)
length-enlarged b n = ground (arith, length-resize b.storage n)

pub size-appended-le :
    (b : ByteBuffer) (src : List ℕ) → size (appended b src) ≤ size b + (b.wpos + length src)
size-appended-le b src =
    ground (arith, length-appended b src, length-enlarged b (b.wpos + length src))

enlarged_grow :
    (b : ByteBuffer) (n : ℕ) → size b ≤ n → enlarged b n ≡ b.storage ++ replicate (n - size b) 0
unfolding resize
enlarged_grow b n h = elim (Bool-cases (ltb (size b) n)) [
  | inl grows ↦ rw (grows, take_all b.storage n h)
  | inr stays ↦ let e : n - size b ≡ 0 = ground arith in rw (stays, e) (sym (append-nil b.storage))
]

-- At the end of the storage, where a buffer that is only written to always stands, the bytes are added.
pub appended_at_end :
    (b : ByteBuffer) (src : List ℕ) → b.wpos ≡ size b → (appended b src).storage ≡ b.storage ++ src
appended_at_end b src e = rw (
  enlarged_grow b (b.wpos + length src) (omega arith),
  take-append b.storage zeros b.wpos e,
  drop_all (b.storage ++ zeros) (b.wpos + length src) (
      omega (
        arith,
        length-append b.storage zeros,
        length-replicate {A = ℕ} (b.wpos + length src - size b) 0,
      )),
  append-nil src,
)
  where
    zeros : List ℕ
    zeros = replicate (b.wpos + length src - size b) 0

take-enlarged :
    (b : ByteBuffer) (n : ℕ) → b.wpos ≤ size b → take b.wpos (enlarged b n) ≡ take b.wpos b.storage
take-enlarged b n h = elim (Bool-cases (ltb (size b) n)) [
  | inl grows ↦ rw (enlarged_grow b n (ground arith)) (take-append_le b.storage _ b.wpos h)
  | inr stays ↦ rw stays
]

drop-enlarged : (b : ByteBuffer) (n : ℕ) → drop n (enlarged b n) ≡ drop n b.storage
drop-enlarged b n = elim (Bool-cases (ltb (size b) n)) [
  | inl grows ↦
      drop_all (enlarged b n) n (ground (arith, length-resize b.storage n))
      ∙ sym (drop_all b.storage n (ground arith))
  | inr stays ↦ rw stays
]

pub take-drop-appended :
    (b : ByteBuffer) (src : List ℕ) → take (length src) (drop b.wpos (appended b src).storage) ≡ src
take-drop-appended b src =
    take-drop-splice (enlarged b (b.wpos + length src)) b.wpos src
      (enlarged_fits b (b.wpos + length src))

pub drop-appended :
    (b : ByteBuffer) (src : List ℕ)
    → drop b.wpos (appended b src).storage ≡ src ++ drop (b.wpos + length src) b.storage
drop-appended b src =
    drop-splice (enlarged b (b.wpos + length src)) b.wpos src
      (enlarged_fits b (b.wpos + length src))
    ∙ ap (◌++◌ src) (drop-enlarged b (b.wpos + length src))

pub before-appended :
    (b : ByteBuffer) (src : List ℕ)
    → b.wpos ≤ size b
    → take b.wpos (appended b src).storage ≡ take b.wpos b.storage
before-appended b src within =
    take-splice (enlarged b (b.wpos + length src)) b.wpos src
      (enlarged_fits b (b.wpos + length src))
    ∙ take-enlarged b (b.wpos + length src) within

-- append of at least one and less than 2 ^ 62 bytes, to a buffer of less than 10000000 bytes whose
-- write position is inside, puts the bytes at the write position, moves it behind them, and changes
-- no byte before or behind and not the read position.
pub append_writes :
    (b : ByteBuffer) (src : List ℕ)
    → 0 < length src
    → b.wpos ≤ size b
    → size b < max_size
    → length src < 2 ^ 62
    → (b' : ByteBuffer) × (append src b ≡ ok tt b')
      × (take (length src) (drop b.wpos b'.storage) ≡ src)
      × (take b.wpos b'.storage ≡ take b.wpos b.storage)
      × (drop b'.wpos b'.storage ≡ drop b'.wpos b.storage)
      × (b'.wpos ≡ b.wpos + length src)
      × (b'.rpos ≡ b.rpos)
append_writes b src h within room short = (
  appended b src,
  append_lem b src h room (omega arith),
  take-drop-appended b src,
  before-appended b src within,
  drop_behind-splice cells b.wpos src fits ∙ drop-enlarged b (b.wpos + length src),
  refl,
  refl,
)
  where
    cells : List ℕ
    cells = enlarged b (b.wpos + length src)

    fits : b.wpos + length src ≤ length cells
    fits = enlarged_fits b (b.wpos + length src)

pub put_lem :
    (b : ByteBuffer) (pos : ℕ) (src : List ℕ)
    → 0 < length src
    → pos + length src ≤ size b
    → size b < 2 ^ 64
    → put pos src b ≡ ok tt (record b { storage = splice b.storage pos src })
unfolding put
put_lem b pos [] h within small = absurd (omega arith)
put_lem b pos (y ∷ ys) h within small =
    rw (copy_in-some b.storage pos (y ∷ ys) within) (ground arith)

-- put of at least one byte inside the storage of a buffer of less than 2 ^ 64 bytes puts the bytes
-- at the position given, and changes no other byte and neither position.
pub put_writes :
    (b : ByteBuffer) (pos : ℕ) (src : List ℕ)
    → 0 < length src
    → pos + length src ≤ size b
    → size b < 2 ^ 64
    → (b' : ByteBuffer) × (put pos src b ≡ ok tt b')
      × (take (length src) (drop pos b'.storage) ≡ src)
      × (take pos b'.storage ≡ take pos b.storage)
      × (drop (pos + length src) b'.storage ≡ drop (pos + length src) b.storage)
      × (b'.wpos ≡ b.wpos)
      × (b'.rpos ≡ b.rpos)
put_writes b pos src h within small = (
  record b { storage = splice b.storage pos src },
  put_lem b pos src h within small,
  take-drop-splice b.storage pos src within,
  take-splice b.storage pos src within,
  drop_behind-splice b.storage pos src within,
  refl,
  refl,
)
