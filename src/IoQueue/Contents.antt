-- ===== src/IoQueue/Contents.antt =====
-- The queue as a list of bytes.
use tie_zhu_os.Base.{
  ℕ, zero, suc, ◌<◌, ◌≡◌, ◌≢◌, refl, ap, ◌==◌, update, Memory, List, [], ◌∷◌, ◌++◌, arith, length,
  Bool-cases, inl, inr, false,
}
use tie_zhu_os.LinkedList.{Addr, null}
use tie_zhu_os.IoQueue.{
  IoQueue, Round, locked_out, waits, done, buffer_size, next_pos, ioq_full, ioq_empty, ioq_getchar,
  ioq_putchar, ioq_length,
}
use tie_zhu_os.IoQueue.Ring.{slice, dist, slice-update, slice-snoc}

pub record IsQueue (q : IoQueue) : Type 0 where
  pub head_in : q.head < buffer_size
  pub tail_in : q.tail < buffer_size

-- The bytes that the queue holds, the oldest first.
abbrev pub contents : IoQueue → List ℕ
contents q = slice (dist q.tail q.head) q.tail q.buffer

length-slice : (n p : ℕ) (b : Memory) → length (slice n p b) ≡ n
length-slice zero p b = refl
length-slice (suc n) p b = ap suc (length-slice n (next_pos p) b)

-- `ioq_length` is the number of bytes that the queue holds, at most 63; `ioq_empty` tells whether
-- there are none, and `ioq_full` whether there are 63.
pub ioq_length_lem :
    (q : IoQueue)
    → IsQueue q
    → (ioq_length q ≡ length (contents q))
      × (length (contents q) < buffer_size)
      × (ioq_empty q ≡ (length (contents q) == 0))
      × (ioq_full q ≡ (length (contents q) == 63))
unfolding ioq_length ioq_empty ioq_full
ioq_length_lem q v = (
  ground (arith, e, v.head_in, v.tail_in),
  ground (arith, e, v.head_in, v.tail_in),
  ground (arith, e, v.head_in, v.tail_in),
  ground (arith, e, v.head_in, v.tail_in),
)
  where
    e : length (contents q) ≡ dist q.tail q.head
    e = length-slice (dist q.tail q.head) q.tail q.buffer

-- What a round of `ioq_getchar` by thread `t` does: it gives the oldest byte, removes it and wakes
-- the producer that waits; without a byte it waits and leaves the contents.
abbrev pub Gets : Addr → IoQueue → Round → Type 0
Gets t q locked_out = (contents q ≡ []) × (q.holder == null ≡ false)
Gets t q (waits r) =
    (contents q ≡ []) × (contents r ≡ []) × (r.consumer ≡ t) × (r.holder ≡ t) × IsQueue r
Gets t q (done byte woken r) =
    (contents q ≡ byte ∷ contents r) × (woken ≡ q.producer) × (r.producer ≡ null) × IsQueue r

first_byte :
    (q : IoQueue)
    → IsQueue q
    → q.head ≢ q.tail
    → contents q
      ≡ q.buffer q.tail ∷ slice (dist (next_pos q.tail) q.head) (next_pos q.tail) q.buffer
first_byte q v h = rw steps refl
  where
    steps : dist q.tail q.head ≡ suc (dist (next_pos q.tail) q.head)
    steps = ground (arith, v.head_in, v.tail_in)

-- `ioq_getchar` on a queue in bounds gives the oldest byte, removes it and wakes the producer that
-- waits; where there is no byte it changes none, and waits, or cannot take the lock.
pub ioq_getchar-Gets : (t : Addr) (q : IoQueue) → IsQueue q → Gets t q (ioq_getchar t q)
unfolding ioq_getchar ioq_empty
ioq_getchar-Gets t q v = elim (Bool-cases (q.head == q.tail)) [
  | inl empty ↦ elim (Bool-cases (q.holder == null)) [
    | inl unheld ↦
        rw (empty, unheld)
          (
            ground arith,
            ground arith,
            refl,
            refl,
            record { head_in = v.head_in; tail_in = v.tail_in },
          )
    | inr held ↦ rw (empty, held) (ground arith, held)
  ]
  | inr some_byte ↦ rw some_byte (
    first_byte q v (ground arith),
    refl,
    refl,
    record { head_in = v.head_in; tail_in = omega arith },
  )
]

abbrev pub Puts : Addr → ℕ → IoQueue → Round → Type 0
Puts t byte q locked_out = (length (contents q) ≡ 63) × (q.holder == null ≡ false)
Puts t byte q (waits r) =
    (length (contents q) ≡ 63)
    × (contents r ≡ contents q)
    × (r.producer ≡ t)
    × (r.holder ≡ t)
    × IsQueue r
Puts t byte q (done x woken r) =
    (x ≡ byte)
    × (contents r ≡ contents q ++ byte ∷ [])
    × (woken ≡ q.consumer)
    × (r.consumer ≡ null)
    × IsQueue r

length_full : (q : IoQueue) → IsQueue q → next_pos q.head ≡ q.tail → length (contents q) ≡ 63
length_full q v full =
    ground (arith, length-slice (dist q.tail q.head) q.tail q.buffer, v.head_in, v.tail_in)

put_byte :
    (q : IoQueue) (byte : ℕ)
    → IsQueue q
    → next_pos q.head ≢ q.tail
    → slice (dist q.tail (next_pos q.head)) q.tail (update q.buffer q.head byte)
      ≡ contents q ++ byte ∷ []
put_byte q byte v room = rw steps (grind (arith, snoc, old))
  where
    steps : dist q.tail (next_pos q.head) ≡ suc (dist q.tail q.head)
    steps = ground (arith, v.head_in, v.tail_in)

    snoc :
        slice (suc (dist q.tail q.head)) q.tail (update q.buffer q.head byte)
        ≡ slice (dist q.tail q.head) q.tail (update q.buffer q.head byte)
          ++ update q.buffer q.head byte q.head ∷ []
    snoc = slice-snoc (dist q.tail q.head) q.tail q.head _ v.tail_in v.head_in refl

    old : slice (dist q.tail q.head) q.tail (update q.buffer q.head byte) ≡ contents q
    old = slice-update _ q.tail q.head byte q.buffer v.tail_in v.head_in (omega arith)

-- `ioq_putchar` on a queue in bounds puts the byte behind the others and wakes the consumer that
-- waits; where the queue holds 63 bytes it changes none, and waits, or cannot take the lock.
pub ioq_putchar-Puts :
    (t : Addr) (byte : ℕ) (q : IoQueue) → IsQueue q → Puts t byte q (ioq_putchar t byte q)
unfolding ioq_putchar ioq_full
ioq_putchar-Puts t byte q v = elim (Bool-cases (next_pos q.head == q.tail)) [
  | inl full ↦ elim (Bool-cases (q.holder == null)) [
    | inl unheld ↦
        rw (full, unheld)
          (
            length_full q v (ground arith),
            refl,
            refl,
            refl,
            record { head_in = v.head_in; tail_in = v.tail_in },
          )
    | inr held ↦ rw (full, held) (length_full q v (ground arith), held)
  ]
  | inr room ↦ rw room (
    refl,
    put_byte q byte v (ground arith),
    refl,
    refl,
    record { head_in = omega arith; tail_in = v.tail_in },
  )
]
