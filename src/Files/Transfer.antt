-- ===== src/Files/Transfer.antt =====
-- What the transfers of a pipe do to its queue.
use tie_zhu_os.Base.{
  ℕ, zero, suc, ◌+◌, ◌-◌, ◌≤◌, ◌<◌, ◌≡◌, ◌∙◌, refl, ap, sym, true, false, some, List, [], ◌∷◌, ◌++◌,
  append_assoc, append-nil, take, drop, length, take_all, length-append, length-take, arith, min, ℤ,
  pos,
}
use tie_zhu_os.LinkedList.{Addr}
use tie_zhu_os.IoQueue.{
  IoQueue, Round, locked_out, waits, done, ioq_getchar, ioq_putchar, ioq_length, buffer_size,
}
use tie_zhu_os.IoQueue.Contents.{
  IsQueue, contents, Gets, Puts, ioq_getchar-Gets, ioq_putchar-Puts, ioq_length_lem,
}
use tie_zhu_os.Files.Defs.{Files}
use tie_zhu_os.Files.Pipe.{
  Moved, moved_byte, stopped, read_loop, write_loop, smaller, pipe_of, moved_count, pipe_read,
  pipe_write, set_queue,
}

-- What was read is the front of the contents, and the rest is left.
abbrev pub Reads : ℕ → IoQueue → Moved → Type 0
Reads n q m =
    (m.finished ≡ true)
    × (m.bytes ≡ take n (contents q))
    × (contents m.queue ≡ drop n (contents q))
    × IsQueue m.queue

got_byte :
    (n : ℕ) (q : IoQueue) (t : Addr) (round : Round)
    → suc n ≤ length (contents q)
    → Gets t q round
    → ((r : IoQueue) → n ≤ length (contents r) → IsQueue r → Reads n r (read_loop n t r))
    → Reads (suc n) q (elim round [
      | locked_out ↦ stopped q
      | waits r ↦ stopped r
      | done byte w r ↦ moved_byte byte w (read_loop n t r)
    ])
got_byte n q t locked_out le (e, _) ih = absurd (ground (arith, e))
got_byte n q t (waits r) le (e, _, _, _, _) ih = absurd (ground (arith, e))
got_byte n q t (done byte w r) le (e, _, _, v) ih =
    let (f, b, c, i) = ih r (ground (arith, e)) v in rw e (f, rw b refl, c, i)

read_loop_lem :
    (n : ℕ) (t : Addr) (q : IoQueue)
    → n ≤ length (contents q)
    → IsQueue q
    → Reads n q (read_loop n t q)
unfolding read_loop
read_loop_lem zero t q le v = (refl, refl, refl, v)
read_loop_lem (suc n) t q le v =
    got_byte n q t (ioq_getchar t q) le (ioq_getchar-Gets t q v) (λ r. read_loop_lem n t r)

-- Where there is room, all bytes are appended.
abbrev pub Writes : List ℕ → IoQueue → Moved → Type 0
Writes bs q m =
    (m.finished ≡ true) × (m.bytes ≡ bs) × (contents m.queue ≡ contents q ++ bs) × IsQueue m.queue

put_next :
    (b : ℕ) (bs : List ℕ) (q : IoQueue) (t : Addr) (round : Round)
    → length (contents q) + suc (length bs) ≤ 63
    → Puts t b q round
    → ((r : IoQueue)
        → length (contents r) + length bs ≤ 63
        → IsQueue r
        → Writes bs r (write_loop bs t r))
    → Writes (b ∷ bs) q (elim round [
      | locked_out ↦ stopped q
      | waits r ↦ stopped r
      | done byte w r ↦ moved_byte byte w (write_loop bs t r)
    ])
put_next b bs q t locked_out le (e, _) ih = absurd (omega (arith, e))
put_next b bs q t (waits r) le (e, _, _, _, _) ih = absurd (omega (arith, e))
put_next b bs q t (done byte w r) le (x, e, _, _, v) ih =
    let (f, bytes, c, i) = ih r (ground (arith, e, length-append (contents q) (b ∷ []))) v in
    (f, rw (x, bytes) refl, c ∙ ap (λ l. l ++ bs) e ∙ append_assoc (contents q) (b ∷ []) bs, i)

write_loop_lem :
    (bs : List ℕ) (t : Addr) (q : IoQueue)
    → length (contents q) + length bs ≤ 63
    → IsQueue q
    → Writes bs q (write_loop bs t q)
unfolding write_loop
write_loop_lem [] t q le v = (refl, refl, sym (append-nil _), v)
write_loop_lem (b ∷ bs) t q le v =
    put_next b bs q t (ioq_putchar t b q) le (ioq_putchar-Puts t b q v) (λ r. write_loop_lem bs t r)

-- With more bytes than there is room for, the thread waits.
stuck_next :
    (b : ℕ) (bs : List ℕ) (q : IoQueue) (t : Addr) (round : Round)
    → 63 < length (contents q) + suc (length bs)
    → Puts t b q round
    → ((r : IoQueue)
        → 63 < length (contents r) + length bs
        → IsQueue r
        → (write_loop bs t r).finished ≡ false)
    → (elim round as (λ x. Moved) [
      | locked_out ↦ stopped q
      | waits r ↦ stopped r
      | done byte w r ↦ moved_byte byte w (write_loop bs t r)
    ]).finished
      ≡ false
stuck_next b bs q t locked_out lt e ih = refl
stuck_next b bs q t (waits r) lt e ih = refl
stuck_next b bs q t (done byte w r) lt (_, e, _, _, v) ih =
    ih r (ground (arith, e, length-append (contents q) (b ∷ []))) v

write_loop_stuck :
    (bs : List ℕ) (t : Addr) (q : IoQueue)
    → 63 < length (contents q) + length bs
    → IsQueue q
    → (write_loop bs t q).finished ≡ false
unfolding write_loop
write_loop_stuck [] t q lt v = absurd (ground (arith, ioq_length_lem q v))
write_loop_stuck (b ∷ bs) t q lt v =
    stuck_next b bs q t (ioq_putchar t b q) lt (ioq_putchar-Puts t b q v)
      (λ r. write_loop_stuck bs t r)

abbrev read_of : ℕ → Addr → IoQueue → Moved
read_of count t q = read_loop (smaller (ioq_length q) count) t q

abbrev write_of : List ℕ → Addr → IoQueue → Moved
write_of buf t q = write_loop (take (smaller (buffer_size - ioq_length q) (length buf)) buf) t q

pub pipe_read_lem :
    (t : Addr) (fd count a : ℕ) (s : Files)
    → pipe_of fd s ≡ some a
    → IsQueue (s.queues a)
    → (m : Moved) × (pipe_read t fd count s ≡ some (moved_count m.bytes, m, set_queue a m.queue s))
      × Reads (min count (length (contents (s.queues a)))) (s.queues a) m
unfolding pipe_read
pipe_read_lem t fd count a s e v = (
  read_of count t q,
  rw e refl,
  rw read_size (read_loop_lem (min count (length (contents q))) t q (omega arith) v),
)
  where
    q : IoQueue
    q = s.queues a

    read_size : smaller (ioq_length q) count ≡ min count (length (contents q))
    read_size = ground (arith, ioq_length_lem q v)

-- On an open descriptor of a pipe, `pipe_write` of bytes for which the queue has room, of its 63,
-- appends them all and returns their number.
pub pipe_write_lem :
    (t : Addr) (fd a : ℕ) (buf : List ℕ) (s : Files)
    → pipe_of fd s ≡ some a
    → IsQueue (s.queues a)
    → length (contents (s.queues a)) + length buf ≤ 63
    → (m : Moved) × (pipe_write t fd buf s ≡ some (pos (length buf), m, set_queue a m.queue s))
      × Writes buf (s.queues a) m
unfolding pipe_write
pipe_write_lem t fd a buf s e v room = (write_of buf t q, rw (e, all_moved) refl, moved)
  where
    q : IoQueue
    q = s.queues a

    whole : take (smaller (buffer_size - ioq_length q) (length buf)) buf ≡ buf
    whole = take_all _ buf (ground (arith, ioq_length_lem q v))

    moved : Writes buf q (write_of buf t q)
    moved = rw whole (write_loop_lem buf t q room v)

    all_moved : (write_of buf t q).bytes ≡ buf
    all_moved = moved.1

-- On an open descriptor of a pipe, `pipe_write` of more bytes than the queue has room for waits in the
-- middle of its loop, though it takes only 64 less the length: the queue holds 63 at most.
pub pipe_write_waits :
    (t : Addr) (fd a : ℕ) (buf : List ℕ) (s : Files)
    → pipe_of fd s ≡ some a
    → IsQueue (s.queues a)
    → 63 < length (contents (s.queues a)) + length buf
    → (n : ℤ) × (m : Moved) × (pipe_write t fd buf s ≡ some (n, m, set_queue a m.queue s))
      × (m.finished ≡ false)
unfolding pipe_write
pipe_write_waits t fd a buf s e v full = (
  pos (length (write_of buf t q).bytes),
  write_of buf t q,
  rw e refl,
  write_loop_stuck _ t q (ground (arith, ioq_length_lem q v, length-take size buf)) v,
)
  where
    q : IoQueue
    q = s.queues a

    size : ℕ
    size = smaller (buffer_size - ioq_length q) (length buf)
