-- ===== src/IoQueue.antt =====
-- device/ioqueue.c: the queue of bytes between a producer and a consumer.
use tie_zhu_os.Base.{ℕ, ◌+◌, ◌-◌, ◌%◌, ◌<◌, Bool, if◌then◌else◌, ◌==◌, leb, update, Memory, not}
use tie_zhu_os.LinkedList.{Addr, null}
pub mod Ring
pub mod Contents

abbrev pub buffer_size : ℕ
buffer_size = 64

-- `ioqueue`; of its lock the model keeps the holder, `null` where it is free.
pub record IoQueue : Type 0 where
  pub holder : Addr
  pub producer : Addr
  pub consumer : Addr
  pub buffer : Memory
  pub head : ℕ
  pub tail : ℕ

-- The buffer keeps the bytes it has.
unfoldable pub ioqueue_init : Memory → IoQueue
ioqueue_init buffer = record {
  holder = null;
  producer = null;
  consumer = null;
  buffer = buffer;
  head = 0;
  tail = 0;
}

abbrev pub next_pos : ℕ → ℕ
next_pos pos = (pos + 1) % buffer_size

unfoldable pub ioq_full : IoQueue → Bool
ioq_full q = next_pos q.head == q.tail

unfoldable pub ioq_empty : IoQueue → Bool
ioq_empty q = q.head == q.tail

-- What a call comes to before the thread loses the processor.
pub data Round : Type 0 where
  locked_out : Round  -- waits for the lock of the queue
  waits : IoQueue → Round  -- waits in `ioq_wait`, as the holder of the lock
  done : ℕ → Addr → IoQueue → Round  -- returns a byte; unlocks a thread, or none (`null`)

-- `ioq_wakeup`, where a thread waits: the record of it is deleted.
unfoldable pub ioq_getchar : Addr → IoQueue → Round
unfolding ioq_empty
ioq_getchar t q =
    if ioq_empty q
    then (if q.holder == null then waits (record q { holder = t; consumer = t }) else locked_out)
    else done (q.buffer q.tail) q.producer (record q { tail = next_pos q.tail; producer = null })

unfoldable pub ioq_putchar : Addr → ℕ → IoQueue → Round
unfolding ioq_full
ioq_putchar t byte q =
    if ioq_full q
    then (if q.holder == null then waits (record q { holder = t; producer = t }) else locked_out)
    else done byte q.consumer
        (record q { buffer = update q.buffer q.head byte; head = next_pos q.head; consumer = null })

-- A thread that was woken releases the lock and tests again.
unfoldable pub after_wait : IoQueue → IoQueue
after_wait q = record q { holder = null }

unfoldable pub ioq_length : IoQueue → ℕ
ioq_length q = if leb q.tail q.head then q.head - q.tail else buffer_size - (q.tail - q.head)
