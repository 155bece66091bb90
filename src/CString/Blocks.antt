-- ===== src/CString/Blocks.antt =====
-- `memset`, `memcpy` and `memcmp` byte by byte.
use tie_zhu_os.Base.{
  ℕ, zero, suc, ◌+◌, ◌-◌, ◌≤◌, ◌≡◌, ◌≢◌, ◌⊎◌, refl, ap, ltb, Bool, false, not, ◌&&◌, some, update,
  ◌==◌, if◌then◌else◌, arith, Memory, pos, minus_one,
}
use tie_zhu_os.LinkedList.{Addr, null}
use tie_zhu_os.CString.{memset_loop, memset, memcpy_loop, memcpy, memcmp_loop, memcmp}

-- Whether `x` is one of the `n` addresses from `a` on.
abbrev pub within : Addr → ℕ → Addr → Bool
within a n x = not (ltb x a) && ltb x (a + n)

memset_loop_lem :
    (n : ℕ) (a v : ℕ) (m : Memory) (x : Addr)
    → memset_loop n a v m x ≡ (if within a n x then v else m x)
memset_loop_lem zero a v m x = ground arith
memset_loop_lem (suc n) a v m x = ground (arith, memset_loop_lem n (a + 1) v (update m a v) x)

real_ptr : (a : Addr) → a ≢ null → (a == null) ≡ false
real_ptr a h = ground arith

-- `memset` to a pointer that is not `NULL` sets the bytes of its range and no other.
pub memset_lem :
    (dst value size : ℕ) (m : Memory)
    → dst ≢ null
    → (m1 : Memory) × (memset dst value size m ≡ some m1)
      × ((x : Addr) → m1 x ≡ (if within dst size x then value else m x))
unfolding memset
memset_lem dst value zero m real = (m, refl, memset_loop_lem 0 dst value m)
memset_lem dst value (suc size) m real = (
  memset_loop (suc size) dst value m,
  rw (some_bytes, real_ptr dst real) refl,
  memset_loop_lem (suc size) dst value m,
)
  where
    some_bytes : (suc size == 0) ≡ false
    some_bytes = ground arith

-- No byte of the destination is read behind its write.
memcpy_loop_lem :
    (n a b : ℕ) (m : Memory) (x : Addr)
    → ((a ≤ b) ⊎ (b + n ≤ a))
    → memcpy_loop n a b m x ≡ (if within a n x then m (b + (x - a)) else m x)
memcpy_loop_lem zero a b m x apart = ground arith
memcpy_loop_lem (suc n) a b m x apart =
    ground (arith, memcpy_loop_lem n (a + 1) (b + 1) (update m a (m b)) x (ground arith), same)
  where
    same : a + 1 ≤ x → b + 1 + (x - (a + 1)) ≡ b + (x - a)
    same h = omega arith

-- Where the destination begins before the source or behind its end, `memcpy` copies the bytes of the
-- source and changes no other.
pub memcpy_lem :
    (dst src size : ℕ) (m : Memory)
    → dst ≢ null
    → src ≢ null
    → ((dst ≤ src) ⊎ (src + size ≤ dst))
    → (m1 : Memory) × (memcpy dst src size m ≡ some m1)
      × ((x : Addr) → m1 x ≡ (if within dst size x then m (src + (x - dst)) else m x))
unfolding memcpy
memcpy_lem dst src zero m rd rs apart = (m, refl, λ x. memcpy_loop_lem 0 dst src m x apart)
memcpy_lem dst src (suc size) m rd rs apart = (
  memcpy_loop (suc size) dst src m,
  rw (some_bytes, real_ptr dst rd, real_ptr src rs) refl,
  λ x. memcpy_loop_lem (suc size) dst src m x apart,
)
  where
    some_bytes : (suc size == 0) ≡ false
    some_bytes = ground arith

memcmp_loop_lem :
    (n offst x y : ℕ)
    → memcmp_loop (suc n) offst x y
      ≡ (if ltb y x then pos 1 else (if ltb x y then minus_one else pos 0))
memcmp_loop_lem zero offst x y = ground arith
memcmp_loop_lem (suc n) offst x y = ground (arith, memcmp_loop_lem n (offst + 1) x y)

-- For every size but 0, `memcmp` compares the first bytes and no other.
memcmp_lem :
    (buf1 buf2 size : ℕ) (m : Memory)
    → buf1 ≢ null
    → buf2 ≢ null
    → memcmp buf1 buf2 (suc size) m
      ≡ some (
          if ltb (m buf2) (m buf1)
          then pos 1
          else (if ltb (m buf1) (m buf2) then minus_one else pos 0))
unfolding memcmp
memcmp_lem buf1 buf2 size m r1 r2 =
    rw (some_bytes, real_ptr buf1 r1, real_ptr buf2 r2)
      (ap some (memcmp_loop_lem size 0 (m buf1) (m buf2)))
  where
    some_bytes : (suc size == 0) ≡ false
    some_bytes = ground arith
