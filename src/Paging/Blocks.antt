-- ===== src/Paging/Blocks.antt =====
-- The descriptors and blocks of the heap.
use tie_zhu_os.Base.{
  ℕ, zero, suc, ◌+◌, ◌*◌, ◌%◌, ◌^◌, ◌≤◌, ◌<◌, ◌≡◌, inl, inr, refl, ap, sym, subst, true, [], leb,
  arith, Bool-cases,
}
use native.Mathlib.Nat.{mul-le-mul_right}
use tie_zhu_os.Paging.Defs.{pg_size}
use tie_zhu_os.Paging.Heap.{
  MemBlockDesc, desc_cnt, arena_size, block_desk_init, arena2block, block2arena, desc_for,
}

-- The block sizes of the seven descriptors are 16 to 1024, each twice the one before; the blocks of
-- each and the head of the arena fit a page.
pub block_desk_init_lem :
    (d : ℕ → MemBlockDesc) (i : ℕ)
    → i < desc_cnt
    → ((block_desk_init d i).block_size ≡ 16 * 2 ^ i)
      × (arena_size + (block_desk_init d i).blocks_per_arena * (block_desk_init d i).block_size
          ≤ pg_size)
      × (pg_size
          < arena_size
            + suc (block_desk_init d i).blocks_per_arena * (block_desk_init d i).block_size)
      × ((block_desk_init d i).free_list ≡ [])
unfolding block_desk_init
block_desk_init_lem d zero lt = (refl, omega arith, omega arith, refl)
block_desk_init_lem d (suc zero) lt = (refl, omega arith, omega arith, refl)
block_desk_init_lem d (suc (suc zero)) lt = (refl, omega arith, omega arith, refl)
block_desk_init_lem d (suc (suc (suc zero))) lt = (refl, omega arith, omega arith, refl)
block_desk_init_lem d (suc (suc (suc (suc zero)))) lt = (refl, omega arith, omega arith, refl)
block_desk_init_lem d (suc (suc (suc (suc (suc zero))))) lt = (refl, omega arith, omega arith, refl)
block_desk_init_lem d (suc (suc (suc (suc (suc (suc zero)))))) lt =
    (refl, omega arith, omega arith, refl)
block_desk_init_lem d (suc (suc (suc (suc (suc (suc (suc i))))))) lt = absurd (omega arith)

desc_for_loop :
    (n i size : ℕ) (d : ℕ → MemBlockDesc)
    → size ≤ (d (i + n)).block_size
    → (i ≤ desc_for (suc n) i size d)
      × (desc_for (suc n) i size d < i + suc n)
      × (size ≤ (d (desc_for (suc n) i size d)).block_size)
      × ((j : ℕ) → i ≤ j → j < desc_for (suc n) i size d → (d j).block_size < size)
unfolding desc_for
desc_for_loop zero i size d fit = rw (first i size d fit) (
  omega arith,
  omega arith,
  ground (arith, ap d {x = i + 0} {y = i}),
  λ j a b. absurd (omega arith),
)
  where
    first :
        (i size : ℕ) (d : ℕ → MemBlockDesc)
        → size ≤ (d (i + 0)).block_size
        → leb size (d i).block_size ≡ true
    first i size d fit = ground (arith, ap d {x = i + 0} {y = i})
desc_for_loop (suc n) i size d fit = elim (Bool-cases (leb size (d i).block_size)) [
  | inl first ↦ rw first (omega arith, omega arith, ground arith, λ j a b. absurd (omega arith))
  | inr later ↦
      let (a, b, c, e) =
        desc_for_loop n (i + 1) size d (subst (λ k. size ≤ (d k).block_size) (omega arith) fit) in
      rw later (omega arith, omega arith, c, λ j x y. ground (arith, e j, ap d {x = i} {y = j}))
]

-- `sys_malloc` picks the smallest block size that holds the request.
pub desc_for_lem :
    (d : ℕ → MemBlockDesc) (size : ℕ)
    → size ≤ 1024
    → (desc_for desc_cnt 0 size (block_desk_init d) < desc_cnt)
      × (size ≤ (block_desk_init d (desc_for desc_cnt 0 size (block_desk_init d))).block_size)
      × ((j : ℕ)
          → j < desc_for desc_cnt 0 size (block_desk_init d)
          → (block_desk_init d j).block_size < size)
desc_for_lem d size le =
    let (_, b, c, e) =
      desc_for_loop 6 0 size (block_desk_init d) (ground (arith, block_desk_init_lem d 6)) in
    (b, c, λ j. e j (omega arith))

one_more : (i n : ℕ) → i < n → i + 1 ≤ n
one_more i n h = omega arith

-- Blocks of `size` bytes behind the head of an arena that fit its page.
blocks_fit :
    (a i size n : ℕ)
    → a % pg_size ≡ 0
    → 0 < size
    → arena_size + n * size ≤ pg_size
    → i < n
    → (block2arena (arena2block a i size) ≡ a)
      × (a + arena_size ≤ arena2block a i size)
      × (arena2block a i size + size ≤ a + pg_size)
      × ((j : ℕ) → i < j → arena2block a i size + size ≤ arena2block a j size)
blocks_fit a i size n aligned some_size fit lt = (
  ground (arith, mul-le-mul_right size (one_more i n lt)),
  omega arith,
  ground (arith, mul-le-mul_right size (one_more i n lt)),
  λ j more. ground (arith, mul-le-mul_right size (one_more i j more)),
)

some_power : (i : ℕ) → 0 < 16 * 2 ^ i
some_power zero = omega arith
some_power (suc i) = ground (arith, some_power i)

-- In an arena at the start of a page, for any of the descriptors that `block_desk_init` makes, each of the
-- `blocks_per_arena` blocks lies behind the head of the arena and within its page, whose start `block2arena` finds;
-- blocks of different indexes do not overlap.
pub arena2block_lem :
    (d : ℕ → MemBlockDesc) (k a i : ℕ)
    → k < desc_cnt
    → a % pg_size ≡ 0
    → i < (block_desk_init d k).blocks_per_arena
    → let size = (block_desk_init d k).block_size in
      (block2arena (arena2block a i size) ≡ a)
      × (a + arena_size ≤ arena2block a i size)
      × (arena2block a i size + size ≤ a + pg_size)
      × ((j : ℕ) → i < j → arena2block a i size + size ≤ arena2block a j size)
arena2block_lem d k a i known aligned lt =
    let (sizes, fit, _, _) = block_desk_init_lem d k known in
    blocks_fit a i (block_desk_init d k).block_size (block_desk_init d k).blocks_per_arena aligned
      (subst (λ n. 0 < n) (sym sizes) (some_power k)) fit lt
