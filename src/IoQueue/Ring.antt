-- ===== src/IoQueue/Ring.antt =====
-- The cells of a ring of 64 between two positions.
use tie_zhu_os.Base.{
  ℕ, zero, suc, ◌-◌, ◌<◌, ◌≤◌, ◌≡◌, refl, ap, if◌then◌else◌, leb, update, Memory, List, [], ◌∷◌,
  ◌++◌, arith,
}
use tie_zhu_os.IoQueue.{buffer_size, next_pos}

-- `n` cells from `p` on.
abbrev pub slice : ℕ → ℕ → Memory → List ℕ
slice zero p b = []
slice (suc n) p b = b p ∷ slice n (next_pos p) b

-- The number of steps from `p` to `h`.
abbrev pub dist : ℕ → ℕ → ℕ
dist p h = if leb p h then h - p else buffer_size - (p - h)

-- A write at `h` leaves the cells before it.
pub slice-update :
    (n p h x : ℕ) (b : Memory)
    → p < buffer_size
    → h < buffer_size
    → n ≤ dist p h
    → slice n p (update b h x) ≡ slice n p b
slice-update zero p h x b i j le = refl
slice-update (suc n) p h x b i j le =
    ground (arith, slice-update n (next_pos p) h x b (omega arith) j (ground arith))

-- The cell at `h` follows those before it.
pub slice-snoc :
    (n p h : ℕ) (b : Memory)
    → p < buffer_size
    → h < buffer_size
    → dist p h ≡ n
    → slice (suc n) p b ≡ slice n p b ++ b h ∷ []
slice-snoc zero p h b i j e = ground arith
slice-snoc (suc n) p h b i j e =
    ap (λ c. b p ∷ c) (slice-snoc n (next_pos p) h b (omega arith) j (ground arith))
