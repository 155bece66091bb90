-- ===== src/Paging/Mapping.antt =====
-- The page tables: where the entries of a virtual address lie, and what a mapping translates to.
use Prim.Native.Nat.{bit_and}
use tie_zhu_os.Base.{
  ℕ, ◌+◌, ◌*◌, ◌/◌, ◌%◌, ◌^◌, ◌<◌, ◌≡◌, ◌≢◌, refl, ap, Bool, true, false, not, ◌==◌, arith,
  Bool-cases, inl, inr,
}
use tie_zhu_os.Base.Masks.{mask_high, mask_low, or_seven, bit_and_zero}
use tie_zhu_os.Paging.Defs.{
  Paging, pg_size, get_pte_ptr, get_pde_ptr, entry_of, page_table_add, addr_v2p,
  page_table_pte_remove,
}

-- The masks of the 10 upper, the 10 middle and the 12 lower bits.
upper_bits : (v : ℕ) → v < 2 ^ 32 → bit_and v 0xffc00000 ≡ v / 2 ^ 22 * 2 ^ 22
upper_bits v h =
    ground (arith, mask_high 22 (v / 2 ^ 22) (v % 2 ^ 22) 1023, mask_low 10 0 (v / 2 ^ 22))

middle_bits : (v : ℕ) → bit_and v 0x003ff000 ≡ v / 2 ^ 12 % 2 ^ 10 * 2 ^ 12
middle_bits v = ground (
  arith,
  mask_high 12 (v / 2 ^ 12) (v % 2 ^ 12) 1023,
  mask_low 10 (v / 2 ^ 22) (v / 2 ^ 12 % 2 ^ 10),
)

page_bits : (v : ℕ) → v < 2 ^ 32 → bit_and v 0xfffff000 ≡ v / pg_size * pg_size
page_bits v h =
    ground (arith, mask_high 12 (v / 2 ^ 12) (v % 2 ^ 12) 1048575, mask_low 20 0 (v / 2 ^ 12))

offset_bits : (v : ℕ) → bit_and v 0x00000fff ≡ v % pg_size
offset_bits v = ground (arith, mask_low 12 (v / 2 ^ 12) (v % 2 ^ 12))

pte_ptr : (v : ℕ) → v < 2 ^ 32 → get_pte_ptr v ≡ 0xffc00000 + v / pg_size * 4
unfolding get_pte_ptr
pte_ptr v h = ground (arith, upper_bits v h, middle_bits v)

pde_ptr : (v : ℕ) → v < 2 ^ 32 → get_pde_ptr v ≡ 0xfffff000 + v / 2 ^ 22 * 4
unfolding get_pde_ptr
pde_ptr v h = ground (arith, upper_bits v h)

-- The entry of a virtual address lies at the word of its page in the last 4 MB; the entry in the page
-- directory is the entry of that entry, since the directory maps itself.
pub entry_ptrs :
    (v : ℕ)
    → v < 2 ^ 32
    → (get_pte_ptr v ≡ 0xffc00000 + v / pg_size * 4) × (get_pde_ptr v ≡ get_pte_ptr (get_pte_ptr v))
entry_ptrs v h = (pte_ptr v h, ground (arith, pte_ptr v h, pde_ptr v h, pte_ptr (get_pte_ptr v)))

-- A present entry, and its page.
abbrev pub is_present : ℕ → Bool
is_present entry = not (bit_and entry 1 == 0)

page_of_entry : (a : ℕ) → a < 2 ^ 32 → a % pg_size ≡ 0 → bit_and (entry_of a) 0xfffff000 ≡ a
page_of_entry a h aligned =
    ground (arith, or_seven (a / 8), page_bits (a + 7), ap entry_of {x = a} {y = a / 8 * 8})

translated :
    (v a : ℕ) (s : Paging)
    → a < 2 ^ 32
    → a % pg_size ≡ 0
    → s.entries (get_pte_ptr v) ≡ entry_of a
    → addr_v2p v s ≡ a + v % pg_size
unfolding addr_v2p
translated v a s h aligned e = ground (arith, e, page_of_entry a h aligned, offset_bits v)

new_entry :
    (v a : ℕ) (s : Paging)
    → is_present (s.entries (get_pte_ptr v)) ≡ false
    → (page_table_add v a s).entries (get_pte_ptr v) ≡ entry_of a
unfolding page_table_add
new_entry v a s absent = elim (Bool-cases (is_present (s.entries (get_pde_ptr v)))) [
  | inl present ↦ rw (present, absent) (ground arith)
  | inr missing ↦ rw missing (ground arith)
]

old_entries :
    (v a : ℕ) (s : Paging)
    → is_present (s.entries (get_pte_ptr v)) ≡ false
    → is_present (s.entries (get_pde_ptr v)) ≡ true
    → (p : ℕ) → p ≢ get_pte_ptr v
    → (page_table_add v a s).entries p ≡ s.entries p
unfolding page_table_add
old_entries v a s absent present p ne = rw (present, absent) (ground arith)

same_entry :
    (w : ℕ) (s1 s : Paging)
    → s1.entries (get_pte_ptr w) ≡ s.entries (get_pte_ptr w)
    → addr_v2p w s1 ≡ addr_v2p w s
unfolding addr_v2p
same_entry w s1 s e = rw e refl

-- After `page_table_add` of a page that had no entry the virtual address translates to the physical
-- page and its own offset, whether or not the directory already had a table.
pub page_table_add-addr_v2p :
    (v a : ℕ) (s : Paging)
    → a < 2 ^ 32
    → a % pg_size ≡ 0
    → is_present (s.entries (get_pte_ptr v)) ≡ false
    → addr_v2p v (page_table_add v a s) ≡ a + v % pg_size
page_table_add-addr_v2p v a s ha aligned absent =
    translated v a (page_table_add v a s) ha aligned (new_entry v a s absent)

-- Where the directory already had a table, `page_table_add` of a page that had no entry leaves the
-- translation of every address of another page.
pub page_table_add_keeps :
    (v w a : ℕ) (s : Paging)
    → v < 2 ^ 32
    → w < 2 ^ 32
    → w / pg_size ≢ v / pg_size
    → is_present (s.entries (get_pte_ptr v)) ≡ false
    → is_present (s.entries (get_pde_ptr v)) ≡ true
    → addr_v2p w (page_table_add v a s) ≡ addr_v2p w s
page_table_add_keeps v w a s hv hw other absent present =
    same_entry w _ s (
      old_entries v a s absent present (get_pte_ptr w) (ground (arith, pte_ptr v hv, pte_ptr w hw)))

-- Without its entry a page is not present.
pub pte_remove_lem :
    (v : ℕ) (s : Paging) → is_present ((page_table_pte_remove v s).entries (get_pte_ptr v)) ≡ false
unfolding page_table_pte_remove
pte_remove_lem v s = ground (arith, bit_and_zero (s.entries (get_pte_ptr v)))
