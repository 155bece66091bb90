-- ===== src/Fs/Dirs/Entries.antt =====
-- Entries in the sectors of a directory: what a write of one changes.
use tie_zhu_os.Base.{
  ℕ, zero, suc, ◌+◌, ◌-◌, ◌*◌, ◌^◌, ◌<◌, ◌≤◌, ◌≡◌, ◌≢◌, refl, ap, sym, true, none, some, List, [],
  ◌∷◌, length, get_or, ◌==◌, Memory, arith, All, subst, Bool-cases, inl, inr,
}
use tie_zhu_os.Fs.Inodes.{load_word}
use tie_zhu_os.Fs.Stored.{bytes_load}
use tie_zhu_os.Fs.Dirs.{
  DirEntry, entry_bytes, name_at, i_no_at, f_type_at, put_entry, search_sector, free_place,
}

-- An entry that a directory can hold: a name of 1 to 15 bytes, none of them 0.
pub record IsEntry (e : DirEntry) : Type 0 where
  pub named : 0 < length e.filename
  pub short : length e.filename < 16
  pub nonzero : All (λ c. c ≢ 0) e.filename
  pub number : e.i_no < 2 ^ 32
  pub typed : 0 < e.f_type
  pub type_word : e.f_type < 2 ^ 32

pub name_at_agree :
    (a : ℕ) (cs : List ℕ) (m m' : Memory)
    → ((j : ℕ) → j ≤ length cs → m (a + j) ≡ m' (a + j))
    → name_at m a cs ≡ name_at m' a cs
unfolding name_at
name_at_agree a [] m m' same = ground (arith, same 0)
name_at_agree a (c ∷ cs) m m' same =
    ground (arith, same 0, name_at_agree (a + 1) cs m m' (λ j le. ground (arith, same (j + 1))))

name_at_here :
    (a : ℕ) (cs : List ℕ) (m : Memory)
    → All (λ c. c ≢ 0) cs
    → ((j : ℕ) → j ≤ length cs → m (a + j) ≡ get_or cs j 0)
    → name_at m a cs ≡ true
unfolding name_at
name_at_here a [] m all same = ground (arith, same 0)
name_at_here a (c ∷ cs) m (h, all) same =
    ground (arith, same 0, name_at_here (a + 1) cs m all (λ j le. ground (arith, same (j + 1))))

module _ (e : DirEntry) (k : ℕ) (buf : Memory) (v : IsEntry e) where
  put_at : (a j : ℕ) → j < 24 → a ≡ k * 24 + j → put_entry e k buf a ≡ entry_bytes e j
  put_at a j h eq = ground (arith, ap (entry_bytes e) {x = a - k * 24} {y = j})

  name_at-put : name_at (put_entry e k buf) (k * 24) e.filename ≡ true
  name_at-put =
      name_at_here (k * 24) e.filename (put_entry e k buf) v.nonzero
        (λ j le. ground (arith, v.short, put_at (k * 24 + j) j))

  i_no_at-put : i_no_at (put_entry e k buf) k ≡ e.i_no
  i_no_at-put = omega (
    arith,
    put_at (k * 24 + 16) 16,
    put_at (k * 24 + 16 + 1) 17,
    put_at (k * 24 + 16 + 2) 18,
    put_at (k * 24 + 16 + 3) 19,
    bytes_load e.i_no v.number,
  )

  f_type_at-put : f_type_at (put_entry e k buf) k ≡ e.f_type
  f_type_at-put = omega (
    arith,
    put_at (k * 24 + 20) 20,
    put_at (k * 24 + 20 + 1) 21,
    put_at (k * 24 + 20 + 2) 22,
    put_at (k * 24 + 20 + 3) 23,
    bytes_load e.f_type v.type_word,
  )

  -- Other places stay as they are.
  put_elsewhere : (i j : ℕ) → i ≢ k → j < 24 → put_entry e k buf (i * 24 + j) ≡ buf (i * 24 + j)
  put_elsewhere i j ne h = ground (arith, ne)

free_place-le :
    (n i k : ℕ) (buf : Memory)
    → free_place n i buf ≡ some k
    → (i ≤ k) × (k < i + n) × (f_type_at buf k ≡ 0)
unfolding free_place
free_place-le zero i k buf h = absurd (cc)
free_place-le (suc n) i k buf h = elim (Bool-cases (f_type_at buf i == 0)) [
  | inl empty ↦ ground (arith, empty)
  | inr used ↦ ground (arith, used, free_place-le n (i + 1) k buf)
]

name_at-put_elsewhere :
    (e : DirEntry) (i k : ℕ) (buf : Memory)
    → IsEntry e
    → i ≢ k
    → name_at (put_entry e k buf) (i * 24) e.filename ≡ name_at buf (i * 24) e.filename
name_at-put_elsewhere e i k buf v ne =
    name_at_agree (i * 24) e.filename (put_entry e k buf) buf
      (λ j le. put_elsewhere e k buf v i j ne (omega (arith, v.short)))

found_here :
    (n k : ℕ) (e : DirEntry) (buf : Memory)
    → IsEntry e
    → search_sector (suc n) k e.filename (put_entry e k buf) ≡ some e
unfolding search_sector
found_here n k e buf v = rw (name_at-put e k buf v, i_no_at-put e k buf v, f_type_at-put e k buf v)

-- An entry put at the first free place is found by its name, where no entry had that name.
pub search_sector-put :
    (n i k : ℕ) (e : DirEntry) (buf : Memory)
    → IsEntry e
    → search_sector n i e.filename buf ≡ none
    → free_place n i buf ≡ some k
    → search_sector n i e.filename (put_entry e k buf) ≡ some e
unfolding search_sector free_place
search_sector-put zero i k e buf v unseen room = absurd (cc)
search_sector-put (suc n) i k e buf v unseen room = elim (Bool-cases (f_type_at buf i == 0)) [
  | inl empty ↦
      let here : i ≡ k = ground (arith, empty) in
      subst (λ j. search_sector (suc n) j e.filename (put_entry e k buf) ≡ some e) (sym here)
        (found_here n k e buf v)
  | inr used ↦
      let room' : free_place n (i + 1) buf ≡ some k = ground (arith, used) in
      let (le, _, _) = free_place-le n (i + 1) k buf room' in
      let same = name_at-put_elsewhere e i k buf v (omega arith) in
      ground (arith, same, search_sector-put n (i + 1) k e buf v)
]

-- A search depends on the bytes of its entries only.
pub search_sector_agree :
    (n k : ℕ) (name : List ℕ) (m m' : Memory)
    → length name < 16
    → ((a : ℕ) → a < (k + n) * 24 → m a ≡ m' a)
    → search_sector n k name m ≡ search_sector n k name m'
unfolding search_sector
search_sector_agree zero k name m m' short same = refl
search_sector_agree (suc n) k name m m' short same = ground (
  arith,
  name_at_agree (k * 24) name m m' (λ j le. same (k * 24 + j) (omega (arith, short))),
  word 16 (omega arith),
  word 20 (omega arith),
  search_sector_agree n (k + 1) name m m' short (λ a lt. same a (omega arith)),
)
  where
    word : (j : ℕ) → j ≤ 20 → load_word m (k * 24 + j) ≡ load_word m' (k * 24 + j)
    word j le = omega (
      arith,
      same (k * 24 + j) (omega arith),
      same (k * 24 + j + 1) (omega arith),
      same (k * 24 + j + 2) (omega arith),
      same (k * 24 + j + 3) (omega arith),
    )
