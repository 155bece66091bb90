-- ===== src/Fs/Views.antt =====
-- What the file system shows of an inode by its number, in memory where it is open and else on the disk; and
-- that opening and closing inodes does not change it.
use tie_zhu_os.Base.{
  ℕ, ◌+◌, ◌%◌, ◌^◌, ◌<◌, ◌≡◌, ◌≢◌, refl, ap, sym, ◌∙◌, true, false, Option, none, some, List, [],
  ◌∷◌, ◌==◌, >>=-some, >>=-eq-some, some_injective, subst, arith, update, update_self, update_ne,
  Bool-cases, Option-cases, inl, inr,
}
use tie_zhu_os.LinkedList.{Addr}
use tie_zhu_os.LinkedList.Chain.{has}
use tie_zhu_os.Thread.Defs.{without}
use tie_zhu_os.Files.Defs.{Inode, Files, set_inode, dec_32, inode_close}
use tie_zhu_os.Fs.Disk.{Disk}
use tie_zhu_os.Fs.Inodes.{inode_locate, inode_read, find_open, inode_open}
use tie_zhu_os.Fs.System.{FileSystem, Allocator, set_files}

-- An inode that is open once.
abbrev pub once : Inode → Inode
once i = record i { i_open_cnts = 1 }

abbrev opened_view : Option Addr → ℕ → FileSystem → Option Inode
opened_view none n s = inode_read s.volume.inode_table_lba n s.volume.disk
opened_view (some a) n s = some (once (s.files.inodes a))

abbrev pub view : FileSystem → ℕ → Option Inode
view s n = opened_view (find_open s.files.open_inodes n s.files) n s

-- Open inodes are counted, with room for one more.
abbrev pub AreCounted : FileSystem → Type 0
AreCounted s =
    (a : Addr)
    → has a s.files.open_inodes ≡ true
    → (0 < (s.files.inodes a).i_open_cnts) × ((s.files.inodes a).i_open_cnts + 1 < 2 ^ 32)

-- The allocator gives memory that no open inode has.
abbrev pub IsFresh : Allocator → Type 0
IsFresh new = (s : FileSystem) → has (new s) s.files.open_inodes ≡ false

-- States that differ in memory outside the open inodes only.
pub record Same (s s1 : FileSystem) : Type 0 where
  pub volume : s1.volume ≡ s.volume
  pub root_dir : s1.root_dir ≡ s.root_dir
  pub open_inodes : s1.files.open_inodes ≡ s.files.open_inodes
  pub file_table : s1.files.file_table ≡ s.files.file_table
  pub fd_table : s1.files.fd_table ≡ s.files.fd_table
  pub inodes : (a : Addr) → has a s.files.open_inodes ≡ true → s1.files.inodes a ≡ s.files.inodes a

pub Same-refl : (s : FileSystem) → Same s s
Same-refl s = record {
  volume = refl;
  root_dir = refl;
  open_inodes = refl;
  file_table = refl;
  fd_table = refl;
  inodes = λ a h. refl;
}

pub Same-trans : (s s1 s2 : FileSystem) → Same s s1 → Same s1 s2 → Same s s2
Same-trans s s1 s2 m n = record {
  volume = n.volume ∙ m.volume;
  root_dir = n.root_dir ∙ m.root_dir;
  open_inodes = n.open_inodes ∙ m.open_inodes;
  file_table = n.file_table ∙ m.file_table;
  fd_table = n.fd_table ∙ m.fd_table;
  inodes = λ a h. n.inodes a (ap (has a) m.open_inodes ∙ h) ∙ m.inodes a h;
}

find_open-same :
    (xs : List Addr) (n : ℕ) (f f1 : Files)
    → ((a : Addr) → has a xs ≡ true → (f1.inodes a).i_no ≡ (f.inodes a).i_no)
    → find_open xs n f1 ≡ find_open xs n f
find_open-same [] n f f1 same = refl
find_open-same (x ∷ xs) n f f1 same =
    ground (arith, same x, find_open-same xs n f f1 (λ a h. same a (ground (arith, h))))

find_open-has :
    (xs : List Addr) (n : ℕ) (f : Files) (a : Addr) → find_open xs n f ≡ some a → has a xs ≡ true
find_open-has [] n f a e = absurd (cc)
find_open-has (x ∷ xs) n f a e = elim (Bool-cases ((f.inodes x).i_no == n)) [
  | inl here ↦ ground (arith, e, here, ap (λ b. has b (x ∷ xs)) {x = x} {y = a})
  | inr other ↦ ground (arith, find_open-has xs n f a (ground (arith, e, other)))
]

-- An inode that is read is open once.
inode_read-once :
    (table n : ℕ) (disk : Disk) (i : Inode) → inode_read table n disk ≡ some i → once i ≡ i
unfolding inode_read
inode_read-once table n disk i e =
    let (p, _, same) = >>=-eq-some (inode_locate table n) _ e in
    let inner = some_injective same in ap once (sym inner) ∙ inner

opened_view-Same :
    (o : Option Addr) (n : ℕ) (s s1 : FileSystem)
    → Same s s1
    → ((a : Addr) → o ≡ some a → has a s.files.open_inodes ≡ true)
    → opened_view o n s1 ≡ opened_view o n s
opened_view-Same none n s s1 m opens = ap (λ v. inode_read v.inode_table_lba n v.disk) m.volume
opened_view-Same (some a) n s s1 m opens = ap (λ i. some (once i)) (m.inodes a (opens a refl))

find_open-Same :
    (s s1 : FileSystem) (n : ℕ)
    → Same s s1
    → find_open s1.files.open_inodes n s1.files ≡ find_open s.files.open_inodes n s.files
find_open-Same s s1 n m =
    ap (λ xs. find_open xs n s1.files) m.open_inodes
    ∙ find_open-same s.files.open_inodes n s.files s1.files
        (λ a h. ap {A = Inode} {B = ℕ} (λ i. i.i_no) (m.inodes a h))

-- A state that differs from another outside its open inodes shows the same.
pub Same-view : (s s1 : FileSystem) (n : ℕ) → Same s s1 → view s1 n ≡ view s n
Same-view s s1 n m =
    ap (λ o. opened_view o n s1) (find_open-Same s s1 n m)
    ∙ opened_view-Same _ n s s1 m (λ a. find_open-has s.files.open_inodes n s.files a)

pub Same-AreCounted : (s s1 : FileSystem) → Same s s1 → AreCounted s → AreCounted s1
Same-AreCounted s s1 m counted a h =
    let at : has a s.files.open_inodes ≡ true = ap (has a) (sym m.open_inodes) ∙ h in
    rw (m.inodes a at) (counted a at)

-- An inode is open by `a` in `f`, and closing it restores the state.
pub record Opened (s : FileSystem) (i : Inode) (a : Addr) (f : Files) : Type 0 where
  pub closes : Same s (set_files (inode_close a f) s)
  pub shows : once (f.inodes a) ≡ i

inode_close_keeps :
    (a : Addr) (f : Files)
    → dec_32 (f.inodes a).i_open_cnts ≢ 0
    → inode_close a f
      ≡ set_inode a (record (f.inodes a) { i_open_cnts = dec_32 (f.inodes a).i_open_cnts }) f
unfolding inode_close
inode_close_keeps a f more =
    let test : (dec_32 (f.inodes a).i_open_cnts == 0) ≡ false = ground (arith, more) in rw test refl

inode_close_frees :
    (a : Addr) (f : Files)
    → dec_32 (f.inodes a).i_open_cnts ≡ 0
    → inode_close a f
      ≡ record (set_inode a
          (record (f.inodes a) { i_open_cnts = dec_32 (f.inodes a).i_open_cnts })
          f) { open_inodes = without a f.open_inodes; freed = a ∷ f.freed }
unfolding inode_close
inode_close_frees a f last =
    let test : (dec_32 (f.inodes a).i_open_cnts == 0) ≡ true = ground (arith, last) in rw test refl

more_then_less : (c : ℕ) → c + 1 < 2 ^ 32 → dec_32 ((c + 1) % 2 ^ 32) ≡ c
more_then_less c h = ground (arith, h)

abbrev one_more : Inode → Inode
one_more i = record i { i_open_cnts = (i.i_open_cnts + 1) % 2 ^ 32 }

-- The two ways in which an inode is opened.
module _ (new : Allocator) (fresh : IsFresh new) (n : ℕ) (i : Inode) (s : FileSystem)
    (counted : AreCounted s) where
  abbrev with_more : Addr → Files
  with_more a = set_inode a (one_more (s.files.inodes a)) s.files

  less_again :
      (a b : Addr)
      → (s.files.inodes a).i_open_cnts + 1 < 2 ^ 32
      → update
          (with_more a).inodes
          a
          (record ((with_more a).inodes a) {
            i_open_cnts = dec_32 ((with_more a).inodes a).i_open_cnts;
          })
          b
        ≡ s.files.inodes b
  less_again a b high = elim (Bool-cases (a == b)) [
    | inl same ↦
        let eq : a ≡ b = ground (arith, same) in
        ap (update (with_more a).inodes a _) (sym eq)
        ∙ update_self (with_more a).inodes a _
        ∙ ap (λ (j : Inode). record j { i_open_cnts = dec_32 j.i_open_cnts })
            (update_self s.files.inodes a (one_more (s.files.inodes a)))
        ∙ ap (λ c. record (s.files.inodes a) { i_open_cnts = c })
            (more_then_less (s.files.inodes a).i_open_cnts high)
        ∙ ap s.files.inodes eq
    | inr other ↦
        let apart : a ≢ b = ground (arith, other) in
        update_ne (with_more a).inodes a b _ apart ∙ update_ne s.files.inodes a b _ apart
  ]

  -- The inode is open already.
  open_more :
      (a : Addr)
      → has a s.files.open_inodes ≡ true
      → once (s.files.inodes a) ≡ i
      → Opened s i a (with_more a)
  open_more a h e =
      let (low, high) = counted a h in
      let here = update_self s.files.inodes a (one_more (s.files.inodes a)) in
      let count =
        ap {A = Inode} {B = ℕ} (λ j. dec_32 j.i_open_cnts) here
        ∙ more_then_less (s.files.inodes a).i_open_cnts high in
      record {
        closes =
            subst (λ f. Same s (set_files f s))
              (sym (inode_close_keeps a (with_more a) (ground (arith, count, low))))
              (record {
                volume = refl;
                root_dir = refl;
                open_inodes = refl;
                file_table = refl;
                fd_table = refl;
                inodes = λ b hb. less_again a b high;
              });
        shows = ap once here ∙ e;
      }

  abbrev with_new : Files
  with_new = record (set_inode (new s) i s.files) { open_inodes = new s ∷ s.files.open_inodes }

  -- The inode is read, into memory that is freed when it is closed.
  open_new :
      inode_read s.volume.inode_table_lba n s.volume.disk ≡ some i → Opened s i (new s) with_new
  open_new e =
      let here = update_self s.files.inodes (new s) i in
      let single = inode_read-once s.volume.inode_table_lba n s.volume.disk i e in
      let count : dec_32 (with_new.inodes (new s)).i_open_cnts ≡ 0 =
        ap {A = Inode} {B = ℕ} (λ j. dec_32 j.i_open_cnts) (here ∙ sym single) in
      record {
        closes =
            subst (λ f. Same s (set_files f s)) (sym (inode_close_frees (new s) with_new count))
              (record {
                volume = refl;
                root_dir = refl;
                open_inodes = ground arith;
                file_table = refl;
                fd_table = refl;
                inodes = λ b hb.
                    let apart : new s ≢ b = λ eq.
                      absurd
                        (ground (arith, fresh s, hb, ap (λ c. has c s.files.open_inodes) eq)) in
                    update_ne with_new.inodes (new s) b _ apart
                    ∙ update_ne s.files.inodes (new s) b i apart;
              });
        shows = ap once here ∙ single;
      }

  -- An inode that is shown can be opened.
  pub inode_open-Opened :
      view s n ≡ some i
      → (a : Addr) × (f : Files) × (inode_open s.volume.inode_table_lba
            (new s)
            n
            s.volume.disk
            s.files
          ≡ some (a, f))
        × Opened s i a f
  unfolding inode_open
  inode_open-Opened shown = elim (Option-cases (find_open s.files.open_inodes n s.files)) [
    | inl closed ↦
        let read : inode_read s.volume.inode_table_lba n s.volume.disk ≡ some i =
          ap (λ o. opened_view o n s) (sym closed) ∙ shown in
        (new s, with_new, rw closed (>>=-some _ read refl), open_new read)
    | inr (a, found) ↦
        let seen = ap (λ o. opened_view o n s) (sym found) ∙ shown in
        (
          a,
          with_more a,
          rw found refl,
          open_more a (find_open-has s.files.open_inodes n s.files a found) (some_injective seen),
        )
  ]
