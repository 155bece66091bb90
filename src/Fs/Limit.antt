-- ===== src/Fs/Limit.antt =====
-- The largest size of a file.
use tie_zhu_os.Base.{
  ℕ, ◌+◌, ◌/◌, ◌%◌, ◌^◌, ◌<◌, ◌≡◌, ◌≢◌, refl, Bool, true, false, not, ◌||◌, none, some, List,
  length, ltb, leb, >>=-some, arith,
}
use tie_zhu_os.Files.Defs.{Inode, File}
use tie_zhu_os.Fs.Blocks.{Volume, first_block}
use tie_zhu_os.Fs.Transfer.{max_size, failed, file_write}

-- `file_write` refuses a size beyond 140 blocks with -1 and changes nothing.
pub file_write_too_big :
    (got : Bool) (src : List ℕ) (f : File) (i : Inode) (v : Volume)
    → i.i_bsize + length src < 2 ^ 32
    → max_size < i.i_bsize + length src
    → file_write got src f i v ≡ some (failed f i v)
unfolding file_write
file_write_too_big got src f i v small beyond = rw too_big refl
  where
    too_big : (ltb max_size ((i.i_bsize + length src) % 2 ^ 32) || not got) ≡ true
    too_big = ground arith

-- A write to a file with a first block that makes it exactly 140 blocks long, the size that the test at
-- the start of `file_write` still allows, fails an assertion.
pub file_write_full :
    (src : List ℕ) (f : File) (i : Inode) (v : Volume)
    → i.i_sectors 0 ≢ 0
    → i.i_bsize + length src ≡ max_size
    → file_write true src f i v ≡ none
unfolding file_write
file_write_full src f i v has_block full = rw fits (>>=-some _ first (rw over refl))
  where
    fits : (ltb max_size ((i.i_bsize + length src) % 2 ^ 32) || not true) ≡ false
    fits = ground (arith, full)

    first :
        first_block true (record { volume = v; inode = i; all_block = (λ k. 0) })
        ≡ some (true, record { volume = v; inode = i; all_block = (λ k. 0) })
    first = ground arith

    over : leb ((i.i_bsize + length src) / 512 + 1) 140 ≡ false
    over = ground (arith, full)
