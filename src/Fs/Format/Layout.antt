-- ===== src/Fs/Format/Layout.antt =====
-- Where the super block of a partition places the tables and the data.
use tie_zhu_os.Base.{ℕ, ◌+◌, ◌-◌, ◌*◌, ◌/◌, ◌%◌, ◌^◌, ◌<◌, ◌≤◌, ◌≡◌, ap, sym, ◌∙◌, subst, arith}
use tie_zhu_os.Fs.Format.{div_round_up, SuperBlock, free_sects, block_bitmap_bit_len, super_block}

-- The tables of a partition, one behind the other from its third sector on, with the data behind them.
pub record IsLaidOut (start_lba sec_cnt : ℕ) (sb : SuperBlock) : Type 0 where
  pub block_bitmap : sb.block_bitmap_lba ≡ start_lba + 2
  pub inode_bitmap : sb.inode_bitmap_lba ≡ sb.block_bitmap_lba + sb.block_bitmap_sects
  pub inode_table : sb.inode_table_lba ≡ sb.inode_bitmap_lba + sb.inode_bitmap_sects
  pub data_start : sb.data_start_lba ≡ sb.inode_table_lba + sb.inode_table_sects
  pub inode_bits : sb.inode_cnt ≤ 4096 * sb.inode_bitmap_sects
  pub inodes : 76 * sb.inode_cnt ≤ 512 * sb.inode_table_sects
  pub block_bits : block_bitmap_bit_len sec_cnt ≤ 4096 * sb.block_bitmap_sects
  pub blocks_within : sb.data_start_lba + block_bitmap_bit_len sec_cnt ≤ start_lba + sec_cnt

free_sects_lem :
    (sec_cnt : ℕ) → 611 < sec_cnt → sec_cnt < 2 ^ 32 → free_sects sec_cnt ≡ sec_cnt - 611
free_sects_lem sec_cnt more fits = omega (arith, more, fits)

rounded : (f : ℕ) → f + 4096 < 2 ^ 32 → div_round_up f 4096 ≡ (f + 4095) / 4096
rounded f fits = omega (arith, fits)

bit_len_lem :
    (sec_cnt : ℕ)
    → 611 < sec_cnt
    → sec_cnt + 4096 < 2 ^ 32
    → block_bitmap_bit_len sec_cnt ≡ sec_cnt - 611 - (sec_cnt - 611 + 4095) / 4096
bit_len_lem sec_cnt more fits = omega (
  arith,
  more,
  fits,
  free_sects_lem sec_cnt more (omega arith),
  ap (λ f. div_round_up f 4096) (free_sects_lem sec_cnt more (omega (arith, fits))),
  rounded (sec_cnt - 611) (omega (arith, fits)),
)

-- The sectors of `f` bits, and of those that are left without these sectors.
sects_within : (f : ℕ) → 0 < f → f - (f + 4095) / 4096 + ((f - (f + 4095) / 4096) + 4095) / 4096 ≤ f
sects_within f some_bits = omega (arith, some_bits)

-- The number of sectors of the block bitmap, and what they have room for.
bitmap_sects :
    (sec_cnt : ℕ)
    → 611 < sec_cnt
    → sec_cnt + 4096 < 2 ^ 32
    → (n : ℕ) × (div_round_up (block_bitmap_bit_len sec_cnt) 4096 ≡ n)
      × (block_bitmap_bit_len sec_cnt ≤ 4096 * n)
      × (611 + n + block_bitmap_bit_len sec_cnt ≤ sec_cnt)
bitmap_sects sec_cnt more fits =
    let f = sec_cnt - 611 in
    let len = f - (f + 4095) / 4096 in
    let same : block_bitmap_bit_len sec_cnt ≡ len = bit_len_lem sec_cnt more fits in
    let within = sects_within f (omega (arith, more)) in
    (
      (len + 4095) / 4096,
      ap (λ n. div_round_up n 4096) same ∙ rounded len (omega (arith, fits)),
      subst (λ n. n ≤ 4096 * ((len + 4095) / 4096)) (sym same) (omega arith),
      subst (λ n. 611 + (len + 4095) / 4096 + n ≤ sec_cnt) (sym same) (omega (arith, within, more)),
    )

in_word : (x : ℕ) → x < 2 ^ 32 → x % 2 ^ 32 ≡ x
in_word x h = omega (arith, h)

-- The super block of a partition of more than 611 sectors, whose addresses fit in 32 bits with room for a sector of
-- bits, places the tables one behind the other; the bitmaps and the inode table have room for their bits and
-- inodes, and each block that the block bitmap has a bit for lies within the partition.
pub super_block-IsLaidOut :
    (start_lba sec_cnt : ℕ)
    → 611 < sec_cnt
    → start_lba + sec_cnt + 4096 < 2 ^ 32
    → IsLaidOut start_lba sec_cnt (super_block start_lba sec_cnt)
unfolding super_block
super_block-IsLaidOut start_lba sec_cnt some_room fits =
    let (n, sects, bits, within) = bitmap_sects sec_cnt some_room (omega (arith, fits)) in
    let len = block_bitmap_bit_len sec_cnt in
    record {
      block_bitmap = omega (arith, fits);
      inode_bitmap = rw sects (
          in_word (start_lba + 2 + n) (omega (arith, within, fits))
          ∙ ap (λ x. x + n) (sym (in_word (start_lba + 2) (omega (arith, fits)))));
      inode_table = rw sects (
          in_word (start_lba + 2 + n + 1) (omega (arith, within, fits))
          ∙ ap (λ x. x + 1) (sym (in_word (start_lba + 2 + n) (omega (arith, within, fits)))));
      data_start = rw sects (
          in_word (start_lba + 2 + n + 1 + 608) (omega (arith, within, fits))
          ∙ ap (λ x. x + 608)
              (sym (in_word (start_lba + 2 + n + 1) (omega (arith, within, fits)))));
      inode_bits = omega arith;
      inodes = omega arith;
      block_bits = rw sects bits;
      blocks_within =
          rw (sects, in_word (start_lba + 2 + n + 1 + 608) (omega (arith, within, fits)))
            (omega (arith, within));
    }
