-- ===== src/Inode.antt =====
-- src/chisai-core/inode.c and include/chisai-core/inode.h: an inode, and its 88 bytes on the device
-- as x86-64 lays `inode_t` out. The 4 bytes of padding behind `mode`, which nothing reads, are 0.
-- The signed `blkcnt` and `size` are taken to be not negative.
pub mod Laws
use chisai_fs.Base.{
  ℕ, zero, suc, ◌+◌, ◌/◌, List, [], ◌∷◌, ◌++◌, ◌==◌, set, replicate, take, drop, le_bytes, of_bytes,
  length,
}
use chisai_fs.Base.Outcome.{Cmd, pure, require, ◌>>=◌, ◌>>◌}
use chisai_fs.Device.{Device, device_data_save, device_data_load}

-- DIRECT_BLKS_NUM
abbrev pub direct_blks_num : ℕ
direct_blks_num = 12

-- enum inode_numlist
abbrev pub no_inode : ℕ
no_inode = 0

abbrev pub badblk_inode : ℕ
badblk_inode = 1

abbrev pub root_inode : ℕ
root_inode = 2

pub record Inode : Type 0 where
  pub mode : ℕ
  pub nlink : ℕ
  pub blkcnt : ℕ
  pub size : ℕ
  pub direct_blks : List ℕ
  pub indirect_blk : ℕ
  pub double_indirect_blk : ℕ

unfoldable pub inode_init : Inode
inode_init = record {
  mode = 0;
  nlink = 1;
  blkcnt = 0;
  size = 0;
  direct_blks = replicate direct_blks_num 0;
  indirect_blk = 0;
  double_indirect_blk = 0;
}

unfoldable pub inode_set_mode : Inode → ℕ → Inode
inode_set_mode inode mode = record inode { mode = mode }

unfoldable pub inode_set_nlink : Inode → ℕ → Inode
inode_set_nlink inode nlink = record inode { nlink = nlink }

unfoldable pub inode_add_block : Inode → ℕ → Inode
inode_add_block inode data_idx = record inode { direct_blks = set inode.direct_blks 0 data_idx }

unfoldable pub inode_get_blkcnt : Inode → ℕ
inode_get_blkcnt inode = inode.blkcnt

unfoldable pub inode_get_size : Inode → ℕ
inode_get_size inode = inode.size

unfoldable pub inode_set_size : Inode → ℕ → Inode
inode_set_size inode size = record inode { size = size; blkcnt = size / 512 + 1 }

-- An array of chisai_size_t in memory.
unfoldable pub words_encode : List ℕ → List ℕ
words_encode [] = []
words_encode (w ∷ ws) = le_bytes 4 w ++ words_encode ws

unfoldable pub words_decode : ℕ → List ℕ → List ℕ
words_decode zero bytes = []
words_decode (suc n) bytes = of_bytes (take 4 bytes) ∷ words_decode n (drop 4 bytes)

-- sizeof(inode_t)
abbrev pub inode_bytes : ℕ
inode_bytes = 88

unfoldable pub inode_encode : Inode → List ℕ
inode_encode inode =
    le_bytes 4 inode.mode
    ++ (le_bytes 4 0
        ++ (le_bytes 8 inode.nlink
            ++ (le_bytes 8 inode.blkcnt
                ++ (le_bytes 8 inode.size
                    ++ (words_encode inode.direct_blks
                        ++ (le_bytes 4 inode.indirect_blk
                            ++ le_bytes 4 inode.double_indirect_blk))))))

unfoldable pub inode_decode : List ℕ → Inode
inode_decode bytes = record {
  mode = of_bytes (take 4 bytes);
  nlink = of_bytes (take 8 (drop 8 bytes));
  blkcnt = of_bytes (take 8 (drop 16 bytes));
  size = of_bytes (take 8 (drop 24 bytes));
  direct_blks = words_decode direct_blks_num (drop 32 bytes);
  indirect_blk = of_bytes (take 4 (drop 80 bytes));
  double_indirect_blk = of_bytes (take 4 (drop 84 bytes));
}

module _ (d : Device) where
  unfoldable pub inode_save : Inode → ℕ → Cmd d.State (Unit {0})
  inode_save inode offset = device_data_save d offset (inode_encode inode)

  -- A short read leaves the struct partly unset.
  unfoldable pub inode_load : ℕ → Cmd d.State Inode
  inode_load offset = do
    bytes ← device_data_load d offset inode_bytes
    require (length bytes == inode_bytes)
    pure (inode_decode bytes)
