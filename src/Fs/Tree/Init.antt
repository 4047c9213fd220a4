-- ===== src/Fs/Tree/Init.antt =====
-- `fs_init` on a formatted device.
use chisai_fs.Bitvec.{Bitvec}
use chisai_fs.BlockGroup.{BlockGroup}
use chisai_fs.BlockGroup.Valid
use chisai_fs.Device.{Device}
use chisai_fs.Superblock.{Superblock}
