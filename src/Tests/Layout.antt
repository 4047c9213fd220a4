-- ===== src/Tests/Layout.antt =====
-- The layout of a disk of two groups, with blocks of 512 bytes.
use chisai_fs.Base.{◌+◌, ◌*◌, ◌≤◌, refl, arith}
use chisai_fs.Fs.{inode_offset, data_offset}
use chisai_fs.Fs.Layout.{
  IsLaidOut, IsIndex, Disjoint, data_offset-Disjoint, inode_offset-data_offset-Disjoint,
}
use chisai_fs.Tests.Disk.{super}

super-IsLaidOut : IsLaidOut super 2622464
super-IsLaidOut = record {
  positive = omega arith;
  some_blocks = omega arith;
  whole = refl;
  group_fits = omega arith;
  disk_fits = omega arith;
  indices_fit = omega arith;
}

five-IsIndex : IsIndex super 5
five-IsIndex = (omega arith, omega arith)

five_thousand-IsIndex : IsIndex super 5000
five_thousand-IsIndex = (omega arith, omega arith)

data_offset-Disjoint_example :
    Disjoint (data_offset super 2622464 5) 512 (data_offset super 2622464 5000) 512
data_offset-Disjoint_example =
    data_offset-Disjoint super 2622464 super-IsLaidOut 5 5000 five-IsIndex five_thousand-IsIndex
      (λ e. omega arith)

inode_offset-data_offset-Disjoint_example :
    Disjoint (inode_offset super 2622464 5000) 128 (data_offset super 2622464 5) 512
    × (3 * 512 ≤ inode_offset super 2622464 5000)
    × (3 * 512 ≤ data_offset super 2622464 5)
    × (inode_offset super 2622464 5000 + 128 ≤ 512 + 2 * 2622464)
    × (data_offset super 2622464 5 + 512 ≤ 512 + 2 * 2622464)
inode_offset-data_offset-Disjoint_example =
    inode_offset-data_offset-Disjoint super 2622464 super-IsLaidOut 5000 5 five_thousand-IsIndex
      five-IsIndex
