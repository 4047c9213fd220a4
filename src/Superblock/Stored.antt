-- ===== src/Superblock/Stored.antt =====
-- `superblock_load` on a device that holds a superblock.
use chisai_fs.Base.{ℕ, ◌≤◌, ◌≡◌, ap, ◌∙◌}
use chisai_fs.Base.Outcome.{ok}
use chisai_fs.Device.{Device}
use chisai_fs.Device.Laws.{DeviceLaws, slice, device_data_load-slice}
use chisai_fs.Superblock.{Superblock, superblock_bytes, superblock_encode, superblock_load}
use chisai_fs.Superblock.Laws.{
  IsValid, length-superblock_encode, superblock_decode-encode, superblock_load_of,
}

-- It is found, and no byte changes.
pub superblock_load-encode :
    {d : Device} {size : ℕ} {byte : d.State → ℕ → ℕ} (laws : DeviceLaws d size byte)
    (sb : Superblock) (s : d.State)
    → IsValid sb
    → superblock_bytes ≤ size
    → slice (byte s) 0 superblock_bytes ≡ superblock_encode sb
    → (s' : d.State) × (superblock_load d s ≡ ok sb s') × (byte s' ≡ byte s)
superblock_load-encode {d} laws sb s v room stored =
    let (s', loaded, same) = device_data_load-slice laws 0 superblock_bytes s room in
    (
      s',
      superblock_load_of d s s' (superblock_encode sb) (loaded ∙ ap (λ bytes. ok bytes s') stored)
            (length-superblock_encode sb)
          ∙ ap (λ x. ok x s') (superblock_decode-encode sb v),
      same,
    )
