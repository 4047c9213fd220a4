-- ===== src/Superblock/Laws.antt =====
-- The superblock on the device: what is saved is what is loaded.
use chisai_fs.Base.{
  ℕ, ◌^◌, ◌≤◌, ◌<◌, ◌≡◌, refl, sym, ap, ◌∙◌, List, arith, length, le_bytes, of_bytes, IsBytes,
}
use chisai_fs.Base.Outcome.{ok}
use chisai_fs.Device.{Device, device_data_load}
use chisai_fs.Device.Laws.{
  DeviceLaws, slice, patch, device_data_save-patch, device_data_load-slice, slice-patch_self,
}
use chisai_fs.Superblock.{
  Superblock, superblock_bytes, superblock_encode, superblock_decode, superblock_of,
  superblock_save, superblock_load,
}

-- Every field fits in 32 bits.
pub record IsValid (sb : Superblock) : Type 0 where
  pub magic : sb.magic < 2 ^ 32
  pub block_size : sb.block_size < 2 ^ 32
  pub blocks_cnt : sb.blocks_cnt < 2 ^ 32
  pub inodes_cnt : sb.inodes_cnt < 2 ^ 32
  pub free_blocks : sb.free_blocks < 2 ^ 32
  pub free_inodes : sb.free_inodes < 2 ^ 32
  pub groups : sb.groups < 2 ^ 32
  pub data_block_per_groups : sb.data_block_per_groups < 2 ^ 32

pub length-superblock_encode : (sb : Superblock) → length (superblock_encode sb) ≡ superblock_bytes
unfolding superblock_encode le_bytes
length-superblock_encode sb = refl

pub superblock_encode-IsBytes : (sb : Superblock) → IsBytes (superblock_encode sb)
unfolding superblock_encode le_bytes
superblock_encode-IsBytes sb = omega arith

pub superblock_decode-encode :
    (sb : Superblock) → IsValid sb → superblock_decode (superblock_encode sb) ≡ sb
unfolding superblock_encode superblock_decode le_bytes of_bytes
superblock_decode-encode sb v = ground arith

pub superblock_load_of :
    (d : Device) (s s' : d.State) (bytes : List ℕ)
    → device_data_load d 0 superblock_bytes s ≡ ok bytes s'
    → length bytes ≡ superblock_bytes
    → superblock_load d s ≡ ok (superblock_decode bytes) s'
unfolding superblock_load
superblock_load_of d s s' bytes e len = rw (e, len)

module _ {d : Device} {size : ℕ} {byte : d.State → ℕ → ℕ} (laws : DeviceLaws d size byte) where
  -- On a device that has room for a superblock of 32-bit fields, `superblock_save` returns, and `superblock_load` after it
  -- returns the superblock that was saved. Behind the first 32 bytes the device is unchanged.
  pub superblock_load-save :
      (sb : Superblock) (s : d.State)
      → IsValid sb
      → superblock_bytes ≤ size
      → (s' s'' : d.State) × (superblock_save d sb s ≡ ok tt s')
        × (superblock_load d s' ≡ ok sb s'')
        × (byte s'' ≡ byte s')
        × (byte s' ≡ patch (byte s) 0 (superblock_encode sb))
  unfolding superblock_save
  superblock_load-save sb s v room =
      let len = length-superblock_encode sb in
      let (s', saved, holds) =
        device_data_save-patch laws 0 (superblock_encode sb) s (omega (arith, len))
          (superblock_encode-IsBytes sb) in
      let (s'', loaded, same) = device_data_load-slice laws 0 superblock_bytes s' room in
      let read : slice (byte s') 0 superblock_bytes ≡ superblock_encode sb =
        ap (λ f. slice f 0 superblock_bytes) holds
        ∙ ap (slice (patch (byte s) 0 (superblock_encode sb)) 0) (sym len)
        ∙ slice-patch_self (byte s) 0 (superblock_encode sb) in
      (
        s',
        s'',
        saved,
        superblock_load_of d s' s'' (superblock_encode sb)
              (loaded ∙ ap (λ bytes. ok bytes s'') read) len
            ∙ ap (λ x. ok x s'') (superblock_decode-encode sb v),
        same,
        holds,
      )

pub superblock_of-IsValid :
    (blk_size groups : ℕ)
    → blk_size < 2 ^ 32
    → groups < 2 ^ 32
    → IsValid (superblock_of blk_size groups)
unfolding superblock_of
superblock_of-IsValid blk_size groups h k = omega arith
