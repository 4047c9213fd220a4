-- ===== src/Fs/Halts/Blocks.antt =====
-- The commands inside the loops of `fs_write_file` and `fs_read_file` end, `fs_find_blk` and
-- `fs_alloc_blk` among them (src/chisai-core/fs.c).
use chisai_fs.Base.{
  ℕ, zero, suc, ◌+◌, ◌/◌, ◌==◌, inl, inr, Bool-cases, get_elem?, u32, Option, none, some, List, ltb,
}
use chisai_fs.Base.Ensures.{
  Ensures, Halts, and_then-Ensures, pure-Ensures, lift-Halts, defined-Ensures, require-Ensures,
}
use chisai_fs.Base.Outcome.{ok, died, Cmd}
use chisai_fs.Device.{Device, device_data_save, device_data_load}
use chisai_fs.Fs.{Filesystem, on_device, fs_data_to_offset, fs_data_alloc}
use chisai_fs.BlockGroup.{blkgrps_data_alloc}
use chisai_fs.Fs.Block.{
  idx_bytes, read_into, found_blk, indirect_slot, clear_indirect, ensure_indirect, attach_blk,
  fs_find_blk, fs_alloc_blk,
}
use chisai_fs.Inode.{Inode, direct_blks_num}

module _ (d : Device) where
  -- A device command ends.
  save-Halts : (off : ℕ) → (buf : List ℕ) → (s : d.State) → Halts (device_data_save d off buf s)
  unfolding device_data_save Ensures
  save-Halts off buf s =
      let (ret, s') = d.write s off buf in
      elim ret as (λ r. Halts (elim r [ none ↦ died | some count ↦ ok tt s' ])) [
        | none ↦ tt
        | some n ↦ tt
      ]

  load-Halts : (off size : ℕ) → (s : d.State) → Halts (device_data_load d off size s)
  unfolding device_data_load Ensures
  load-Halts off size s =
      let (ret, s') = d.read s off size in
      elim ret as (λ r. Halts (elim r [ none ↦ died | some bytes ↦ ok bytes s' ])) [
        | none ↦ tt
        | some n ↦ tt
      ]

  on_device-Halts :
      {A : Type 0}
      → (m : Cmd d.State A) → (fs : Filesystem d) → Halts (m fs.device)
      → Halts (on_device d m fs)
  on_device-Halts m fs h =
      lift-Halts (λ fs. fs.device) (λ fs s. record fs { device = s }) fs (m fs.device) h

  pub save_at-Halts :
      (off : ℕ)
      → (buf : List ℕ) → (fs : Filesystem d) → Halts (on_device d (device_data_save d off buf) fs)
  save_at-Halts off buf fs =
      on_device-Halts (device_data_save d off buf) fs (save-Halts off buf fs.device)

  pub load_at-Halts :
      (off size : ℕ) → (fs : Filesystem d) → Halts (on_device d (device_data_load d off size) fs)
  load_at-Halts off size fs =
      on_device-Halts (device_data_load d off size) fs (load-Halts off size fs.device)

  pub offset-Halts : (idx : ℕ) → (fs : Filesystem d) → Halts (fs_data_to_offset d idx fs)
  unfolding fs_data_to_offset
  offset-Halts idx fs =
      and_then-Ensures _ _ _ (require-Ensures (ltb 0 fs.sb.data_block_per_groups) fs)
        (λ _ s _. pure-Ensures _ _ s tt)

  found-Halts : (idx : Option ℕ) → (fs : Filesystem d) → Halts (found_blk d idx fs)
  found-Halts idx fs =
      and_then-Ensures _ _ _ (defined-Ensures idx fs) λ _ s _. pure-Ensures _ _ s tt

  slot-Halts : (inode : Inode) → (n : ℕ) → (fs : Filesystem d) → Halts (indirect_slot d inode n fs)
  unfolding indirect_slot
  slot-Halts inode n fs =
      and_then-Ensures _ _ _ (offset-Halts inode.indirect_blk fs) λ _ s _. pure-Ensures _ _ s tt

  pub fs_find_blk-Halts :
      (inode : Inode)
      → (off : ℕ) → (idx : Option ℕ) → (fs : Filesystem d) → Halts (fs_find_blk d inode off idx fs)
  unfolding fs_find_blk
  fs_find_blk-Halts inode off idx fs =
      let n = u32 (off / fs.sb.block_size) in
      let bound = u32 (direct_blks_num + fs.sb.block_size / idx_bytes) in
      and_then-Ensures _ _ _ (require-Ensures (ltb 0 fs.sb.block_size) fs) λ _ s _.
        elim (Bool-cases (ltb n direct_blks_num)) [
          | inl e ↦ rw e (found-Halts (get_elem? inode.direct_blks n) s)
          | inr e ↦ elim (Bool-cases (ltb n bound)) [
            | inr e' ↦ rw (e, e') (pure-Ensures _ _ s tt)
            | inl e' ↦
                rw (e, e')
                  (and_then-Ensures _ _ _ (slot-Halts inode n s) λ slot s _.
                    and_then-Ensures _ _ _
                      (on_device-Halts (device_data_load d slot idx_bytes) s
                        (load-Halts slot idx_bytes s.device))
                      λ bytes s _. found-Halts (read_into idx bytes) s)
          ]
        ]

  fs_data_alloc-Halts : (fs : Filesystem d) → Halts (fs_data_alloc d fs)
  unfolding fs_data_alloc
  fs_data_alloc-Halts fs =
      and_then-Ensures _ _ _ (defined-Ensures (blkgrps_data_alloc fs.blk_grps) fs) λ r s _.
        elim (Bool-cases (r.0 == 0)) [
          | inl e ↦ rw e (pure-Ensures _ _ _ tt)
          | inr e ↦ rw e (pure-Ensures _ _ _ tt)
        ]

  clear-Halts :
      (inode : Inode)
      → (left i : ℕ) → (fs : Filesystem d) → Halts (clear_indirect d inode left i fs)
  unfolding clear_indirect
  clear-Halts inode zero i fs = pure-Ensures _ _ fs tt
  clear-Halts inode (suc left) i fs =
      and_then-Ensures _ _ _ (offset-Halts inode.indirect_blk fs) λ _ s _.
        and_then-Ensures _ _ _ (save_at-Halts _ _ s) λ _ s _. clear-Halts inode left (i + 1) s

  ensure_indirect-Halts :
      (inode : Inode) → (n idx : ℕ) → (fs : Filesystem d) → Halts (ensure_indirect d inode n idx fs)
  unfolding ensure_indirect
  ensure_indirect-Halts inode n idx fs = elim (Bool-cases (inode.indirect_blk == 0)) [
    | inr e ↦ rw e (pure-Ensures _ _ fs tt)
    | inl e ↦ rw e (
        and_then-Ensures _ _ _ (clear-Halts (record inode { indirect_blk = idx }) n 0 fs)
          λ _ s _. and_then-Ensures _ _ _ (fs_data_alloc-Halts s) λ _ s _. pure-Ensures _ _ s tt)
  ]

  attach_blk-Halts :
      (inode : Inode)
      → (n per idx : ℕ) → (fs : Filesystem d) → Halts (attach_blk d inode n per idx fs)
  unfolding attach_blk
  attach_blk-Halts inode n per idx fs = elim (Bool-cases (ltb n direct_blks_num)) [
    | inl e ↦ rw e (pure-Ensures _ _ fs tt)
    | inr e ↦ elim (Bool-cases (ltb n (u32 (direct_blks_num + per)))) [
      | inr e' ↦ rw (e, e') (pure-Ensures _ _ fs tt)
      | inl e' ↦
          rw (e, e')
            (and_then-Ensures _ _ _ (ensure_indirect-Halts inode per idx fs) λ r s _.
              and_then-Ensures _ _ _ (slot-Halts r.0 n s) λ slot s _.
                and_then-Ensures _ _ _ (save_at-Halts _ _ s) λ _ s _. pure-Ensures _ _ s tt)
    ]
  ]

  pub fs_alloc_blk-Halts :
      (inode : Inode) → (off : ℕ) → (fs : Filesystem d) → Halts (fs_alloc_blk d inode off fs)
  unfolding fs_alloc_blk
  fs_alloc_blk-Halts inode off fs =
      and_then-Ensures _ _ _ (require-Ensures (ltb 0 fs.sb.block_size) fs) λ _ s _.
        and_then-Ensures _ _ _ (fs_data_alloc-Halts s) λ idx s _. elim (Bool-cases (idx == 0)) [
          | inl e ↦ rw e (pure-Ensures _ _ s tt)
          | inr e ↦ rw e (attach_blk-Halts inode _ _ idx s)
        ]
