-- ===== src/Device/Syscalls.antt =====
-- The operations of src/chisai-deviceop.c over the documented behaviour of the system calls, and a
-- disk in memory that behaves so.
use mathlib.Core.Path.{fun_ext}
use chisai_fs.Base.{
  ℕ, ◌+◌, ◌-◌, ◌%◌, ◌≤◌, ◌<◌, ◌≡◌, refl, ap, ◌⊎◌, ◌∙◌, some, List, arith, length, IsByte, IsBytes,
  All-get_or,
}
use chisai_fs.Base.Outcome.{ok}
use chisai_fs.Device.{
  Kernel, chisai_device_read, chisai_device_write, chisai_device, device_data_save,
  device_data_load,
}
use chisai_fs.Device.Laws.{
  slice, patch, DeviceLaws, device_data_save-patch, device_data_load-slice, slice-patch_self,
  slice-patch_ne,
}

-- lseek(2), read(2) and write(2) on a device of `size` bytes without faults: lseek moves to an offset
-- that is not past the end, and the other two work from the position on. Past the end lseek may fail,
-- and nothing is said of the position. `byte` is what the device holds.
pub record KernelLaws (k : Kernel) (size : ℕ) (byte : k.File → ℕ → ℕ) (position : k.File → ℕ)
    : Type 0 where
  pub holds_bytes : (f : k.File) (i : ℕ) → byte f i < 256
  pub seek_position : (f : k.File) (off : ℕ) → off ≤ size → position (k.lseek f off) ≡ off
  pub seek_keeps : (f : k.File) (off : ℕ) → byte (k.lseek f off) ≡ byte f
  pub read_data :
      (f : k.File) (n : ℕ)
      → position f + n ≤ size
      → (k.sys_read f n).0 ≡ some (slice (byte f) (position f) n)
  pub read_keeps : (f : k.File) (n : ℕ) → byte (k.sys_read f n).1 ≡ byte f
  pub write_count :
      (f : k.File) (bytes : List ℕ)
      → position f + length bytes ≤ size
      → (k.sys_write f bytes).0 ≡ some (length bytes)
  pub write_data :
      (f : k.File) (bytes : List ℕ)
      → position f + length bytes ≤ size
      → IsBytes bytes
      → byte (k.sys_write f bytes).1 ≡ patch (byte f) (position f) bytes

module _ {k : Kernel} {size : ℕ} {byte : k.File → ℕ → ℕ} {position : k.File → ℕ} where
  -- Over such system calls `chisai_device_read` and `chisai_device_write` are positioned reads and
  -- writes: a device that meets the laws which the file system relies on.
  pub chisai_device-DeviceLaws :
      KernelLaws k size byte position → DeviceLaws (chisai_device k) size byte
  unfolding chisai_device_read chisai_device_write
  chisai_device-DeviceLaws laws = record {
    holds_bytes = laws.holds_bytes;
    read_data = λ s off n fits.
        let at = laws.seek_position s off (omega arith) in
        laws.read_data (k.lseek s off) n (rw at fits) ∙ rw (at, laws.seek_keeps s off);
    read_keeps = λ s off n. laws.read_keeps (k.lseek s off) n ∙ laws.seek_keeps s off;
    write_count = λ s off bytes fits.
        let at = laws.seek_position s off (omega arith) in
        laws.write_count (k.lseek s off) bytes (rw at fits);
    write_data = λ s off bytes fits ok_bytes.
        let at = laws.seek_position s off (omega arith) in
        laws.write_data (k.lseek s off) bytes (rw at fits) ok_bytes
        ∙ rw (at, laws.seek_keeps s off);
  }

  -- Over lseek, read and write on a device without faults, bytes are saved inside the device. Then
  -- `device_data_save` returns, `device_data_load` at the same place gives these bytes, and a load of a
  -- piece of the device that has no byte in common with them gives, behind both calls, what it gives
  -- before them.
  pub device_data_load-device_data_save :
      KernelLaws k size byte position
      → (off : ℕ) (bytes : List ℕ) (f : k.File) → off + length bytes ≤ size
      → IsBytes bytes
      → (f' f'' : k.File) × (device_data_save (chisai_device k) off bytes f ≡ ok tt f')
        × (device_data_load (chisai_device k) off (length bytes) f' ≡ ok bytes f'')
        × ((at n : ℕ)
            → at + n ≤ size
            → (at + n ≤ off) ⊎ (off + length bytes ≤ at)
            → (old : List ℕ) × (g g' : k.File) × (device_data_load (chisai_device k) at n f
                ≡ ok old g)
              × (device_data_load (chisai_device k) at n f'' ≡ ok old g'))
  device_data_load-device_data_save kernel off bytes f fits ok_bytes =
      let laws = chisai_device-DeviceLaws kernel in
      let (f', saved, holds) = device_data_save-patch laws off bytes f fits ok_bytes in
      let (f'', loaded, same) = device_data_load-slice laws off (length bytes) f' fits in
      let read : slice (byte f') off (length bytes) ≡ bytes =
        ap (λ h. slice h off (length bytes)) holds ∙ slice-patch_self (byte f) off bytes in
      (
        f',
        f'',
        saved,
        loaded ∙ ap (λ b. ok b f'') read,
        λ at n inside apart.
            let (g, before, _) = device_data_load-slice laws at n f inside in
            let (g', behind, _) = device_data_load-slice laws at n f'' inside in
            let kept : slice (byte f'') at n ≡ slice (byte f) at n =
              ap (λ h. slice h at n) (same ∙ holds)
              ∙ slice-patch_ne (byte f) off bytes at n apart in
            (slice (byte f) at n, g, g', before, behind ∙ ap (λ b. ok b g') kept),
      )

-- A disk in memory, with the position of its descriptor.
pub record MemoryFile : Type 0 where
  pub content : ℕ → ℕ
  pub position : ℕ

abbrev pub memory_byte : MemoryFile → ℕ → ℕ
memory_byte f i = f.content i % 256

abbrev pub memory : Kernel
memory = record {
  File = MemoryFile;
  lseek = λ f off. record f { position = off };
  sys_read =
      λ f n. (some (slice (memory_byte f) f.position n), record f { position = f.position + n });
  sys_write = λ f bytes. (
    some (length bytes),
    record { content = patch f.content f.position bytes; position = f.position + length bytes },
  );
}

patch-IsBytes :
    (f : ℕ → ℕ) (off : ℕ) (bytes : List ℕ) (i : ℕ)
    → IsBytes bytes
    → patch f off bytes i % 256 ≡ patch (λ j. f j % 256) off bytes i
unfolding patch
patch-IsBytes f off bytes i h = ground (arith, All-get_or IsByte 0 (omega arith) bytes (i - off) h)

pub memory-KernelLaws : (size : ℕ) → KernelLaws memory size memory_byte (λ f. f.position)
memory-KernelLaws size = record {
  holds_bytes = λ f i. omega arith;
  seek_position = λ f off inside. refl;
  seek_keeps = λ f off. refl;
  read_data = λ f n fits. refl;
  read_keeps = λ f n. refl;
  write_count = λ f bytes fits. refl;
  write_data = λ f bytes fits h. fun_ext λ i. patch-IsBytes f.content f.position bytes i h;
}
