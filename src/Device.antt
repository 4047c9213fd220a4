-- ===== src/Device.antt =====
-- include/chisai-core/device.h and src/chisai-deviceop.c: the block device.
-- The system calls are a parameter, `Kernel`; `chisai_device` is the table of operations that
-- src/chisai-mount.c and src/chisai-format.c fill from src/chisai-deviceop.c. The operations
-- `malloc` and `free` of the table are taken to succeed and are left out.
pub mod Laws
pub mod Syscalls
use chisai_fs.Base.{ℕ, Option, none, some, List}
use chisai_fs.Base.Outcome.{Outcome, ok, died, Cmd}

-- `read` gives the bytes that it filled in, or `none` where it returns -1; `write` the count.
pub record Device : Type 1 where
  pub State : Type 0
  pub read : State → ℕ → ℕ → Option (List ℕ) × State
  pub write : State → ℕ → List ℕ → Option ℕ × State

module _ (d : Device) where
  unfoldable pub device_data_save : ℕ → List ℕ → Cmd d.State (Unit {0})
  device_data_save offset buf s =
      let (ret, s') = d.write s offset buf in elim ret [ none ↦ died | some count ↦ ok tt s' ]

  unfoldable pub device_data_load : ℕ → ℕ → Cmd d.State (List ℕ)
  device_data_load offset size s =
      let (ret, s') = d.read s offset size in elim ret [ none ↦ died | some bytes ↦ ok bytes s' ]

-- lseek with SEEK_SET, read and write on the open descriptor of the device.
pub record Kernel : Type 1 where
  pub File : Type 0
  pub lseek : File → ℕ → File
  pub sys_read : File → ℕ → Option (List ℕ) × File
  pub sys_write : File → List ℕ → Option ℕ × File

module _ (k : Kernel) where
  unfoldable pub chisai_device_read : k.File → ℕ → ℕ → Option (List ℕ) × k.File
  chisai_device_read fd offset size = k.sys_read (k.lseek fd offset) size

  unfoldable pub chisai_device_write : k.File → ℕ → List ℕ → Option ℕ × k.File
  chisai_device_write fd offset buffer = k.sys_write (k.lseek fd offset) buffer

  abbrev pub chisai_device : Device
  chisai_device = record { State = k.File; read = chisai_device_read; write = chisai_device_write }
