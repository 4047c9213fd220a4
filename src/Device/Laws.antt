-- ===== src/Device/Laws.antt =====
-- What the file system relies on of a device, and that the system calls give it.
use chisai_fs.Base.{
  ℕ, zero, suc, ◌+◌, ◌-◌, ◌≤◌, ◌<◌, ◌≡◌, refl, ◌∙◌, ap, ap₂, ◌⊎◌, ◌&&◌, some, List, [], ◌∷◌, arith,
  ltb, leb, if◌then◌else◌, length, get_or, IsBytes,
}
use chisai_fs.Base.Outcome.{ok}
use chisai_fs.Device.{Device, device_data_save, device_data_load}

-- `n` bytes of a disk from `off` on.
unfoldable pub slice : (ℕ → ℕ) → ℕ → ℕ → List ℕ
slice f off zero = []
slice f off (suc n) = f off ∷ slice f (off + 1) n

-- A disk after `bytes` have been written at `off`.
unfoldable pub patch : (ℕ → ℕ) → ℕ → List ℕ → ℕ → ℕ
patch f off bytes i =
    if leb off i && ltb i (off + length bytes) then get_or bytes (i - off) 0 else f i

-- A device of `size` bytes that answers every request inside it in full: `byte s` is what it holds.
pub record DeviceLaws (d : Device) (size : ℕ) (byte : d.State → ℕ → ℕ) : Type 0 where
  pub holds_bytes : (s : d.State) (i : ℕ) → byte s i < 256
  pub read_data :
      (s : d.State) (off n : ℕ) → off + n ≤ size → (d.read s off n).0 ≡ some (slice (byte s) off n)
  pub read_keeps : (s : d.State) (off n : ℕ) → byte (d.read s off n).1 ≡ byte s
  pub write_count :
      (s : d.State) (off : ℕ) (bytes : List ℕ)
      → off + length bytes ≤ size
      → (d.write s off bytes).0 ≡ some (length bytes)
  pub write_data :
      (s : d.State) (off : ℕ) (bytes : List ℕ)
      → off + length bytes ≤ size
      → IsBytes bytes
      → byte (d.write s off bytes).1 ≡ patch (byte s) off bytes

pub length-slice : (f : ℕ → ℕ) (off n : ℕ) → length (slice f off n) ≡ n
unfolding slice
length-slice f off zero = refl
length-slice f off (suc n) = ap suc (length-slice f (off + 1) n)

pub slice_ext :
    (f g : ℕ → ℕ) (off n : ℕ)
    → ((i : ℕ) → off ≤ i → i < off + n → f i ≡ g i)
    → slice f off n ≡ slice g off n
unfolding slice
slice_ext f g off zero h = refl
slice_ext f g off (suc n) h =
    ap₂ ◌∷◌ (h off (omega arith) (omega arith))
      (slice_ext f g (off + 1) n (λ i p q. h i (omega arith) (omega arith)))

pub slice-IsBytes : (f : ℕ → ℕ) (off n : ℕ) → ((i : ℕ) → f i < 256) → IsBytes (slice f off n)
unfolding slice
slice-IsBytes f off zero h = tt
slice-IsBytes f off (suc n) h = (h off, slice-IsBytes f (off + 1) n h)

-- Reading what was written, for a function that agrees with the bytes.
slice_of_bytes :
    (g : ℕ → ℕ) (off : ℕ) (bytes : List ℕ)
    → ((i : ℕ) → i < length bytes → g (off + i) ≡ get_or bytes i 0)
    → slice g off (length bytes) ≡ bytes
unfolding slice
slice_of_bytes g off [] h = refl
slice_of_bytes g off (b ∷ bytes) h =
    let here : off + 0 ≡ off = omega arith in
    ap₂ ◌∷◌ (rw here at (h 0 (omega arith))) (
      slice_of_bytes g (off + 1) bytes λ i lt.
        let there : off + 1 + i ≡ off + suc i = omega arith in rw there (h (suc i) (omega arith)))

pub slice-patch_self :
    (f : ℕ → ℕ) (off : ℕ) (bytes : List ℕ) → slice (patch f off bytes) off (length bytes) ≡ bytes
unfolding patch
slice-patch_self f off bytes =
    slice_of_bytes (patch f off bytes) off bytes
      λ i lt. let e : off + i - off ≡ i = omega arith in ground (arith, e)

pub slice-patch_ne :
    (f : ℕ → ℕ) (off : ℕ) (bytes : List ℕ) (at n : ℕ)
    → (at + n ≤ off) ⊎ (off + length bytes ≤ at)
    → slice (patch f off bytes) at n ≡ slice f at n
unfolding patch
slice-patch_ne f off bytes at n apart = slice_ext (patch f off bytes) f at n λ i p q. ground arith

module _ {d : Device} {size : ℕ} {byte : d.State → ℕ → ℕ} (laws : DeviceLaws d size byte) where
  -- A save inside the device succeeds and changes just the bytes that it writes.
  pub device_data_save-patch :
      (off : ℕ) (bytes : List ℕ) (s : d.State)
      → off + length bytes ≤ size
      → IsBytes bytes
      → (s' : d.State) × (device_data_save d off bytes s ≡ ok tt s')
        × (byte s' ≡ patch (byte s) off bytes)
  unfolding device_data_save
  device_data_save-patch off bytes s fits ok_bytes = (
    (d.write s off bytes).1,
    rw (laws.write_count s off bytes fits, device_data_save),
    laws.write_data s off bytes fits ok_bytes,
  )

  -- A load inside the device gives the bytes there and changes none.
  pub device_data_load-slice :
      (off n : ℕ) (s : d.State)
      → off + n ≤ size
      → (s' : d.State) × (device_data_load d off n s ≡ ok (slice (byte s) off n) s')
        × (byte s' ≡ byte s)
  unfolding device_data_load
  device_data_load-slice off n s fits = (
    (d.read s off n).1,
    rw (laws.read_data s off n fits, device_data_load),
    laws.read_keeps s off n,
  )

pub patch_in :
    (f : ℕ → ℕ) (off : ℕ) (bytes : List ℕ) (i : ℕ)
    → off ≤ i
    → i < off + length bytes
    → patch f off bytes i ≡ get_or bytes (i - off) 0
unfolding patch
patch_in f off bytes i low high = ground arith

pub patch_out :
    (f : ℕ → ℕ) (off : ℕ) (bytes : List ℕ) (i : ℕ)
    → (i < off) ⊎ (off + length bytes ≤ i)
    → patch f off bytes i ≡ f i
unfolding patch
patch_out f off bytes i outside = ground arith

pub get_or-slice : (f : ℕ → ℕ) (off n i : ℕ) → i < n → get_or (slice f off n) i 0 ≡ f (off + i)
unfolding slice
get_or-slice f off zero i h = absurd (omega arith)
get_or-slice f off (suc n) zero h = ap f (omega arith)
get_or-slice f off (suc n) (suc i) h =
    get_or-slice f (off + 1) n i (omega arith) ∙ ap f (omega arith)
