-- ===== src/Bitvec.antt =====
-- utils/bitvec.c and include/utils/bitvec.h: the bitmaps of inodes and data blocks.
-- The array behind `inner` is a list of bytes; `none` is an access outside it.
pub mod Byte
pub mod Laws
pub mod Search
use chisai_fs.Base.{
  ℕ, zero, suc, ◌+◌, ◌-◌, ◌*◌, ◌/◌, ◌%◌, ◌^◌, bit_and, bit_or, Option, none, some, List, [], ◌∷◌,
  ◌>>=◌, if◌then◌else◌, ltb, get_elem?, set, replicate,
}
use Byte.{popcount, ffs}

pub record Bitvec : Type 0 where
  pub size : ℕ
  pub inner : List ℕ

-- calloc is taken to succeed.
unfoldable pub bitvec_init : ℕ → Bitvec
bitvec_init size = record { size = size; inner = replicate size 0 }

-- index >> 3 and index & 0x7
abbrev pub split_of : ℕ → ℕ
split_of index = index / 2 ^ 3

abbrev pub pos_of : ℕ → ℕ
pos_of index = bit_and index 0x7

unfoldable pub bitvec_get : Bitvec → ℕ → Option ℕ
bitvec_get v index = do
  b ← get_elem? v.inner (split_of index)
  some (bit_and (b / 2 ^ pos_of index) 1)

-- The bytes are uint8_t: what is stored is cut to 8 bits.
unfoldable pub bitvec_set : Bitvec → ℕ → Option Bitvec
bitvec_set v index = do
  b ← get_elem? v.inner (split_of index)
  some (record v { inner = set v.inner (split_of index) (bit_or b (1 * 2 ^ pos_of index) % 2 ^ 8) })

-- ~(1 << pos), as the 32 bits of an int
abbrev pub mask_without : ℕ → ℕ
mask_without pos = 2 ^ 32 - 1 - 1 * 2 ^ pos

unfoldable pub bitvec_reset : Bitvec → ℕ → Option Bitvec
bitvec_reset v index = do
  b ← get_elem? v.inner (split_of index)
  some (record v {
    inner = set v.inner (split_of index) (bit_and b (mask_without (pos_of index)) % 2 ^ 8);
  })

-- The loop with the rounds left, over what is left of the array.
count_zeros_loop : ℕ → List ℕ → ℕ → Option ℕ
count_zeros_loop zero inner sum = some sum
count_zeros_loop (suc left) [] sum = none
count_zeros_loop (suc left) (b ∷ inner) sum = count_zeros_loop left inner (sum + (8 - popcount b))

unfoldable pub bitvec_count_zeros : Bitvec → Option ℕ
unfolding count_zeros_loop popcount
bitvec_count_zeros v = count_zeros_loop v.size v.inner 0

-- ~inner[i], as the 32 bits of an int
abbrev pub complement : ℕ → ℕ
complement b = 2 ^ 32 - 1 - b

find_first_set_loop : ℕ → List ℕ → ℕ → Option ℕ
find_first_set_loop zero inner found = some 0
find_first_set_loop (suc left) [] found = none
find_first_set_loop (suc left) (b ∷ inner) found =
    let tmp = ffs (complement b) in
    let rest = find_first_set_loop left inner (found + 8) in
    if ltb tmp 9 then some (found + tmp) else rest

unfoldable pub bitvec_find_first_set : Bitvec → Option ℕ
unfolding find_first_set_loop ffs
bitvec_find_first_set v = find_first_set_loop v.size v.inner 0
