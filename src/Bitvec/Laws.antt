-- ===== src/Bitvec/Laws.antt =====
-- What `bitvec_get`, `bitvec_set` and `bitvec_reset` do, bit by bit.
use chisai_fs.Base.{
  ℕ, ◌*◌, ◌/◌, ◌%◌, ◌^◌, ◌<◌, ◌≡◌, refl, ap, some, List, arith, ◌==◌, if◌then◌else◌, IsByte,
  IsBytes, length, get_elem?, set, get_or, get_elem?-eq-get_or, get_or-set, length-set, All-set,
  All-get_or, All-replicate, length-replicate, bit_and_seven, get_elem?-none, none, ◌≤◌,
}
use chisai_fs.Bitvec.{Bitvec, bitvec_init, bitvec_get, bitvec_set, bitvec_reset}
use chisai_fs.Bitvec.Byte.{bit, bit-get, bit-set, bit-reset}

-- Bit `j` of an array of bytes; past its end the bits read 0.
abbrev pub bits_of : List ℕ → ℕ → ℕ
bits_of inner j = bit (get_or inner (j / 8) 0) (j % 8)

abbrev pub bit_at : Bitvec → ℕ → ℕ
bit_at v = bits_of v.inner

pub record IsValid (v : Bitvec) : Type 0 where
  pub sized : v.size ≡ length v.inner
  pub bytes : IsBytes v.inner

-- `v'` is `v` with bit `i` equal to `c`.
pub record IsUpdate (v : Bitvec) (i c : ℕ) (v' : Bitvec) : Type 0 where
  pub valid : IsValid v'
  pub same_size : v'.size ≡ v.size
  pub bits : (j : ℕ) → bit_at v' j ≡ (if i == j then c else bit_at v j)

get_or-IsByte : (v : Bitvec) (i : ℕ) → IsValid v → IsByte (get_or v.inner i 0)
get_or-IsByte v i h = All-get_or IsByte 0 (omega arith) v.inner i h.bytes

-- Writing the byte that holds bit `i`, where that changes bit `i` alone, updates bit `i` alone.
IsUpdate-set :
    (v : Bitvec) (i c b : ℕ)
    → IsValid v
    → i < 8 * v.size
    → ((q : ℕ) → q < 8 → bit b q ≡ (if i % 8 == q then c else bit (get_or v.inner (i / 8) 0) q))
    → b < 256
    → IsUpdate v i c (record v { inner = set v.inner (i / 8) b })
IsUpdate-set v i c b h lt bits small = record {
  valid = record {
    sized = omega (arith, h.sized, length-set v.inner (i / 8) b);
    bytes = All-set IsByte v.inner (i / 8) b h.bytes small;
  };
  same_size = refl;
  bits = λ j. ground (
    arith,
    h.sized,
    get_or-set 0 v.inner (i / 8) (j / 8) b (omega (arith, h.sized)),
    bits (j % 8) (omega arith),
  );
}

module _ (v : Bitvec) (i : ℕ) (h : IsValid v) (lt : i < 8 * v.size) where
  byte_found : get_elem? v.inner (i / 2 ^ 3) ≡ some (get_or v.inner (i / 8) 0)
  byte_found = get_elem?-eq-get_or v.inner (i / 8) 0 (omega (arith, h.sized))

  -- On a well-formed bit vector, `bitvec_get` of an index inside it reads that bit.
  pub bitvec_get-bit_at : bitvec_get v i ≡ some (bit_at v i)
  unfolding bitvec_get
  bitvec_get-bit_at =
      rw (byte_found, bit_and_seven i)
        (ap some
          (bit-get (get_or v.inner (i / 8) 0) (get_or-IsByte v (i / 8) h) (i % 8) (omega arith)))

  -- On a well-formed bit vector, `bitvec_set` of an index inside it sets that bit and no other, and
  -- keeps the vector well-formed.
  pub bitvec_set-IsUpdate : (v' : Bitvec) × (bitvec_set v i ≡ some v') × IsUpdate v i 1 v'
  unfolding bitvec_set
  bitvec_set-IsUpdate =
      rw (byte_found, bit_and_seven i)
        (
          _,
          refl,
          IsUpdate-set v i 1 _ h lt
              (λ q hq.
                bit-set (i % 8) q (get_or v.inner (i / 8) 0) (omega arith) hq
                  (get_or-IsByte v (i / 8) h))
              (omega arith),
        )

  -- On a well-formed bit vector, `bitvec_reset` of an index inside it clears that bit and no other,
  -- and keeps the vector well-formed.
  pub bitvec_reset-IsUpdate : (v' : Bitvec) × (bitvec_reset v i ≡ some v') × IsUpdate v i 0 v'
  unfolding bitvec_reset
  bitvec_reset-IsUpdate =
      rw (byte_found, bit_and_seven i)
        (
          _,
          refl,
          IsUpdate-set v i 0 _ h lt
              (λ q hq.
                bit-reset (i % 8) q (get_or v.inner (i / 8) 0) (omega arith) hq
                  (get_or-IsByte v (i / 8) h))
              (omega arith),
        )

pub bitvec_init-IsValid : (size : ℕ) → IsValid (bitvec_init size)
unfolding bitvec_init
bitvec_init-IsValid size = record {
  sized = omega (arith, length-replicate {A = ℕ} size 0);
  bytes = All-replicate IsByte size 0 (omega arith);
}

-- Past its last bit a bit vector cannot be set.
pub bitvec_set_outside : (v : Bitvec) (i : ℕ) → IsValid v → 8 * v.size ≤ i → bitvec_set v i ≡ none
unfolding bitvec_set
bitvec_set_outside v i h past =
    rw (get_elem?-none v.inner (i / 2 ^ 3) (omega (arith, h.sized)), bitvec_set)
