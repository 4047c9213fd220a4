-- ===== src/Base/CString.antt =====
-- The string functions that the source calls: a char array is a list of bytes, a string that the
-- caller passes is the list of its bytes before the NUL. `none` is an access outside the array.
use chisai_fs.Base.{
  ℕ, suc, ◌≤◌, ◌<◌, ◌≡◌, ◌≢◌, refl, Bool, true, false, ◌&&◌, Option, none, some, List, [], ◌∷◌,
  ◌++◌, arith, ◌==◌, ltb, if◌then◌else◌, length, drop, All, length-append, length-drop, IsByte,
  IsBytes, All-append, All-drop, Bool-cases, inl, inr,
}

-- strcmp(array, string) == 0
unfoldable pub strcmp_eq : List ℕ → List ℕ → Option Bool
strcmp_eq [] s = none
strcmp_eq (b ∷ bs) [] = some (b == 0)
strcmp_eq (b ∷ bs) (c ∷ cs) = if b == c then strcmp_eq bs cs else some false

-- strcpy(array, string): the array afterwards.
unfoldable pub strcpy : List ℕ → List ℕ → Option (List ℕ)
strcpy dst src =
    if ltb (length src) (length dst) then some (src ++ (0 ∷ drop (suc (length src)) dst)) else none

-- Equality of two strings.
unfoldable pub same_string : List ℕ → List ℕ → Bool
same_string [] [] = true
same_string [] (c ∷ cs) = false
same_string (b ∷ bs) [] = false
same_string (b ∷ bs) (c ∷ cs) = b == c && same_string bs cs

-- The bytes before the first NUL.
unfoldable pub c_str : List ℕ → List ℕ
c_str [] = []
c_str (b ∷ bs) = let rest = c_str bs in if b == 0 then [] else b ∷ rest

unfoldable pub has_nul : List ℕ → Bool
has_nul [] = false
has_nul (b ∷ bs) = let rest = has_nul bs in if b == 0 then true else rest

-- A string has no NUL inside.
abbrev pub IsString : List ℕ → Type 0
IsString = All (λ b. b ≢ 0)

-- `strcmp` on a terminated array compares the strings.
pub strcmp_eq-same_string :
    (array s : List ℕ)
    → has_nul array ≡ true
    → IsString s
    → strcmp_eq array s ≡ some (same_string (c_str array) s)
unfolding strcmp_eq same_string c_str has_nul
strcmp_eq-same_string [] s h p = cc
strcmp_eq-same_string (b ∷ bs) [] h p = ground arith
strcmp_eq-same_string (b ∷ bs) (c ∷ cs) h p = ground (arith, p.0, strcmp_eq-same_string bs cs)

pub c_str-append : (s rest : List ℕ) → IsString s → c_str (s ++ (0 ∷ rest)) ≡ s
unfolding c_str
c_str-append [] rest h = refl
c_str-append (b ∷ bs) rest h = ground (arith, h.0, c_str-append bs rest h.1)

pub has_nul-append : (s rest : List ℕ) → has_nul (s ++ (0 ∷ rest)) ≡ true
unfolding has_nul
has_nul-append [] rest = refl
has_nul-append (b ∷ bs) rest = ground (arith, has_nul-append bs rest)

pub same_string_iff : (s t : List ℕ) → same_string s t ≡ true → s ≡ t
unfolding same_string
same_string_iff [] [] h = refl
same_string_iff [] (c ∷ cs) h = cc
same_string_iff (b ∷ bs) [] h = cc
same_string_iff (b ∷ bs) (c ∷ cs) h = ground (arith, same_string_iff bs cs)

pub same_string_refl : (s : List ℕ) → same_string s s ≡ true
unfolding same_string
same_string_refl [] = refl
same_string_refl (b ∷ bs) = ground (arith, same_string_refl bs)

-- What `strcpy` leaves in an array with room for the string and its NUL.
pub strcpy_lem :
    (dst src : List ℕ)
    → IsString src
    → length src < length dst
    → (out : List ℕ) × (strcpy dst src ≡ some out)
      × (c_str out ≡ src)
      × (has_nul out ≡ true)
      × (length out ≡ length dst)
      × (IsBytes dst → IsBytes src → IsBytes out)
unfolding strcpy
strcpy_lem dst src s h =
    let out = src ++ (0 ∷ drop (suc (length src)) dst) in
    (
      out,
      ground arith,
      c_str-append src (drop (suc (length src)) dst) s,
      has_nul-append src (drop (suc (length src)) dst),
      omega (
        arith,
        length-append src (0 ∷ drop (suc (length src)) dst),
        length-drop (suc (length src)) dst,
      ),
      λ p q.
          All-append IsByte src (0 ∷ drop (suc (length src)) dst) q
            (omega arith, All-drop IsByte (suc (length src)) dst p),
    )

-- A string that does not fit with its NUL is written past the end of the array.
pub strcpy_overflow : (dst src : List ℕ) → length dst ≤ length src → strcpy dst src ≡ none
unfolding strcpy
strcpy_overflow dst src h = ground arith

-- The string in an array that ends in a NUL is shorter than the array.
pub c_str-lt : (a : List ℕ) → has_nul a ≡ true → length (c_str a) < length a
unfolding c_str has_nul
c_str-lt [] h = cc
c_str-lt (b ∷ bs) h = ground (arith, c_str-lt bs)

pub c_str-IsString : (a : List ℕ) → IsString (c_str a)
unfolding c_str
c_str-IsString [] = tt
c_str-IsString (b ∷ bs) = elim (Bool-cases (b == 0)) [
  | inl e ↦ rw e tt
  | inr e ↦ rw e (λ z. absurd (ground arith), c_str-IsString bs)
]
