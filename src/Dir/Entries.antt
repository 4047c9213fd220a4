-- ===== src/Dir/Entries.antt =====
-- The abstract view of a directory: its entries, in the order of the nodes.
use mathlib.Core.Path.{subst}
use mathlib.Core.Option.{some-injective}
use mathlib.Core.List.{Perm}
use mathlib.Core.List.Perm
use chisai_fs.Base.{
  ℕ, zero, suc, ◌≤◌, ◌<◌, ◌≡◌, Bool, true, false, ◌||◌, some, List, [], ◌∷◌, map, arith,
  if◌then◌else◌, get_elem?, set, take, length,
}
use chisai_fs.Base.CString.{c_str, same_string, has_nul}
use chisai_fs.Dir.{Dir, DirNode}
use chisai_fs.Dir.Bytes.{IsStorable}

abbrev pub Entry : Type 0
Entry = List ℕ × ℕ

abbrev pub entry : DirNode → Entry
entry n = (c_str n.name, n.idx)

abbrev pub entries : Dir → List Entry
entries dir = map entry (take dir.size dir.node)

-- The index of the first entry of a name, 0 where there is none.
unfoldable pub lookup : List ℕ → List Entry → ℕ
lookup path [] = 0
lookup path ((name, idx) ∷ rest) = if same_string name path then idx else lookup path rest

unfoldable pub has : List ℕ → List Entry → Bool
has path [] = false
has path ((name, _) ∷ rest) = same_string name path || has path rest

-- Fifteen nodes that can be stored, of which the first `size` hold terminated names.
pub record IsValid (dir : Dir) : Type 0 where
  pub storable : IsStorable dir
  pub bounded : dir.size ≤ 15
  pub terminated :
      (i : ℕ) (n : DirNode) → i < dir.size → get_elem? dir.node i ≡ some n → has_nul n.name ≡ true

module _ {ℓ} {A : Type ℓ} where
  -- The last element in front of the others.
  last_first :
      (m : ℕ) (xs : List A) (x : A)
      → length xs ≡ suc m
      → get_elem? xs m ≡ some x
      → Perm (x ∷ take m xs) xs
  last_first m [] x e h = absurd (omega arith)
  last_first zero (y ∷ []) x e h =
      subst (λ t. Perm (t ∷ []) (y ∷ [])) (some-injective _ _ h) (Perm.refl (y ∷ []))
  last_first zero (y ∷ z ∷ xs) x e h = absurd (omega arith)
  last_first (suc m) (y ∷ xs) x e h =
      Perm.trans (Perm.swap y x (take m xs)) (Perm.cons y (last_first m xs x (omega arith) h))

  -- An element replaced by the last one, which is dropped: what is left, and that element.
  pub swap_remove-perm :
      (m i : ℕ) (xs : List A) (x y : A)
      → length xs ≡ suc m
      → get_elem? xs m ≡ some x
      → get_elem? xs i ≡ some y
      → Perm (y ∷ take m (set xs i x)) xs
  swap_remove-perm m i [] x y e last at = absurd (omega arith)
  swap_remove-perm zero zero (z ∷ []) x y e last at =
      subst (λ t. Perm (t ∷ []) (z ∷ [])) (some-injective _ _ at) (Perm.refl (z ∷ []))
  swap_remove-perm zero zero (z ∷ w ∷ xs) x y e last at = absurd (omega arith)
  swap_remove-perm (suc m) zero (z ∷ xs) x y e last at =
      subst (λ t. Perm (t ∷ x ∷ take m xs) (z ∷ xs)) (some-injective _ _ at)
        (Perm.cons z (last_first m xs x (omega arith) last))
  swap_remove-perm zero (suc i) (z ∷ []) x y e last at = cc
  swap_remove-perm zero (suc i) (z ∷ w ∷ xs) x y e last at = absurd (omega arith)
  swap_remove-perm (suc m) (suc i) (z ∷ xs) x y e last at =
      Perm.trans (Perm.swap z y (take m (set xs i x)))
        (Perm.cons z (swap_remove-perm m i xs x y (omega arith) last at))
