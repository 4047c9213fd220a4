-- ===== src/BlockGroup/Update.antt =====
-- A change of one group of the array, as the other operations see it.
use chisai_fs.Base.{
  ℕ, ◌/◌, ◌%◌, ◌<◌, ◌≡◌, inl, inr, some, ◌∙◌, List, arith, ◌==◌, if◌then◌else◌, length, get_elem?,
  set, Bool-cases, get_elem?-set, get_or-set, length-set, lt_of_get_elem?, get_or_of_get_elem?,
}
use chisai_fs.Bitvec.Laws.{bit_at}
use chisai_fs.BlockGroup.{BlockGroup, Kind, bitmap}
use chisai_fs.BlockGroup.Valid.{IsChange, IsValid, taken, other, blank, IsTable-IsChange}

-- Changing a group in place keeps the array well-formed.
pub IsValid-set :
    (n : ℕ) (blk_grps : List BlockGroup) (i : ℕ) (k : Kind) (g g' : BlockGroup)
    → IsValid n blk_grps
    → get_elem? blk_grps i ≡ some g
    → IsChange n k g g'
    → IsValid n (set blk_grps i g')
IsValid-set n blk_grps i k g g' v at c =
    let inside = lt_of_get_elem? blk_grps i at in
    record {
      head = if i == 0 then g' else v.head;
      at_head = ground (arith, get_elem?-set blk_grps i 0 g' inside, v.at_head);
      counted = ground (arith, length-set blk_grps i g', v.at_head, v.counted, c.same_groups);
      numbered = ground (arith, v.at_head, v.numbered, c.same_inode_num);
      positive = v.positive;
      fits = rw length-set v.fits;
      tables = λ j h there k'. elim (Bool-cases (i == j)) [
        | inl same ↦
            let e : h ≡ g' = ground (arith, get_elem?-set blk_grps i j g' inside) in
            rw e (IsTable-IsChange n k g g' (v.tables i g at) c k')
        | inr differ ↦ v.tables j h (ground (arith, get_elem?-set blk_grps i j g' inside)) k'
      ];
    }

-- The view after the change of one group.
pub taken-set :
    (n : ℕ) (k : Kind) (blk_grps : List BlockGroup) (i j : ℕ) (g' : BlockGroup)
    → i < length blk_grps
    → taken k n (set blk_grps i g') j
      ≡ (if i == j / n then bit_at (bitmap k g') (j % n) else taken k n blk_grps j)
taken-set n k blk_grps i j g' lt =
    rw (get_or-set blank blk_grps i (j / n) g' lt)
      (elim (Bool-cases (i == j / n)) [ inl same ↦ rw same | inr differ ↦ rw differ ])

-- A change of one kind does not show in the view of the other.
pub taken-set-other :
    (n : ℕ) (k : Kind) (blk_grps : List BlockGroup) (i j : ℕ) (g g' : BlockGroup)
    → get_elem? blk_grps i ≡ some g
    → IsChange n k g g'
    → taken (other k) n (set blk_grps i g') j ≡ taken (other k) n blk_grps j
taken-set-other n k blk_grps i j g g' at c =
    taken-set n (other k) blk_grps i j g' (lt_of_get_elem? blk_grps i at)
    ∙ elim (Bool-cases (i == j / n)) [
      | inl same ↦
          let e : j / n ≡ i = ground arith in
          rw (same, c.other_bitmap, e, get_or_of_get_elem? blk_grps i blank at)
      | inr differ ↦ rw differ
    ]
