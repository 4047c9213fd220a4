-- ===== src/Fs/Tree/Grows.antt =====
-- Images that keep what another one has, and the paths that lead on in them.
use mathlib.Core.Path.{subst}
use chisai_fs.Base.{ℕ, ◌≤◌, ◌≡◌, sym, ◌∙◌, some, List, [], ◌∷◌, ◌++◌, get_elem?, length}
use chisai_fs.Base.CString.{IsString}
use chisai_fs.Dir.{Dir}
use chisai_fs.Dir.Entries.{entries, lookup}
use chisai_fs.Fs.Path.Tokens.{IsName, tokens-append}
use chisai_fs.Fs.Tree.{Image, HasInode, HasDir, Leads, here, step, Resolves}
use chisai_fs.Inode.{Inode, root_inode}

-- The directory has at least the names of the other, with the same indices.
abbrev pub IsLarger : Dir → Dir → Type 0
IsLarger dir dir' =
    (name : List ℕ)
    → 1 ≤ lookup name (entries dir)
    → lookup name (entries dir') ≡ lookup name (entries dir)

-- Every inode stays what it is, and every directory keeps its names.
pub record Grows (m m' : Image) : Type 0 where
  pub inodes : (idx : ℕ) (inode : Inode) → HasInode m idx inode → HasInode m' idx inode
  pub dirs :
      (block : ℕ) (dir : Dir)
      → HasDir m block dir
      → (dir' : Dir) × HasDir m' block dir' × IsLarger dir dir'

pub Leads-Grows :
    {m m' : Image} {target : ℕ} {target_inode : Inode} {toks : List (List ℕ)} {idx : ℕ}
    {inode : Inode}
    → Grows m m'
    → Leads m target target_inode toks idx inode
    → Leads m' target target_inode toks idx inode
Leads-Grows g here = here
Leads-Grows g
      (step {block} {next} {next_inode} {dir} {token} at there string named positive inode_there
        leads) =
    let (dir', there', larger) = g.dirs block dir there in
    step at there' string (larger token (subst (λ x. 1 ≤ x) (sym named) positive) ∙ named) positive
      (g.inodes next next_inode inode_there) (Leads-Grows g leads)

-- Where nothing is lost, every path that led to an inode leads to it still.
pub Resolves-Grows :
    (m m' : Image) (path : List ℕ) (idx : ℕ) (inode : Inode)
    → Grows m m'
    → Resolves m path idx inode
    → Resolves m' path idx inode
Resolves-Grows m m' path idx inode g r = record {
  root = r.root;
  has_root = g.inodes _ r.root r.has_root;
  leads = Leads-Grows g r.leads;
}

-- One component more.
Leads-on :
    {m : Image} {parent block next : ℕ} {parent_inode next_inode : Inode} {dir : Dir}
    (name : List ℕ) {toks : List (List ℕ)} {idx : ℕ} {inode : Inode}
    → Leads m parent parent_inode toks idx inode
    → get_elem? parent_inode.direct_blks 0 ≡ some block
    → HasDir m block dir
    → IsString name
    → lookup name (entries dir) ≡ next
    → 1 ≤ next
    → HasInode m next next_inode
    → Leads m next next_inode (toks ++ (name ∷ [])) idx inode
Leads-on name here at there string named positive has = step at there string named positive has here
Leads-on name (step at0 there0 string0 named0 positive0 has0 leads) at there string named positive
      has =
    step at0 there0 string0 named0 positive0 has0
      (Leads-on name leads at there string named positive has)

-- A name in a directory that a path leads to.
pub Resolves-name :
    (m : Image) (parent_path name : List ℕ) (parent block next : ℕ)
    (parent_inode next_inode : Inode) (dir : Dir)
    → Resolves m parent_path parent parent_inode
    → get_elem? parent_inode.direct_blks 0 ≡ some block
    → HasDir m block dir
    → IsString name
    → IsName name
    → 1 ≤ length name
    → lookup name (entries dir) ≡ next
    → 1 ≤ next
    → HasInode m next next_inode
    → Resolves m (parent_path ++ (b'/' ∷ name)) next next_inode
Resolves-name m parent_path name parent block next parent_inode next_inode dir r at there string
      no_slash some_name named positive has =
    record {
      root = r.root;
      has_root = r.has_root;
      leads =
          subst (λ t. Leads m next next_inode t root_inode r.root)
            (sym (tokens-append parent_path name no_slash some_name))
            (Leads-on name r.leads at there string named positive has);
    }
