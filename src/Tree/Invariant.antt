-- ===== src/Tree/Invariant.antt =====
-- What it means that the memory of a context holds a forest: the tree below the root, and the trees
-- that no pointer of the context leads to any more.
use phantomid.Common.{◌%◌, ◌≤◌, ◌≡◌, List, [], ◌∷◌, none, ◌==◌, if◌then◌else◌, length, u64_mod}
use phantomid.Tree.Store.{Ptr, null, Node, Tree}
use phantomid.Tree.Forest.{Forest, roots, count, join, occ, All, Holds, Parents}

-- The trees that hang on one pointer.
abbrev pub root_list : Ptr → List Ptr
root_list p = if p == null then [] else p ∷ []

-- No node has more children than its array has room for.
abbrev pub Fits : Ptr → Node → Type 0
Fits p n = length n.children ≤ n.max_children

-- `main` is the tree below the root, `lost` are the other trees.
pub record Represents (t : Tree) (main lost : Forest) : Type 0 where
  pub rooted : roots main ≡ root_list t.root
  pub held : Holds t.heap (join main lost)
  pub parents : Parents null (join main lost)
  pub distinct : (a : Ptr) → occ a (join main lost) ≤ 1
  pub fits : All Fits (join main lost)
  pub only : (a : Ptr) → occ a (join main lost) ≡ 0 → t.heap a ≡ none
  pub total : t.total_nodes ≡ count (join main lost) % u64_mod
