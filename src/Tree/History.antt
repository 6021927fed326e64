-- ===== src/Tree/History.antt =====
-- The contexts that calls of `tree_create_node` and `tree_delete_node` lead to, from an empty one.
use mathlib.Core.Path.{subst}
use phantomid.Common.{ℕ, suc, ◌+◌, ◌≤◌, ◌<◌, ◌≡◌, refl, ap, Bool, Option, some, none, arith}
use phantomid.Common.CString.{Str}
use phantomid.Tree.Store.{Ptr, Tree}
use phantomid.Tree.Queue.{max_queue_size}
use phantomid.Tree.Forest.{Forest, nil, count, count-join, occ-join}
use phantomid.Tree.Invariant.{Represents}
use phantomid.Tree.Attach.{count-attach}
use phantomid.Tree.Orphans.{set_free}
use phantomid.Tree.Rehomed.{count-set_free}
use phantomid.Tree.Create.{Env, new_tree, create_in}
use phantomid.Tree.Created
use phantomid.Tree.Created.{create_in-Outcome}
use phantomid.Tree.Delete.{delete_in}
use phantomid.Tree.Deleted
use phantomid.Tree.Deleted.{delete_in-Outcome}
use phantomid.Tree.DeleteBelow.{count-new}

-- After at most `n` creations, each at an address that is free then. A call that fails is a step too.
pub data Reach (k max : ℕ) : ℕ → Tree → Type 0 where
  begin : Reach k max 0 (new_tree (λ _. none) 0)
  create :
      {n : ℕ} {t u : Tree} {p : Ptr} (env : Env) (parent_id : Option Str)
      → Reach k max n t
      → n < max_queue_size
      → t.heap env.node ≡ none
      → create_in k max env t parent_id ≡ some (p, u)
      → Reach k max (suc n) u
  delete :
      {n : ℕ} {t u : Tree} {done : Bool} (node_id : Str)
      → Reach k max n t
      → delete_in k t node_id ≡ some (done, u)
      → Reach k max n u

-- The context represents some forest of at most `n` nodes.
pub data Sound (n : ℕ) (t : Tree) : Type 0 where
  sound : (main lost : Forest) → Represents t main lost → count main + count lost ≤ n → Sound n t

pub new_tree-Represents : (counter : ℕ) → Represents (new_tree (λ _. none) counter) nil nil
unfolding new_tree
new_tree-Represents counter = record {
  rooted = refl;
  held = tt;
  parents = tt;
  distinct = λ a. omega arith;
  fits = tt;
  only = λ a e. refl;
  total = refl;
}

created-Sound :
    {max n : ℕ} {env : Env} {t u : Tree} {parent_id : Option Str} {p : Ptr} (main lost : Forest)
    → Represents t main lost
    → count main + count lost ≤ n
    → Created.Outcome max env t parent_id main lost p u
    → Sound (suc n) u
created-Sound main lost r b (Created.no_memory made) = sound main lost r (omega arith)
created-Sound main lost r b (Created.no_parent_given e f r') = sound main lost r' (omega arith)
created-Sound main lost r b (Created.no_such_parent e has_root f r') =
    sound main lost r' (omega arith)
created-Sound main lost r b (Created.parent_full e f g h i r') = sound main lost r' (omega arith)
created-Sound main lost r b (Created.rooted made e r') = sound _ lost r' (omega arith)
created-Sound {env} main lost r b (Created.attached {q} made e f g h r') = sound _ lost r' (
    omega (
      arith,
      count-attach q env.node _ main (omega (arith, r.distinct q, occ-join q main lost)),
      r.distinct q,
      occ-join q main lost,
    ))

deleted-Sound :
    {n : ℕ} {t u : Tree} {node_id : Str} {done : Bool} (main lost : Forest)
    → Represents t main lost
    → count main + count lost ≤ n
    → Deleted.Outcome t node_id main lost done u
    → Sound n u
deleted-Sound main lost r b (Deleted.no_such_node f) = sound main lost r b
deleted-Sound main lost r b (Deleted.root_deleted {ks} whole id r') =
    sound nil _ r' (omega (arith, count-join (set_free ks) lost, count-set_free ks, ap count whole))
deleted-Sound {t} main lost r b (Deleted.child_deleted s top id r') =
    sound _ _ r' (omega (arith, count-new t main lost r s top))

Reach-le : {k max n : ℕ} {t : Tree} → Reach k max n t → n ≤ max_queue_size
Reach-le begin = omega arith
Reach-le (create env parent_id r few fresh made) = few
Reach-le (delete node_id r ran) = Reach-le r

create-Sound :
    (k max n : ℕ) (env : Env) (t : Tree) {u : Tree} {p : Ptr} (parent_id : Option Str)
    → max_queue_size < k
    → n < max_queue_size
    → t.heap env.node ≡ none
    → create_in k max env t parent_id ≡ some (p, u)
    → Sound n t
    → Sound (suc n) u
create-Sound k max n env t {u} parent_id enough few fresh made (sound main lost r b) =
    let (q, v, ran, is) =
      create_in-Outcome k max env t main lost fresh (omega arith) (omega arith) r parent_id in
    let same : v ≡ u = cc in subst (Sound (suc n)) same (created-Sound main lost r b is)

delete-Sound :
    (k n : ℕ) (t : Tree) {u : Tree} {done : Bool} (node_id : Str)
    → max_queue_size < k
    → n ≤ max_queue_size
    → delete_in k t node_id ≡ some (done, u)
    → Sound n t
    → Sound n u
delete-Sound k n t {u} node_id enough few ran_so (sound main lost r b) =
    let (done, v, ran, is) =
      delete_in-Outcome k t main lost (omega arith) (omega arith) r node_id in
    let same : v ≡ u = cc in subst (Sound n) same (deleted-Sound main lost r b is)

-- Let the fuel `k` of the searches be over 1000. Every context that is reached from an empty one by
-- calls of `tree_create_node`, at most 1000 and each at a free address, and of `tree_delete_node`,
-- in any order, holds a forest: the pointers agree with it, no node stands in two places, none has
-- more children than its array has room for, nothing else is allocated, and the counter of the
-- nodes is their number modulo 2^64, which is at most the number of the creations.
pub Reach-Sound : {k max n : ℕ} {t : Tree} → max_queue_size < k → Reach k max n t → Sound n t
Reach-Sound enough begin = sound nil nil (new_tree-Represents 0) (omega arith)
Reach-Sound {k} {max} enough (create {n} {t} env parent_id r few fresh made) =
    create-Sound k max n env t parent_id enough few fresh made (Reach-Sound enough r)
Reach-Sound {k} {n} enough (delete {t} node_id r ran) =
    delete-Sound k n t node_id enough (Reach-le r) ran (Reach-Sound enough r)
