-- ===== src/State/LoadNode.antt =====
-- One round of the loop of `state_load` of runtime/state/state.c, on a tree whose nodes all have the
-- room that `create_node` gives and whose ids are known.
use mathlib.Core.Path.{subst}
use phantomid.Common.{
  ℕ, suc, ◌≤◌, ◌<◌, ◌≡◌, refl, sym, ap, ◌∙◌, ◌≢◌, inl, inr, true, [], some, none, arith, ◌==◌,
  ◌>>=◌, eq→==, ne→==, ==_iff, Bool-cases, Option-cases, length,
}
use phantomid.Common.CString.{Str, cstr}
use phantomid.Tree.Store.{Ptr, null, Node, Tree, deref_lem, write}
use phantomid.Tree.Queue.{max_queue_size}
use phantomid.Tree.Forest.{
  Forest, nil, tree, count, occ, All, Holds-join_left, All-join_intro, occ_of_Any, occ-join,
}
use phantomid.Tree.Lookup.{nil_of_no_roots}
use phantomid.Tree.Attach.{attach, count-attach, occ-attach}
use phantomid.Tree.Invariant.{Represents, root_list}
use phantomid.Tree.Create.{Env, create_node, named, create_in}
use phantomid.Tree.Created
use phantomid.Tree.Created.{create_in-Outcome}
use phantomid.State.{NodeState, load_node, restore}
use phantomid.Tree.Made.{held_at}
use phantomid.State.Ids.{times-of_none, unique, at_All, few_children}
use phantomid.State.Shape.{Shape, leaf, shape, times, under}
use phantomid.State.Relabel.{
  kept, relabel, count-relabel, occ-relabel, Represents-relabel, All-relabel_max, shape-relabel,
}

abbrev pub HasRoom : ℕ → Ptr → Node → Type 0
HasRoom max p n = n.max_children ≡ max

pub create_node-HasRoom :
    (max : ℕ) (env : Env) {blank : Node}
    → create_node max env ≡ some blank
    → (blank.max_children ≡ max) × (blank.children ≡ []) × (blank.parent ≡ null)
unfolding create_node
create_node-HasRoom max env made = ground arith

pub create_node-some :
    (max : ℕ) (env : Env)
    → env.node ≢ null
    → env.array ≡ true
    → (blank : Node) × (create_node max env ≡ some blank)
unfolding create_node
create_node-some max env there given = elim (Option-cases (create_node max env)) [
  | inl failed ↦ absurd (ground (arith, ne→== env.node null there))
  | inr made ↦ made
]

All-attach :
    (max : ℕ) (q c : Ptr) (m : Node) (f : Forest)
    → m.max_children ≡ max
    → All (HasRoom max) f
    → All (HasRoom max) (attach q c m f)
unfolding attach
All-attach max q c m nil e fs = tt
All-attach max q c m (tree p n kids rest) e (x, k, r) = elim (Bool-cases (p == q)) [
  | inl here ↦ rw here (x, All-join_intro (HasRoom max) kids (tree c m nil nil) k (e, tt, tt), r)
  | inr away ↦ rw away (x, All-attach max q c m kids e k, All-attach max q c m rest e r)
]

-- A tree in the middle of a load, with `n` rounds left; round `n` takes its memory from `envs n`.
pub record Loaded (max : ℕ) (envs : ℕ → Env) (n : ℕ) (t : Tree) (g : Forest) : Type 0 where
  pub represents : Represents t g nil
  pub room : All (HasRoom max) g
  pub later : (i : ℕ) → i < n → occ (envs i).node g ≡ 0

-- Memory is given in each round, and each time at another address.
pub record Gives (envs : ℕ → Env) : Type 0 where
  pub given : (i : ℕ) → ((envs i).node ≢ null) × ((envs i).array ≡ true)
  pub apart : (i j : ℕ) → (envs i).node ≡ (envs j).node → i ≡ j

module _ (k max : ℕ) (envs : ℕ → Env) (gives : Gives envs) (n : ℕ) (state : NodeState) where
  load_node_made :
      (t u : Tree) (node : Node)
      → create_in k max (envs n) t (some (cstr state.parent_id)) ≡ some ((envs n).node, u)
      → u.heap (envs n).node ≡ some node
      → load_node k max (envs n) state t
        ≡ some (record u { heap = write u.heap (envs n).node (some (restore state node)) })
  unfolding load_node
  load_node_made t u node ran at_c =
      rw (ran, ne→== (envs n).node null (gives.given n).0, ◌>>=◌)
        (rw (deref_lem u.heap (envs n).node (gives.given n).0 at_c, ◌>>=◌) refl)

  -- The round has given the tree a node, and its forest another shape.
  abbrev pub Grown : Tree → Shape → ℕ → Type 0
  Grown t S size =
      (u : Tree) × (g : Forest) × (load_node k max (envs n) state t ≡ some u)
      × Loaded max envs n u g
      × (shape g ≡ S)
      × (count g ≡ size)

  pub grown :
      (t u : Tree) (f : Forest)
      → create_in k max (envs n) t (some (cstr state.parent_id)) ≡ some ((envs n).node, u)
      → Represents u f nil
      → 0 < occ (envs n).node f
      → All (HasRoom max) f
      → ((i : ℕ) → i < n → occ (envs i).node f ≡ 0)
      → Grown t (shape (relabel (envs n).node state f)) (count f)
  grown t u f ran r there room later =
      let c = (envs n).node in
      let (node, at_c) = held_at u.heap c f (Holds-join_left u.heap f nil r.held) there in
      (
        record u { heap = write u.heap c (some (restore state node)) },
        relabel c state f,
        load_node_made t u node ran at_c,
        record {
          represents = Represents-relabel c state u node f nil at_c there r;
          room = All-relabel_max c state max f room;
          later = λ i few. occ-relabel c state (envs i).node f ∙ later i few;
        },
        refl,
        count-relabel c state f,
      )

  pub named_room :
      (blank : Node) (t : Tree)
      → blank.max_children ≡ max
      → (named blank (envs n) t).max_children ≡ max
  unfolding named
  named_room blank t e = e

  -- What each outcome of `tree_create_node` means here: only the new child is possible.
  after_create :
      (t u : Tree) (g : Forest) (s : Str) (p : Ptr)
      → Loaded max envs (suc n) t g
      → count g ≤ max
      → times s (shape g) ≡ 1
      → cstr state.parent_id ≡ s
      → create_in k max (envs n) t (some s) ≡ some (p, u)
      → Created.Outcome max (envs n) t (some s) g nil p u
      → Grown t (under s (leaf (kept state)) (shape g)) (suc (count g))
  after_create t u g s p l few once is ran (Created.no_memory failed) =
      let (blank, made) = create_node-some max (envs n) (gives.given n).0 (gives.given n).1 in
      absurd (cc)
  after_create t u g s p l few once is ran (Created.no_parent_given e has_root r) = absurd (cc)
  after_create t u g s p l few once is ran
        (Created.no_such_parent {sought} e has_root none_there r) =
      let same : s ≡ sought = cc in
      absurd
        (omega (arith, once, ap (λ x. times x (shape g)) same, times-of_none sought g none_there))
  after_create t u g s p l few once is ran
        (Created.parent_full {sought} {q} e there at_q id full r) =
      let held = Holds-join_left t.heap g nil l.represents.held in
      let in_g = occ_of_Any (λ p n. n.id ≡ sought) q g there in
      absurd (
        omega (
          arith,
          full,
          few,
          at_All (HasRoom max) t.heap q g held l.room in_g at_q,
          at_All (λ p n. length n.children < count g) t.heap q g held
              (few_children t.heap g (count g) held (omega arith)) in_g at_q,
        ))
  after_create t u g s p l few once is ran (Created.rooted made no_root r) =
      let none_there = nil_of_no_roots g (l.represents.rooted ∙ ap root_list no_root) in
      absurd (omega (arith, once, ap (λ f. times s (shape f)) none_there))
  after_create t u g s p l few once is ran
        (Created.attached {sought} {q} {parent} {blank} made e there at_q id r) =
      let same : s ≡ sought = cc in
      let held = Holds-join_left t.heap g nil l.represents.held in
      let in_g = occ_of_Any (λ p n. n.id ≡ sought) q g there in
      let single : occ q g ≡ 1 = omega (arith, in_g, l.represents.distinct q, occ-join q g nil) in
      let c = (envs n).node in
      let m = record (named blank (envs n) t) { parent = q } in
      let grown_occ = λ (a : Ptr). occ-attach q c m a g (omega (arith, single)) in
      let new = l.later n (omega arith) in
      let (v, f, done, loaded, is_shape, is_count) =
        grown t u (attach q c m g) (ap (λ x. create_in k max (envs n) t (some x)) is ∙ ran) r
          (ground (arith, grown_occ c, single, eq→== c c refl))
          (All-attach max q c m g (named_room blank t (create_node-HasRoom max (envs n) made).0)
            l.room)
          (λ i early. ground (
            arith,
            grown_occ (envs i).node,
            l.later i (omega arith),
            ==_iff c (envs i).node,
            gives.apart n i,
          )) in
      (
        v,
        f,
        done,
        loaded,
        is_shape
            ∙ shape-relabel c state q m s g new (
                subst (λ x. All (λ p n. (p ≡ q → n.id ≡ x) × (n.id ≡ x → p ≡ q)) g) (sym same)
                  (unique sought t.heap q g (omega (arith, once, ap (λ x. times x (shape g)) same))
                    there held at_q id)),
        is_count ∙ omega (arith, count-attach q c m g (omega (arith, single)), single),
      )

  -- A round of the loop of `state_load` hangs the node up below the one with its parent's id.
  pub load_node-under :
      (t : Tree) (g : Forest) (s : Str)
      → Loaded max envs (suc n) t g
      → count g < k
      → count g ≤ max_queue_size
      → count g ≤ max
      → times s (shape g) ≡ 1
      → cstr state.parent_id ≡ s
      → Grown t (under s (leaf (kept state)) (shape g)) (suc (count g))
  load_node-under t g s l fuel small few once is =
      let fresh : t.heap (envs n).node ≡ none =
        l.represents.only (envs n).node
          (omega (arith, l.later n (omega arith), occ-join (envs n).node g nil)) in
      let (p, u, ran, outcome) =
        create_in-Outcome k max (envs n) t g nil fresh fuel small l.represents (some s) in
      after_create t u g s p l few once is ran outcome
