-- ===== src/State/AnyFile.antt =====
-- `state_load` of runtime/state/state.c on any file: it returns, and the tree stays one.
use phantomid.Common.{
  ℕ, zero, suc, ◌+◌, ◌≤◌, ◌<◌, ◌≡◌, refl, ◌≢◌, inl, inr, Bool, true, false, Option, some, none,
  arith, ◌==◌, ◌>>=◌, eq→==, ne→==, ==_iff, Bool-cases, length,
}
use phantomid.Common.CString.{Bytes, cstr}
use phantomid.Common.Files.{File, open_rb, fread}
use phantomid.Tree.Store.{Ptr, null, Tree, deref_lem, write}
use phantomid.Tree.Queue.{max_queue_size}
use phantomid.Tree.Forest.{Forest, count, join, occ, Holds-join_left, occ_of_Any, occ-join}
use phantomid.Tree.Attach.{attach, count-attach, occ-attach}
use phantomid.Tree.Invariant.{Represents}
use phantomid.Tree.Create.{Env, named, create_in}
use phantomid.Tree.Created
use phantomid.Tree.Created.{create_in-Outcome, create_node_lem}
use phantomid.State.{
  StateHeader, NodeState, StateContext, restore, load_node, load_nodes, header_ok, load_in,
  state_load,
}
use phantomid.Tree.Made.{held_at}
use phantomid.State.Relabel.{relabel, count-relabel, occ-relabel, Represents-relabel}

-- What the system gives to the rounds: NULL, or an address that no other round gets.
abbrev pub Distinct : (ℕ → Env) → Type 0
Distinct envs = (i j : ℕ) → (envs i).node ≢ null → (envs i).node ≡ (envs j).node → i ≡ j

-- The tree of a context that holds the lost trees too, with `n` rounds left.
pub record Going (envs : ℕ → Env) (n : ℕ) (t : Tree) (main lost : Forest) : Type 0 where
  pub represents : Represents t main lost
  pub later : (i : ℕ) → i < n → occ (envs i).node (join main lost) ≡ 0

module _ (k max : ℕ) (envs : ℕ → Env) (distinct : Distinct envs) (n : ℕ) (state : NodeState)
    (lost : Forest) where
  abbrev Goes : Tree → Forest → Type 0
  Goes t main =
      (u : Tree) × (after : Forest) × (load_node k max (envs n) state t ≡ some u)
      × Going envs n u after lost
      × (count after ≤ suc (count main))

  none_made :
      (t u : Tree) (main : Forest)
      → create_in k max (envs n) t (some (cstr state.parent_id)) ≡ some (null, u)
      → Going envs (suc n) t main lost
      → Represents u main lost
      → Goes t main
  unfolding load_node
  none_made t u main ran g r = (
    u,
    main,
    rw (ran, ◌>>=◌) refl,
    record { represents = r; later = λ i early. g.later i (omega arith) },
    omega arith,
  )

  one_made :
      (t u : Tree) (main f : Forest)
      → (envs n).node ≢ null
      → create_in k max (envs n) t (some (cstr state.parent_id)) ≡ some ((envs n).node, u)
      → Represents u f lost
      → 0 < occ (envs n).node f
      → ((i : ℕ) → i < n → occ (envs i).node (join f lost) ≡ 0)
      → count f ≤ suc (count main)
      → Goes t main
  unfolding load_node
  one_made t u main f there ran r occurs later size =
      let c = (envs n).node in
      let (node, at_c) = held_at u.heap c f (Holds-join_left u.heap f lost r.held) occurs in
      (
        record u { heap = write u.heap c (some (restore state node)) },
        relabel c state f,
        rw (ran, ne→== c null there, ◌>>=◌) (rw (deref_lem u.heap c there at_c, ◌>>=◌) refl),
        record {
          represents = Represents-relabel c state u node f lost at_c occurs r;
          later = λ i early. omega (
            arith,
            later i early,
            occ-join (envs i).node f lost,
            occ-join (envs i).node (relabel c state f) lost,
            occ-relabel c state (envs i).node f,
          );
        },
        omega (arith, size, count-relabel c state f),
      )

  after_create :
      (t u : Tree) (main : Forest) (p : Ptr)
      → Going envs (suc n) t main lost
      → create_in k max (envs n) t (some (cstr state.parent_id)) ≡ some (p, u)
      → Created.Outcome max (envs n) t (some (cstr state.parent_id)) main lost p u
      → Goes t main
  after_create t u main p g ran (Created.no_memory failed) = none_made t u main ran g g.represents
  after_create t u main p g ran (Created.no_parent_given e has_root r) = none_made t u main ran g r
  after_create t u main p g ran (Created.no_such_parent e has_root f r) = none_made t u main ran g r
  after_create t u main p g ran (Created.parent_full e there at_q id full r) =
      none_made t u main ran g r
  after_create t u main p g ran (Created.rooted {blank} made no_root r) =
      let c = (envs n).node in
      let there : c ≢ null = (create_node_lem max (envs n) blank made).0 in
      one_made t u main _ there ran r (ground (arith, eq→== c c refl))
        (λ i early. ground (
          arith,
          g.later i (omega arith),
          occ-join (envs i).node main lost,
          ==_iff c (envs i).node,
          distinct n i there,
        ))
        (omega arith)
  after_create t u main p g ran
        (Created.attached {sought} {q} {parent} {blank} made e there at_q id r) =
      let c = (envs n).node in
      let leaf = record (named blank (envs n) t) { parent = q } in
      let ok : c ≢ null = (create_node_lem max (envs n) blank made).0 in
      let in_main = occ_of_Any (λ p n. n.id ≡ sought) q main there in
      let single : occ q main ≡ 1 =
        omega (arith, in_main, g.represents.distinct q, occ-join q main lost) in
      let grown = λ (a : Ptr). occ-attach q c leaf a main (omega (arith, single)) in
      one_made t u main (attach q c leaf main) ok ran r
        (ground (arith, grown c, single, eq→== c c refl))
        (λ i early. ground (
          arith,
          g.later i (omega arith),
          occ-join (envs i).node main lost,
          occ-join (envs i).node (attach q c leaf main) lost,
          grown (envs i).node,
          ==_iff c (envs i).node,
          distinct n i ok,
        ))
        (omega (arith, count-attach q c leaf main (omega (arith, single)), single))

  load_node-Going :
      (t : Tree) (main : Forest)
      → Going envs (suc n) t main lost
      → count main < k
      → count main ≤ max_queue_size
      → Goes t main
  load_node-Going t main g fuel small =
      let fresh = g.represents.only (envs n).node (g.later n (omega arith)) in
      let (p, u, ran, outcome) =
        create_in-Outcome k max (envs n) t main lost fresh fuel small g.represents
          (some (cstr state.parent_id)) in
      after_create t u main p g ran outcome

module _ (header_size node_size : ℕ) (header_image : StateHeader → Bytes)
    (node_image : NodeState → Bytes) (parse_header : Bytes → StateHeader)
    (parse_node : Bytes → NodeState) where
  load_nodes-Going :
      (k max : ℕ) (envs : ℕ → Env) (n : ℕ) (file : File) (t : Tree) (main lost : Forest)
      → Distinct envs
      → Going envs n t main lost
      → count main + n ≤ k
      → count main + n ≤ max_queue_size
      → (done : Bool) × (u : Tree) × (after : Forest) × (load_nodes header_size node_size
            header_image node_image parse_header parse_node k max envs n file t
          ≡ some (done, u))
        × Represents u after lost
  unfolding load_nodes
  load_nodes-Going k max envs zero file t main lost distinct g fuel small =
      (true, t, main, refl, g.represents)
  load_nodes-Going k max envs (suc n) file t main lost distinct g fuel small =
      elim (Bool-cases (length (fread file node_size).0 == node_size)) [
        | inl whole ↦
            let (u, f, ran, going, size) =
              load_node-Going k max envs distinct n (parse_node (fread file node_size).0) lost t
                main g (omega arith) (omega arith) in
            let (done, v, after, rest, r) =
              load_nodes-Going k max envs n (fread file node_size).1 u f lost distinct going
                (omega (arith, fuel, size)) (omega (arith, small, size)) in
            (done, v, after, rw (whole, load_nodes) (rw (ran, ◌>>=◌) rest), r)
        | inr short ↦ (false, t, main, rw (short, load_nodes) refl, g.represents)
      ]

  -- The number of records that a file announces, where its header is accepted.
  abbrev pub announced : Option Bytes → ℕ
  announced none = 0
  announced (some bytes) = (parse_header (fread (open_rb bytes) header_size).0).node_count

  -- Let the context hold a forest whose tree, with the records that the file announces, has at most
  -- 1000 nodes and no more than the fuel, and let `calloc` give in each round NULL or an address
  -- that is free and that no other round gets. Then `state_load` of any file, or of none, returns
  -- without a fault, changes only the header of its context, and leaves a tree that its memory
  -- holds, beside the same lost trees.
  pub state_load-Represents :
      (k max : ℕ) (envs : ℕ → Env) (ctx : StateContext) (t : Tree) (file : Option Bytes)
      (main lost : Forest)
      → Distinct envs
      → Represents t main lost
      → ((i : ℕ) → i < announced file → occ (envs i).node (join main lost) ≡ 0)
      → count main + announced file ≤ k
      → count main + announced file ≤ max_queue_size
      → (done : Bool) × (header : StateHeader) × (u : Tree) × (after : Forest) × (state_load
            header_size node_size header_image node_image parse_header parse_node k max envs
            (some ctx)
            (some t)
            file
          ≡ some (done, some (record ctx { header = header }), some u))
        × Represents u after lost
  unfolding state_load load_in
  state_load-Represents k max envs ctx t none main lost distinct r later fuel small =
      (false, ctx.header, t, main, refl, r)
  state_load-Represents k max envs ctx t (some bytes) main lost distinct r later fuel small =
      let header = (fread (open_rb bytes) header_size).0 in
      elim (Bool-cases
        (header_ok header_size node_size header_image node_image parse_header parse_node header)) [
          | inl accepted ↦
              let (done, u, after, ran, kept) =
                load_nodes-Going k max envs (parse_header header).node_count
                  (fread (open_rb bytes) header_size).1 t main lost distinct
                  (record { represents = r; later = later }) fuel small in
              (
                done,
                parse_header header,
                u,
                after,
                rw (accepted, ◌>>=◌) (rw (ran, ◌>>=◌) refl),
                kept,
              )
          | inr refused ↦ (false, ctx.header, t, main, rw refused refl, r)
        ]
