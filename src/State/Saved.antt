-- ===== src/State/Saved.antt =====
-- What `state_save` of runtime/state/state.c writes, and what the other operations make of it.
use mathlib.Core.Path.{ap₂}
use phantomid.Common.{
  ℕ, suc, ◌+◌, ◌%◌, ◌≤◌, ◌<◌, ◌≡◌, refl, sym, ap, ◌∙◌, ◌≢◌, inl, inr, true, false, List, [], ◌∷◌,
  ◌++◌, append-nil, append_assoc, Option, none, some, arith, if◌then◌else◌, ◌>>=◌, eq→==, ne→==,
  Bool-cases, length, length-append, u64_mod,
}
use phantomid.Common.CString.{Str, Bytes, strncpy}
use phantomid.Common.Files.{
  File, open_wb, fwrite, fseek, AtEnd, fwrite_end, fwrite_front, fwrite-AtEnd,
}
use phantomid.Interface.State.RoundTrip.{sum_chunks_unreadable}
use phantomid.Tree.Store.{Ptr, null, Node, Heap, Tree, deref, deref_lem}
use phantomid.Tree.Traverse.{tree_traverse_dfs, visits, visits-append}
use phantomid.Tree.Walk.{tree_traverse_dfs-preorder}
use phantomid.Tree.Forest.{
  Forest, nil, tree, count, preorder, Holds, Parents, length-preorder, Holds-join_left,
  Parents-join_parts,
}
use phantomid.Tree.Invariant.{Represents}
use phantomid.State.{
  StateHeader, NodeState, StateContext, count_nodes, zeros, parent_id_of, node_state, SaveEnv,
  counted, sealed, save_node, finish_save, write_tree, state_save,
}

-- Counting visits.
visits-count_nodes :
    (xs : List (Ptr × Node)) (c : ℕ)
    → c < u64_mod
    → visits count_nodes xs c ≡ (c + length xs) % u64_mod
unfolding count_nodes
visits-count_nodes [] c h = omega arith
visits-count_nodes ((p, n) ∷ xs) c h =
    visits-count_nodes xs ((c + 1) % u64_mod) (omega arith) ∙ omega arith

-- The parent's id as it is stored: zeros for a root.
abbrev pub stored_id : Option Str → Bytes
stored_id none = zeros 64
stored_id (some id) = strncpy (zeros 64) id 63

-- Where the nodes of a forest hang: on NULL, or on a node with the id.
abbrev pub HangsOn : Heap → Ptr → Option Str → Type 0
HangsOn h par none = par ≡ null
HangsOn h par (some id) = (par ≢ null) × (n : Node) × (h par ≡ some n) × (n.id ≡ id)

parent_id_of-HangsOn :
    (h : Heap) (par : Ptr) (up : Option Str) (node : Node)
    → HangsOn h par up
    → node.parent ≡ par
    → parent_id_of h node ≡ some (stored_id up)
unfolding parent_id_of
parent_id_of-HangsOn h par none node on e = rw (eq→== node.parent null (e ∙ on)) refl
parent_id_of-HangsOn h par (some id) node (ne, n, at_par, same) e =
    rw
      (
        ne→== node.parent null (λ z. ne (sym e ∙ z)),
        ap (deref h) e,
        deref_lem h par ne at_par,
        ◌>>=◌,
      )
      (ap (λ s. some (strncpy (zeros 64) s 63)) same)

module _ (node_image : NodeState → Bytes) where
  -- The records of a forest in preorder, each with the id of the node it hangs on.
  abbrev pub records : Option Str → Forest → Bytes
  records up nil = []
  records up (tree p n kids rest) =
      node_image (node_state n (stored_id up)) ++ (records (some n.id) kids ++ records up rest)

-- The context after a save. A stream that was opened for writing gives nothing to the checksum; where
-- there is no buffer, the old checksum stays.
abbrev pub saved_context : SaveEnv → Forest → StateContext → StateContext
saved_context env main ctx =
    sealed (if env.malloc_ok then 0 else ctx.header.checksum)
      (counted (count main % u64_mod) env.now ctx)

-- A write at the end of a stream.
abbrev extended : File → Bytes → File
extended file bytes = record file {
  content = file.content ++ bytes;
  position = file.position + length bytes;
}

fwrite-extended :
    (file : File) (bytes : Bytes) → AtEnd file → fwrite file bytes ≡ extended file bytes
unfolding fwrite
fwrite-extended file bytes e =
    ap (λ (c : Bytes). record file { content = c; position = file.position + length bytes })
      (fwrite_end file bytes e)

extended-extended :
    (file : File) (a b : Bytes) → extended (extended file a) b ≡ extended file (a ++ b)
extended-extended file a b =
    ap₂ (λ (c : Bytes) (n : ℕ). record file { content = c; position = n })
      (append_assoc file.content a b) (omega (arith, length-append a b))

extended-AtEnd : (file : File) (a : Bytes) → AtEnd file → AtEnd (extended file a)
extended-AtEnd file a e = omega (arith, e, length-append file.content a)

module _ (header_size node_size : ℕ) (header_image : StateHeader → Bytes)
    (node_image : NodeState → Bytes) (parse_header : Bytes → StateHeader)
    (parse_node : Bytes → NodeState) where
  abbrev saving : Heap → Ptr → Node → Option File → Option File
  saving = save_node header_size node_size header_image node_image parse_header parse_node

  step :
      (h : Heap) (par : Ptr) (up : Option Str) (p : Ptr) (n : Node) (file : File)
      → HangsOn h par up
      → n.parent ≡ par
      → AtEnd file
      → saving h p n (some file) ≡ some (extended file (node_image (node_state n (stored_id up))))
  unfolding save_node
  step h par up p n file on pn e =
      rw (parent_id_of-HangsOn h par up n on pn, ◌>>=◌)
        (ap some (fwrite-extended file (node_image (node_state n (stored_id up))) e))

  -- Saving the nodes of a forest appends their records.
  visits-save_node :
      (h : Heap) (par : Ptr) (up : Option Str) (f : Forest) (file : File)
      → Holds h f
      → Parents par f
      → HangsOn h par up
      → AtEnd file
      → visits (saving h) (preorder f) (some file) ≡ some (extended file (records node_image up f))
  unfolding save_node
  visits-save_node h par up nil file held ps on e =
      ap₂ (λ (c : Bytes) (n : ℕ). some (record file { content = c; position = n }))
        (sym (append-nil file.content)) (omega arith)
  visits-save_node h par up (tree p n kids rest) file (ne, at_p, cs, hk, hr) (pn, pk, pr) on e =
      let own = node_image (node_state n (stored_id up)) in
      let below = records node_image (some n.id) kids in
      let first = extended file own in
      let at_end = extended-AtEnd file own e in
      let kids_done =
        visits-save_node h p (some n.id) kids first hk pk (ne, n, at_p, refl) at_end in
      let rest_done =
        visits-save_node h par up rest (extended first below) hr pr on
          (extended-AtEnd first below at_end) in
      ap (visits (saving h) (preorder kids ++ preorder rest)) (step h par up p n file on pn e)
      ∙ visits-append (saving h) (preorder kids) (preorder rest) (some first)
      ∙ ap (visits (saving h) (preorder rest)) kids_done
      ∙ rest_done
      ∙ ap some (
          extended-extended first below (records node_image up rest)
          ∙ extended-extended file own (below ++ records node_image up rest))

  module _ (length-header_image : (h : StateHeader) → length (header_image h) ≡ header_size) where
    finish_save_lem :
        (k : ℕ) (env : SaveEnv) (ctx : StateContext) (file : File) (rest : Bytes)
        → file.readable ≡ false
        → file.content ≡ header_image ctx.header ++ rest
        → let after = sealed (if env.malloc_ok then 0 else ctx.header.checksum) ctx in
          finish_save header_size node_size header_image node_image parse_header parse_node
            (suc k)
            env
            ctx
            file
          ≡ some (true, after, some (header_image after.header ++ rest))
    unfolding finish_save
    finish_save_lem k env ctx file rest closed is = elim (Bool-cases env.malloc_ok) [
      | inl ok ↦
          rw (ok, sum_chunks_unreadable k (fseek file header_size) 0 closed, ◌>>=◌)
            (ap (λ (c : Bytes). some (true, sealed 0 ctx, some c))
              (fwrite_front file (header_image ctx.header) (header_image (sealed 0 ctx).header) rest
                (length-header_image ctx.header ∙ sym (length-header_image (sealed 0 ctx).header))
                is))
      | inr failed ↦ rw failed (ap (λ (c : Bytes). some (true, ctx, some c)) is)
    ]

    write_tree_lem :
        (k : ℕ) (env : SaveEnv) (ctx : StateContext) (t : Tree) (main lost : Forest)
        → Represents t main lost
        → count main ≤ k
        → write_tree header_size node_size header_image node_image parse_header parse_node
            (suc k)
            env
            ctx
            t
          ≡ some (
            true,
            saved_context env main ctx,
            some (header_image (saved_context env main ctx).header ++ records node_image none main),
          )
    unfolding write_tree
    write_tree_lem k env ctx t main lost r fuel =
        let node_count : tree_traverse_dfs count_nodes (suc k) (some t) 0
            ≡ some (count main % u64_mod) =
          tree_traverse_dfs-preorder (suc k) t main lost (omega arith) r count_nodes 0
          ∙ ap some (
              visits-count_nodes (preorder main) 0 (omega arith)
              ∙ ap (λ n. n % u64_mod) (omega (arith, length-preorder main))) in
        let start = counted (count main % u64_mod) env.now ctx in
        let header = header_image start.header in
        let opened = fwrite open_wb header in
        let opened_at_end = fwrite-AtEnd open_wb header refl in
        let nodes : tree_traverse_dfs (saving t.heap) (suc k) (some t) (some opened)
            ≡ some (some (extended opened (records node_image none main))) =
          tree_traverse_dfs-preorder (suc k) t main lost (omega arith) r (saving t.heap)
            (some opened)
          ∙ ap some (
              visits-save_node t.heap null none main opened
                (Holds-join_left t.heap main lost r.held)
                (Parents-join_parts null main lost r.parents).0 refl opened_at_end) in
        rw (node_count, ◌>>=◌)
          (rw (nodes, ◌>>=◌)
            (finish_save_lem k env start (extended opened (records node_image none main))
              (records node_image none main) (closed header)
              (ap (λ (c : Bytes). c ++ records node_image none main)
                (fwrite_end open_wb header refl))))
      where
        closed : (header : Bytes) → (fwrite open_wb header).readable ≡ false
        closed header = unfold fwrite in refl

    -- Let the images of the headers fill the bytes of a header. Let the tree context hold a forest
    -- whose tree has no more nodes than the fuel, and let the file open. Then `state_save` returns
    -- true; the header in the context and in the file has the number of the nodes modulo 2^64, the
    -- time, and the checksum 0 (the old one where there is no memory for the buffer); behind it the
    -- file has one record for each node in preorder, each with the id of the node that it hangs on.
    pub state_save-records :
        (k : ℕ) (env : SaveEnv) (ctx : StateContext) (t : Tree) (main lost : Forest)
        → Represents t main lost
        → count main ≤ k
        → env.opened ≡ true
        → state_save header_size node_size header_image node_image parse_header parse_node
            (suc k)
            env
            (some ctx)
            (some t)
          ≡ some (
            true,
            some (saved_context env main ctx),
            some (header_image (saved_context env main ctx).header ++ records node_image none main),
          )
    unfolding state_save
    state_save-records k env ctx t main lost r fuel opened =
        simp (opened, write_tree_lem k env ctx t main lost r fuel)
