-- ===== src/State/Restored.antt =====
-- A tree that `state_save` of runtime/state/state.c has written, loaded again by `state_load`.
use phantomid.Common.{
  ℕ, suc, ◌%◌, ◌≤◌, ◌≡◌, refl, ap, ◌∙◌, Bool, true, List, [], ◌∷◌, ◌++◌, Option, some, none, arith,
  ◌==◌, ◌>>=◌, eq→==, length, drop, take-append_of_eq, drop-append_of_eq, u64_mod,
}
use phantomid.Common.CString.{Str, Bytes}
use phantomid.Common.Files.{File, open_rb, fread, fread_lem}
use phantomid.Interface.State.{magic_number}
use phantomid.Tree.Store.{Tree}
use phantomid.Tree.Queue.{max_queue_size}
use phantomid.Tree.Forest.{Forest, nil, count, All}
use phantomid.Tree.Invariant.{Represents}
use phantomid.Tree.Create.{Env}
use phantomid.State.{
  StateHeader, NodeState, StateContext, state_version, SaveEnv, state_save, load_node, load_nodes,
  header_ok, load_in, state_load,
}
use phantomid.State.Saved.{saved_context, state_save-records}
use phantomid.State.Shape.{shape, times}
use phantomid.State.LoadNode.{Gives}
use phantomid.State.Loaded.{
  Sized, AllSized, states-AllSized, states, images, records-images, length-states, Stored,
  load_states,
}
use phantomid.State.Rebuilt.{nothing, load_main}

chain {ℓ κ μ} :
    {A : Type ℓ} {B : Type κ} {C : Type μ} (o : Option A) (f : A → Option B) (h : B → Option C)
    (g : A → Option C)
    → ((x : A) → g x ≡ (f x >>= h))
    → (o >>= g) ≡ (o >>= f >>= h)
chain none f h g e = refl
chain (some x) f h g e = e x

module _ (header_size node_size : ℕ) (header_image : StateHeader → Bytes)
    (node_image : NodeState → Bytes) (parse_header : Bytes → StateHeader)
    (parse_node : Bytes → NodeState)
    (length-header_image : (h : StateHeader) → length (header_image h) ≡ header_size)
    (length-node_image : (s : NodeState) → Sized s → length (node_image s) ≡ node_size)
    (parse-header_image : (h : StateHeader) → parse_header (header_image h) ≡ h)
    (parse-node_image : (s : NodeState) → Sized s → parse_node (node_image s) ≡ s) where
  -- Reading record by record.
  load_nodes-images :
      (k max : ℕ) (envs : ℕ → Env) (sts : List NodeState) (file : File) (t : Tree)
      → AllSized sts
      → file.readable ≡ true
      → drop file.position file.content ≡ images node_image sts
      → load_nodes header_size node_size header_image node_image parse_header parse_node k max envs
          (length sts)
          file
          t
        ≡ (load_states k max envs sts t >>= λ u. some (true, u))
  unfolding load_nodes
  load_nodes-images k max envs [] file t sized readable is = refl
  load_nodes-images k max envs (st ∷ sts) file t (own, sized) readable is =
      let (first, still, next) =
        fread_lem file node_size (node_image st ++ images node_image sts) readable is in
      let got : (fread file node_size).0 ≡ node_image st =
        first
        ∙ take-append_of_eq (node_image st) (images node_image sts) node_size
            (length-node_image st own) in
      let whole : (length (fread file node_size).0 == node_size) ≡ true =
        eq→== _ _ (ap length got ∙ length-node_image st own) in
      let after : drop (fread file node_size).1.position (fread file node_size).1.content
          ≡ images node_image sts =
        next
        ∙ drop-append_of_eq (node_image st) (images node_image sts) node_size
            (length-node_image st own) in
      rw (whole, load_nodes)
        (ap
            (λ (x : NodeState).
              load_node k max (envs (length sts)) x t
              >>= load_nodes header_size node_size header_image node_image parse_header parse_node k
                  max envs (length sts) (fread file node_size).1)
            (ap parse_node got ∙ parse-node_image st own)
          ∙ chain (load_node k max (envs (length sts)) st t) (load_states k max envs sts)
              (λ u. some (true, u))
              (load_nodes header_size node_size header_image node_image parse_header parse_node k
                max envs (length sts) (fread file node_size).1)
              (λ u. load_nodes-images k max envs sts (fread file node_size).1 u sized still after))

  abbrev good : Bytes → Bool
  good = header_ok header_size node_size header_image node_image parse_header parse_node

  good_image :
      (header : StateHeader)
      → header.magic ≡ magic_number
      → header.version ≤ state_version
      → good (header_image header) ≡ true
  unfolding header_ok
  good_image header magic version =
      rw (parse-header_image header)
        (rw (eq→== _ _ (length-header_image header), eq→== _ _ magic) (ground arith))

  -- A file that holds a good header and as many records as it says.
  load_in-images :
      (k max : ℕ) (envs : ℕ → Env) (reader : StateContext) (t u : Tree) (header : StateHeader)
      (sts : List NodeState)
      → header.magic ≡ magic_number
      → header.version ≤ state_version
      → header.node_count ≡ length sts
      → AllSized sts
      → load_states k max envs sts t ≡ some u
      → load_in header_size node_size header_image node_image parse_header parse_node k max envs
          reader t
          (some (header_image header ++ images node_image sts))
        ≡ some (true, record reader { header = header }, u)
  unfolding load_in header_ok
  load_in-images k max envs reader t u header sts magic version number sized ran =
      let file = header_image header ++ images node_image sts in
      let (first, still, next) = fread_lem (open_rb file) header_size file refl refl in
      let got : (fread (open_rb file) header_size).0 ≡ header_image header =
        first
        ∙ take-append_of_eq (header_image header) (images node_image sts) header_size
            (length-header_image header) in
      let parsed : parse_header (fread (open_rb file) header_size).0 ≡ header =
        ap parse_header got ∙ parse-header_image header in
      let accepted = ap good got ∙ good_image header magic version in
      let loaded : load_nodes header_size node_size header_image node_image parse_header parse_node
            k max envs (parse_header (fread (open_rb file) header_size).0).node_count
            (fread (open_rb file) header_size).1 t
          ≡ some (true, u) =
        ap
          (λ (n : ℕ).
            load_nodes header_size node_size header_image node_image parse_header parse_node k max
              envs n (fread (open_rb file) header_size).1 t)
          (ap (λ (h : StateHeader). h.node_count) parsed ∙ number)
        ∙ load_nodes-images k max envs sts (fread (open_rb file) header_size).1 t sized still (
            next
            ∙ drop-append_of_eq (header_image header) (images node_image sts) header_size
                (length-header_image header))
        ∙ ap (λ (o : Option Tree). o >>= λ v. some (true, v)) ran in
      rw (accepted, loaded, ◌>>=◌)
        (ap (λ (h : StateHeader). some (true, record reader { header = h }, u)) parsed)

  -- Let the images of headers and of records with full arrays fill their bytes and be read back
  -- from them. Let the context hold a forest whose tree has at most 1000 nodes, no more than a node
  -- has room for children and no more than the fuel; let no id occur twice in it and each be a
  -- string of at most 63 bytes; let the magic number of the saving context be right, its version
  -- not later than this one, the file open and memory be given in each round at an address of its
  -- own. Then `state_save` succeeds, and `state_load` of the file it has written, into an empty
  -- tree, succeeds: the header is the saved one and the tree has the same nodes at the same places:
  -- their ids, times and flags, and the order of their children.
  pub state_load-state_save :
      (k max : ℕ) (env : SaveEnv) (envs : ℕ → Env) (ctx reader : StateContext) (t : Tree)
      (main lost : Forest) (counter : ℕ)
      → Represents t main lost
      → count main ≤ k
      → count main ≤ max_queue_size
      → count main ≤ max
      → env.opened ≡ true
      → ctx.header.magic ≡ magic_number
      → ctx.header.version ≤ state_version
      → ((i : Str) → times i (shape main) ≤ 1)
      → All (λ p n. Stored n.id) main
      → Gives envs
      → (file : Bytes) × (after : StateContext) × (u : Tree) × (f : Forest) × (state_save
            header_size node_size header_image node_image parse_header parse_node
            (suc k)
            env
            (some ctx)
            (some t)
          ≡ some (true, some after, some file))
        × (state_load header_size node_size header_image node_image parse_header parse_node
              (suc k)
              max
              envs
              (some reader)
              (some (nothing counter))
              (some file)
            ≡ some (true, some (record reader { header = after.header }), some u))
        × Represents u f nil
        × (shape f ≡ shape main)
  unfolding state_load
  state_load-state_save k max env envs ctx reader t main lost counter r fuel small few opened magic
        version once stored gives =
      let after = saved_context env main ctx in
      let sts = states none main in
      let file = header_image after.header ++ images node_image sts in
      let saved =
        state_save-records header_size node_size header_image node_image parse_header parse_node
          length-header_image k env ctx t main lost r fuel opened in
      let (u, f, ran, rep, same) =
        load_main (suc k) max envs counter main t.root gives r.rooted (omega (arith, fuel)) small
          few once stored in
      let number : count main % u64_mod ≡ length sts =
        omega (arith, small, length-states none main) in
      (
        file,
        after,
        u,
        f,
        saved
            ∙ ap (λ (bs : Bytes). some (true, some after, some (header_image after.header ++ bs)))
                (records-images node_image none main),
        rw
            (
              load_in-images (suc k) max envs reader (nothing counter) u after.header sts magic
                  version number (states-AllSized none main) ran,
              ◌>>=◌,
            )
            refl,
        rep,
        same,
      )
