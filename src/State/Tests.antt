-- ===== src/State/Tests.antt =====
-- runtime/state/state.c on small inputs.
use mathlib.Core.Path.{ap₂}
use phantomid.Common.{
  ℕ, suc, ◌+◌, ◌≡◌, refl, Bool, true, false, List, [], ◌∷◌, ◌++◌, none, some, arith, ◌==◌,
  if◌then◌else◌, length, length-append, take, drop, take-append_of_eq, drop-append_of_eq, ap, ◌∙◌,
}
use phantomid.Common.CString.{Bytes, str_eq_iff, strncpy}
use phantomid.Common.Files.{open_rb, fread}
use phantomid.Interface.State.{magic_number}
use phantomid.Interface.State.Saving.{sum_chunks}
use phantomid.Tree.Store.{Ptr, null, Node, Tree}
use phantomid.Tree.Forest.{Forest, nil, tree}
use phantomid.Tree.Invariant.{Represents}
use phantomid.Tree.Create.{Env}
use phantomid.State.{
  StateHeader, NodeState, StateContext, SaveEnv, state_save, state_load, state_verify_checksum,
  node_state,
}
use phantomid.State.Saved.{records, saved_context, state_save-records}
use phantomid.State.Verify.{pieces, xor_all, sum_chunks-pieces, state_verify_checksum-state_save}
use phantomid.State.Shape.{shape}
use phantomid.State.LoadNode.{Gives}
use phantomid.State.Loaded.{Sized}
use phantomid.State.Rebuilt.{nothing}
use phantomid.State.Restored.{state_load-state_save}
use phantomid.State.AnyFile.{state_load-Represents}

abbrev node : ℕ → Bool → Ptr → List Ptr → Node
node c is_root parent children = record {
  id = c ∷ [];
  creation_time = 7;
  is_root = is_root;
  is_active = true;
  parent = parent;
  children = children;
  max_children = 5;
  user_data = null;
}

-- A root at 1 with a child at 2.
abbrev sample : Tree
sample = record {
  heap = λ p.
      if p == 1
      then some (node b'r' true null (2 ∷ []))
      else if p == 2
      then some (node b'a' false 1 [])
      else none;
  root = 1;
  total_nodes = 2;
  counter = 2;
}

abbrev sample_forest : Forest
sample_forest = tree 1 (node b'r' true null (2 ∷ [])) (tree 2 (node b'a' false 1 []) nil nil) nil

sample-Represents : Represents sample sample_forest nil
sample-Represents = record {
  rooted = refl;
  held = ground arith;
  parents = ground arith;
  distinct = λ a. ground arith;
  fits = omega arith;
  only = λ a e. ground arith;
  total = refl;
}

abbrev ctx : StateContext
ctx = record {
  filename = b'f' ∷ [];
  flags = 1;
  header = record {
    magic = magic_number;
    version = 1;
    flags = 0;
    timestamp = 3;
    node_count = 0;
    checksum = 9;
  };
}

-- A layout of the records: the numbers of a header; the two arrays, then the numbers of a node.
abbrev header_layout : StateHeader → Bytes
header_layout h = h.magic ∷ h.version ∷ h.flags ∷ h.timestamp ∷ h.node_count ∷ h.checksum ∷ []

abbrev read_header : Bytes → StateHeader
read_header (a ∷ b ∷ c ∷ d ∷ e ∷ f ∷ rest) = record {
  magic = a;
  version = b;
  flags = c;
  timestamp = d;
  node_count = e;
  checksum = f;
}
read_header bytes = ctx.header

abbrev bit : Bool → ℕ
bit true = 1
bit false = 0

abbrev numbers : NodeState → Bytes
numbers s = s.creation_time ∷ bit s.is_root ∷ bit s.is_active ∷ s.child_count ∷ []

abbrev node_layout : NodeState → Bytes
node_layout s = s.id ++ (s.parent_id ++ numbers s)

abbrev read_numbers : Bytes → Bytes → Bytes → NodeState
read_numbers id parent_id (a ∷ b ∷ c ∷ d ∷ rest) = record {
  id = id;
  parent_id = parent_id;
  creation_time = a;
  is_root = b == 1;
  is_active = c == 1;
  child_count = d;
}
read_numbers id parent_id bytes = record {
  id = id;
  parent_id = parent_id;
  creation_time = 0;
  is_root = false;
  is_active = false;
  child_count = 0;
}

abbrev read_node : Bytes → NodeState
read_node bytes = read_numbers (take 64 bytes) (take 64 (drop 64 bytes)) (drop 64 (drop 64 bytes))

length-node_layout : (s : NodeState) → Sized s → length (node_layout s) ≡ 132
length-node_layout s (a, b) = omega (
  arith,
  a,
  b,
  length-append s.id (s.parent_id ++ numbers s),
  length-append s.parent_id (numbers s),
)

bit-one : (b : Bool) → (bit b == 1) ≡ b
bit-one true = refl
bit-one false = refl

read_node-layout : (s : NodeState) → Sized s → read_node (node_layout s) ≡ s
read_node-layout s (a, b) =
    let id : take 64 (node_layout s) ≡ s.id =
      take-append_of_eq s.id (s.parent_id ++ numbers s) 64 a in
    let rest : drop 64 (node_layout s) ≡ s.parent_id ++ numbers s =
      drop-append_of_eq s.id (s.parent_id ++ numbers s) 64 a in
    let second : take 64 (drop 64 (node_layout s)) ≡ s.parent_id =
      ap (take 64) rest ∙ take-append_of_eq s.parent_id (numbers s) 64 b in
    let third : drop 64 (drop 64 (node_layout s)) ≡ numbers s =
      ap (drop 64) rest ∙ drop-append_of_eq s.parent_id (numbers s) 64 b in
    ap (λ x. read_numbers x (take 64 (drop 64 (node_layout s))) (drop 64 (drop 64 (node_layout s))))
      id
    ∙ ap (λ x. read_numbers s.id x (drop 64 (drop 64 (node_layout s)))) second
    ∙ ap (read_numbers s.id s.parent_id) third
    ∙ ap₂ (λ (x y : Bool). record s { is_root = x; is_active = y }) (bit-one s.is_root)
        (bit-one s.is_active)

abbrev save_env : SaveEnv
save_env = record { opened = true; now = 40; malloc_ok = true }

-- Round `n` of a load gets the address `n + 1`.
abbrev envs : ℕ → Env
envs n = record { node = suc n; array = true; created = 50; stamped = 50 }

envs-Gives : Gives envs
envs-Gives = record {
  given = λ i. ((λ e. absurd (omega (arith, e))), refl);
  apart = λ i j e. omega (arith, e);
}

state_save-records_example :
    state_save 6 132 header_layout node_layout read_header read_node 3 save_env
      (some ctx)
      (some sample)
    ≡ some (
      true,
      some (saved_context save_env sample_forest ctx),
      some (
          header_layout (saved_context save_env sample_forest ctx).header
          ++ records node_layout none sample_forest),
    )
state_save-records_example =
    state_save-records 6 132 header_layout node_layout read_header read_node (λ h. refl) 2 save_env
      ctx sample sample_forest nil sample-Represents (omega arith) refl

sum_chunks-pieces_example :
    sum_chunks 4 (open_rb (1 ∷ 2 ∷ 3 ∷ [])) 0 ≡ some (xor_all 0 (pieces 4 (1 ∷ 2 ∷ 3 ∷ [])))
sum_chunks-pieces_example =
    sum_chunks-pieces 4 (open_rb (1 ∷ 2 ∷ 3 ∷ [])) (1 ∷ 2 ∷ 3 ∷ []) 0 refl refl (omega arith)

state_verify_checksum-state_save_example :
    (after : StateContext) × (file : Bytes) × (state_save 6 132 header_layout node_layout
        read_header read_node 300 save_env
        (some ctx)
        (some sample)
      ≡ some (true, some after, some file))
    × (state_verify_checksum 6 132 header_layout node_layout read_header read_node 300 true
          (some after)
          (some file)
        ≡ some (xor_all 0 (pieces 300 (records node_layout none sample_forest)) == 0))
state_verify_checksum-state_save_example =
    state_verify_checksum-state_save 6 132 header_layout node_layout read_header read_node
      (λ h. refl) 299 save_env ctx sample sample_forest nil sample-Represents (omega arith)
      (unfold node_state strncpy in omega arith) refl

state_load-state_save_example :
    (file : Bytes) × (after : StateContext) × (u : Tree) × (f : Forest) × (state_save 6 132
        header_layout node_layout read_header read_node 11 save_env
        (some ctx)
        (some sample)
      ≡ some (true, some after, some file))
    × (state_load 6 132 header_layout node_layout read_header read_node 11 5 envs
          (some ctx)
          (some (nothing 0))
          (some file)
        ≡ some (true, some (record ctx { header = after.header }), some u))
    × Represents u f nil
    × (shape f ≡ shape sample_forest)
state_load-state_save_example =
    state_load-state_save 6 132 header_layout node_layout read_header read_node (λ h. refl)
      length-node_layout (λ h. refl) read_node-layout 10 5 save_env envs ctx ctx sample
      sample_forest nil 0 sample-Represents (omega arith) (omega arith) (omega arith) refl refl
      (omega arith) (λ i. ground (arith, str_eq_iff (b'r' ∷ []) i, str_eq_iff (b'a' ∷ []) i))
      (omega arith) envs-Gives

-- A file of one record, cut off behind its header, loaded into the tree.
abbrev short_file : Bytes
short_file = header_layout (record ctx.header { node_count = 1 }) ++ 5 ∷ []

abbrev later_envs : ℕ → Env
later_envs n = record { node = 3 + n; array = true; created = 50; stamped = 50 }

state_load-Represents_example :
    (done : Bool) × (header : StateHeader) × (u : Tree) × (after : Forest) × (state_load 6 132
        header_layout node_layout read_header read_node 11 5 later_envs
        (some ctx)
        (some sample)
        (some short_file)
      ≡ some (done, some (record ctx { header = header }), some u))
    × Represents u after nil
state_load-Represents_example =
    state_load-Represents 6 132 header_layout node_layout read_header read_node 11 5 later_envs ctx
      sample (some short_file) sample_forest nil (λ i j there e. omega (arith, e)) sample-Represents
      (λ i early. ground arith) (unfold fread in omega arith) (unfold fread in omega arith)
