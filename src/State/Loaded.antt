-- ===== src/State/Loaded.antt =====
-- The loop of `state_load` of runtime/state/state.c over the records of a forest.
use mathlib.Core.Path.{subst, ap₂}
use phantomid.Common.{
  ℕ, ◌+◌, ◌≤◌, ◌≡◌, refl, sym, ap, ◌∙◌, List, [], ◌∷◌, ◌++◌, append_assoc, Option, none, some,
  arith, ◌>>=◌, length, length-append, take, take_all,
}
use phantomid.Common.CString.{Str, Bytes, IsStr, cstr, strncpy, cstr-strncpy, length-strncpy}
use phantomid.Tree.Store.{Node, Tree}
use phantomid.Tree.Queue.{max_queue_size}
use phantomid.Tree.Forest.{Forest, nil, tree, count, All}
use phantomid.Tree.Invariant.{Represents}
use phantomid.Tree.Create.{Env}
use phantomid.State.{NodeState, zeros, node_state, load_node}
use phantomid.State.Saved.{stored_id, records}
use phantomid.State.Shape.{Label, label, leaf, shape, under, entries, rebuild, Finds}
use phantomid.State.Relabel.{kept}
use phantomid.State.LoadNode.{Gives, Loaded, load_node-under}

-- The records of a forest in preorder.
abbrev pub states : Option Str → Forest → List NodeState
states up nil = []
states up (tree p n kids rest) =
    node_state n (stored_id up) ∷ (states (some n.id) kids ++ states up rest)

abbrev pub images : (NodeState → Bytes) → List NodeState → Bytes
images image [] = []
images image (s ∷ ss) = image s ++ images image ss

images-append :
    (image : NodeState → Bytes) (xs ys : List NodeState)
    → images image (xs ++ ys) ≡ images image xs ++ images image ys
images-append image [] ys = refl
images-append image (x ∷ xs) ys =
    ap (λ bs. image x ++ bs) (images-append image xs ys)
    ∙ sym (append_assoc (image x) (images image xs) (images image ys))

pub records-images :
    (image : NodeState → Bytes) (up : Option Str) (f : Forest)
    → records image up f ≡ images image (states up f)
records-images image up nil = refl
records-images image up (tree p n kids rest) =
    ap (λ bs. image (node_state n (stored_id up)) ++ bs)
      (ap₂ ◌++◌ (records-images image (some n.id) kids) (records-images image up rest)
        ∙ sym (images-append image (states (some n.id) kids) (states up rest)))

pub length-states : (up : Option Str) (f : Forest) → length (states up f) ≡ count f
length-states up nil = refl
length-states up (tree p n kids rest) = omega (
  arith,
  length-append (states (some n.id) kids) (states up rest),
  length-states (some n.id) kids,
  length-states up rest,
)

-- The arrays of a record have their 64 bytes.
abbrev pub Sized : NodeState → Type 0
Sized st = (length st.id ≡ 64) × (length st.parent_id ≡ 64)

abbrev pub AllSized : List NodeState → Type 0
AllSized [] = Unit
AllSized (st ∷ sts) = Sized st × AllSized sts

AllSized-append : (xs ys : List NodeState) → AllSized xs → AllSized ys → AllSized (xs ++ ys)
AllSized-append [] ys a b = b
AllSized-append (x ∷ xs) ys (e, a) b = (e, AllSized-append xs ys a b)

length-stored_id : (up : Option Str) → length (stored_id up) ≡ 64
length-stored_id none = refl
length-stored_id (some s) = length-strncpy (zeros 64) s 63

node_state-Sized : (n : Node) (up : Option Str) → Sized (node_state n (stored_id up))
unfolding node_state
node_state-Sized n up = (length-strncpy (zeros 64) n.id 63, length-stored_id up)

pub states-AllSized : (up : Option Str) (f : Forest) → AllSized (states up f)
states-AllSized up nil = tt
states-AllSized up (tree p n kids rest) = (
  node_state-Sized n up,
  AllSized-append (states (some n.id) kids) (states up rest) (states-AllSized (some n.id) kids)
      (states-AllSized up rest),
)

-- The records stand for the entries.
abbrev pub Stand : List NodeState → List (Str × Label) → Type 0
Stand [] [] = Unit
Stand (st ∷ sts) ((s, l) ∷ es) = (cstr st.parent_id ≡ s) × (kept st ≡ l) × Stand sts es
Stand sts es = ⊥

Stand-append :
    (xs ys : List NodeState) (es fs : List (Str × Label))
    → Stand xs es
    → Stand ys fs
    → Stand (xs ++ ys) (es ++ fs)
Stand-append [] ys [] fs a b = b
Stand-append (x ∷ xs) ys ((s, l) ∷ es) fs (e, k, a) b = (e, k, Stand-append xs ys es fs a b)
Stand-append [] ys (e ∷ es) fs a b = absurd a
Stand-append (x ∷ xs) ys [] fs a b = absurd a

-- An id that its array holds with its terminator.
abbrev pub Stored : Str → Type 0
Stored s = IsStr s × (length s ≤ 63)

pub cstr-Stored : (s : Str) → Stored s → cstr (strncpy (zeros 64) s 63) ≡ s
cstr-Stored s (is, short) =
    cstr-strncpy (zeros 64) s 63 is (omega arith) (unfold cstr in refl) ∙ take_all s 63 short

pub kept-node_state : (n : Node) (up : Bytes) → Stored n.id → kept (node_state n up) ≡ label n
unfolding node_state
kept-node_state n up stored =
    ap
      (λ (s : Str). record {
        id = s;
        creation_time = n.creation_time;
        is_root = n.is_root;
        is_active = n.is_active;
      })
      (ap (take 63) (cstr-Stored n.id stored) ∙ take_all n.id 63 stored.1)

pub states-Stand :
    (s : Str) (f : Forest)
    → Stored s
    → All (λ p n. Stored n.id) f
    → Stand (states (some s) f) (entries s (shape f))
unfolding node_state
states-Stand s nil stored fs = tt
states-Stand s (tree p n kids rest) stored (own, ks, rs) = (
  cstr-Stored s stored,
  kept-node_state n (stored_id (some s)) own,
  Stand-append (states (some n.id) kids) (states (some s) rest) (entries n.id (shape kids))
      (entries s (shape rest)) (states-Stand n.id kids own ks) (states-Stand s rest stored rs),
)

-- The rounds of the loop, over the records as they have been read.
abbrev pub load_states : ℕ → ℕ → (ℕ → Env) → List NodeState → Tree → Option Tree
load_states k max envs [] t = some t
load_states k max envs (st ∷ sts) t =
    load_node k max (envs (length sts)) st t >>= λ u. load_states k max envs sts u

-- Entries that each find their place are hung up one after the other.
pub load_states-rebuild :
    (k max : ℕ) (envs : ℕ → Env) (sts : List NodeState) (es : List (Str × Label)) (t : Tree)
    (g : Forest)
    → Gives envs
    → Stand sts es
    → Loaded max envs (length sts) t g
    → Finds es (shape g)
    → count g + length sts ≤ k
    → count g + length sts ≤ max_queue_size
    → count g + length sts ≤ max
    → (u : Tree) × (f : Forest) × (load_states k max envs sts t ≡ some u)
      × Represents u f nil
      × (shape f ≡ rebuild es (shape g))
load_states-rebuild k max envs [] [] t g gives stand l finds fuel small few =
    (t, g, refl, l.represents, refl)
load_states-rebuild k max envs (st ∷ sts) ((s, lb) ∷ es) t g gives (is, keeps, stand) l
      (once, finds) fuel small few =
    let (u, g1, ran, loaded, is_shape, is_count) =
      load_node-under k max envs gives (length sts) st t g s l (omega arith) (omega arith)
        (omega arith) once is in
    let same : shape g1 ≡ under s (leaf lb) (shape g) =
      is_shape ∙ ap (λ (x : Label). under s (leaf x) (shape g)) keeps in
    let (v, f, rest, r, final) =
      load_states-rebuild k max envs sts es u g1 gives stand loaded
        (subst (Finds es) (sym same) finds) (omega (arith, fuel, is_count))
        (omega (arith, small, is_count)) (omega (arith, few, is_count)) in
    (v, f, rw (ran, ◌>>=◌) rest, r, final ∙ ap (rebuild es) same)
load_states-rebuild k max envs [] (e ∷ es) t g gives stand l finds fuel small few = absurd stand
load_states-rebuild k max envs (st ∷ sts) [] t g gives stand l finds fuel small few = absurd stand
