-- ===== src/State/Verify.antt =====
-- `state_verify_checksum` of runtime/state/state.c: the loop over the file, and what it says of a file
-- that `state_save` has written.
use Prim.Native.Nat.{bit_xor, min}
use phantomid.Common.{
  ℕ, zero, suc, ◌-◌, ◌≤◌, ◌<◌, ◌≡◌, refl, ap, ◌∙◌, inl, inr, Bool, true, false, List, [], ◌∷◌, ◌++◌,
  none, some, arith, ◌==◌, if◌then◌else◌, ◌>>=◌, Bool-cases, length, length-take, length-drop, take,
  drop, drop-append_of_eq,
}
use phantomid.Common.CString.{Bytes}
use phantomid.Common.Files.{File, open_rb, fread, fread_lem, fseek}
use phantomid.Interface.State.{state_buffer_size, calculate_checksum}
use phantomid.Interface.State.Saving.{sum_chunks}
use phantomid.Tree.Store.{Tree}
use phantomid.Tree.Forest.{Forest, count}
use phantomid.Tree.Invariant.{Represents}
use phantomid.State.{
  StateHeader, NodeState, StateContext, SaveEnv, state_save, state_verify_checksum,
}
use phantomid.State.Saved.{records, saved_context, state_save-records}

-- The pieces of at most 4096 bytes that a text is read in; the fuel bounds their number.
abbrev pub pieces : ℕ → Bytes → List Bytes
pieces zero bytes = []
pieces (suc k) bytes =
    if length bytes == 0
    then []
    else take state_buffer_size bytes ∷ pieces k (drop state_buffer_size bytes)

-- The exclusive or of the checksums of the pieces.
abbrev pub xor_all : ℕ → List Bytes → ℕ
xor_all sum [] = sum
xor_all sum (bytes ∷ rest) = xor_all (bit_xor sum (calculate_checksum bytes)) rest

-- A read gives no byte exactly where none is left.
some_bytes : (n m l : ℕ) (b : Bool) → 0 < n → l ≡ min n m → (m == 0) ≡ b → (l == 0) ≡ b
some_bytes n m l b pos e h = ground arith

shorter : (n m l k : ℕ) → 0 < n → (m == 0) ≡ false → m < suc k → l ≡ m - n → l < k
shorter n m l k pos h fuel e = ground arith

-- The loop that reads a file to its end for the checksum ends, where the fuel is more than the
-- number of the bytes that are left, and its result is the exclusive or of the checksums of the
-- pieces of 4096 bytes.
pub sum_chunks-pieces :
    (k : ℕ) (file : File) (rest : Bytes) (sum : ℕ)
    → file.readable ≡ true
    → drop file.position file.content ≡ rest
    → length rest < k
    → sum_chunks k file sum ≡ some (xor_all sum (pieces k rest))
unfolding sum_chunks
sum_chunks-pieces zero file rest sum readable is fuel = absurd (omega (arith, fuel))
sum_chunks-pieces (suc k) file rest sum readable is fuel =
    let (first, still, next) = fread_lem file state_buffer_size rest readable is in
    let taken : length (take state_buffer_size rest) ≡ min state_buffer_size (length rest) =
      length-take state_buffer_size rest in
    let got : length (fread file state_buffer_size).0 ≡ min state_buffer_size (length rest) =
      ap length first ∙ taken in
    elim (Bool-cases (length rest == 0)) [
      | inl done ↦
          let nothing : (length (fread file state_buffer_size).0 == 0) ≡ true =
            some_bytes state_buffer_size (length rest) _ true (omega arith) got done in
          rw (nothing, done, sum_chunks) refl
      | inr more ↦
          let something : (length (fread file state_buffer_size).0 == 0) ≡ false =
            some_bytes state_buffer_size (length rest) _ false (omega arith) got more in
          rw (something, more, sum_chunks)
            (sum_chunks-pieces k (fread file state_buffer_size).1 (drop state_buffer_size rest) _
                still next
                (shorter state_buffer_size (length rest) _ k (omega arith) more fuel
                  (length-drop state_buffer_size rest))
              ∙ ap
                  (λ (bs : Bytes). some (
                    xor_all (bit_xor sum (calculate_checksum bs))
                      (pieces k (drop state_buffer_size rest))))
                  first)
    ]

module _ (header_size node_size : ℕ) (header_image : StateHeader → Bytes)
    (node_image : NodeState → Bytes) (parse_header : Bytes → StateHeader)
    (parse_node : Bytes → NodeState)
    (length-header_image : (h : StateHeader) → length (header_image h) ≡ header_size) where
  -- Let the images of the headers fill the bytes of a header. Let the tree context hold a forest
  -- whose tree has no more nodes than the fuel and whose records have no more bytes than it, and
  -- let the file open. Then `state_save` succeeds, and `state_verify_checksum` of what it has left,
  -- with memory for the buffer, is true exactly where the exclusive or of the checksums of the
  -- pieces of the records is 0, or, where `state_save` had no memory for its buffer, the checksum
  -- that was there before.
  pub state_verify_checksum-state_save :
      (k : ℕ) (env : SaveEnv) (ctx : StateContext) (t : Tree) (main lost : Forest)
      → Represents t main lost
      → count main ≤ k
      → length (records node_image none main) ≤ k
      → env.opened ≡ true
      → (after : StateContext) × (file : Bytes) × (state_save header_size node_size header_image
            node_image parse_header parse_node
            (suc k)
            env
            (some ctx)
            (some t)
          ≡ some (true, some after, some file))
        × (state_verify_checksum header_size node_size header_image node_image parse_header
              parse_node
              (suc k)
              true
              (some after)
              (some file)
            ≡ some (
                xor_all 0 (pieces (suc k) (records node_image none main))
                == (if env.malloc_ok then 0 else ctx.header.checksum)))
  unfolding state_verify_checksum
  state_verify_checksum-state_save k env ctx t main lost r fuel room opened =
      let after = saved_context env main ctx in
      let nodes = records node_image none main in
      let file = header_image after.header ++ nodes in
      (
        after,
        file,
        state_save-records header_size node_size header_image node_image parse_header parse_node
            length-header_image k env ctx t main lost r fuel opened,
        rw
            (
              sum_chunks-pieces (suc k) (fseek (open_rb file) header_size) nodes 0 refl
                  (drop-append_of_eq (header_image after.header) nodes header_size
                    (length-header_image after.header))
                  (omega (arith, room)),
              ◌>>=◌,
            )
            refl,
      )
