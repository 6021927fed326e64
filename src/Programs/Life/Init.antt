-- ===== src/Programs/Life/Init.antt =====
-- What `phantom_init` of programs/phantomid.c leaves, and what can be done with it.
use phantomid.Common.{
  ℕ, suc, ◌≡◌, refl, ◌∙◌, Bool, true, false, inl, inr, List, [], ◌∷◌, none, some, if◌then◌else◌,
  ◌>>=◌, Bool-cases, Option-cases,
}
use phantomid.Tree.Store.{Tree}
use phantomid.Tree.Create.{tree_create}
use phantomid.Programs.State.{context_data, PhantomIdContext, Phantom, Services}
use phantomid.Programs.State.Changes.{phantom_save_state, phantom_state_init, phantom_check_state}
use phantomid.Programs.Life.{
  Block, context_block, tree_block, messages_block, state_block, Step, takes, releases, InitEnv,
  Calls, zero_context, init_config, init_components, phantom_handlers_init, undone, init_rest,
  phantom_init, phantom_cleanup, phantom_run,
}

-- The calls that register a handler leave what `user_data` points to.
pub record Registers {W : Type 0} (calls : Calls W) : Type 0 where
  pub by_message :
      (program : Phantom W) (type : ℕ)
      → (calls.register_message program type).user_data ≡ program.user_data
  pub by_command :
      (program : Phantom W) (type : ℕ)
      → (calls.register_command program type).user_data ≡ program.user_data

abbrev pub same_block : Block → Block → Bool
same_block context_block context_block = true
same_block tree_block tree_block = true
same_block messages_block messages_block = true
same_block state_block state_block = true
same_block a b = false

-- How often a block is taken, and how often it is given back.
abbrev pub taken : Block → List Step → ℕ
taken b [] = 0
taken b (takes a ∷ steps) = if same_block a b then suc (taken b steps) else taken b steps
taken b (releases a ∷ steps) = taken b steps

abbrev pub released : Block → List Step → ℕ
released b [] = 0
released b (takes a ∷ steps) = released b steps
released b (releases a ∷ steps) =
    if same_block a b then suc (released b steps) else released b steps

abbrev pub Balanced : List Step → Type 0
Balanced steps = (b : Block) → taken b steps ≡ released b steps

-- What `phantom_init` leaves where it fails and where it succeeds.
pub data InitOutcome {W : Type 0} (services : Services W) (calls : Calls W) (program : Phantom W)
    : Bool → Phantom W → List Step → Type 0 where
  gives_up :
      (after : Phantom W) (steps : List Step)
      → after.user_data ≡ program.user_data
      → Balanced steps
      → InitOutcome services calls program false after steps
  -- The state that has been made is lost: `user_data` is the context. What takes it for the state is
  -- a fault.
  stands :
      (after : Phantom W) (ctx : PhantomIdContext) (t : Tree)
      → after.user_data ≡ context_data ctx
      → ctx.tree ≡ some t
      → ((k now : ℕ)
          → (phantom_run services calls k now after ≡ none)
            × (phantom_cleanup services k now after ≡ none))
      → InitOutcome services calls program true after
          (takes context_block ∷ takes tree_block ∷ takes messages_block ∷ takes state_block ∷ [])

-- A program whose `user_data` is a context can neither be run nor cleaned up.
context-faults :
    {W : Type 0} (services : Services W) (calls : Calls W) (program : Phantom W)
    (ctx : PhantomIdContext)
    → program.user_data ≡ context_data ctx
    → (k now : ℕ)
    → (phantom_run services calls k now program ≡ none)
      × (phantom_cleanup services k now program ≡ none)
unfolding phantom_run phantom_cleanup phantom_check_state phantom_save_state
context-faults services calls program ctx at k now =
    (rw (at, phantom_run) refl, rw (at, phantom_cleanup) (rw (at, phantom_save_state, ◌>>=◌) refl))

module _ {W : Type 0} (services : Services W) (calls : Calls W) (env : InitEnv)
    (r : Registers calls) where
  handlers-same :
      (program : Phantom W) → (phantom_handlers_init calls program).1.user_data ≡ program.user_data
  unfolding phantom_handlers_init
  handlers-same program =
      r.by_command _ _
      ∙ r.by_command _ _
      ∙ r.by_message _ _
      ∙ r.by_message _ _
      ∙ r.by_message _ _
      ∙ r.by_message _ _

  Leaves : Phantom W → Bool × Phantom W × List Step → Type 0
  Leaves program left = InitOutcome services calls program left.0 left.1 left.2

  init_rest-Leaves :
      (program : Phantom W) (ctx : PhantomIdContext) (t : Tree)
      → ctx.tree ≡ some t
      → Leaves program (
          init_rest services calls env ctx
            (takes context_block ∷ takes tree_block ∷ takes messages_block ∷ [])
            program)
  unfolding init_rest phantom_handlers_init phantom_state_init Leaves
  init_rest-Leaves program ctx t has = elim (Bool-cases env.state_ok) [
    | inr no_state ↦ simp (no_state) (gives_up _ _ (handlers-same program) components_undone)
    | inl made ↦ elim (Bool-cases services.state_there) [
      | inr no_interface ↦
          simp (made, no_interface) (gives_up _ _ (handlers-same program) all_undone)
      | inl there ↦
          simp (made, there) (stands _ ctx t refl has (context-faults services calls _ ctx refl))
    ]
  ]
    where
      components_undone :
          Balanced (takes context_block ∷ takes tree_block ∷ takes messages_block ∷ undone)
      components_undone context_block = refl
      components_undone tree_block = refl
      components_undone messages_block = refl
      components_undone state_block = refl

      all_undone : Balanced (
          takes context_block
          ∷ takes tree_block
          ∷ takes messages_block
          ∷ takes state_block
          ∷ releases state_block
          ∷ undone)
      all_undone context_block = refl
      all_undone tree_block = refl
      all_undone messages_block = refl
      all_undone state_block = refl

  abbrev components : Bool × PhantomIdContext × List Step
  components = init_components env (init_config zero_context).1

  abbrev with_none : PhantomIdContext
  with_none = record (init_config zero_context).1 { tree = none }

  abbrev with_tree : Tree → ℕ → PhantomIdContext
  with_tree t messages = record (init_config zero_context).1 { tree = some t; messages = messages }

  -- Let the calls that register handlers leave what `user_data` points to. Where `phantom_init`
  -- fails, `user_data` leads where it did, and each block that was taken, the context, the tree,
  -- the messages or the state, has been given back as often. Where it succeeds, `user_data` is the
  -- context with a tree, one block of each kind has been taken and none given back, so that the
  -- state that was made is out of reach, and neither `phantom_run` nor `phantom_cleanup` has a
  -- defined result, since both take the context for that state.
  pub phantom_init-InitOutcome :
      (program : Phantom W)
      → (let (done, after, steps) = phantom_init services calls env program in
          InitOutcome services calls program done after steps)
  unfolding phantom_init init_config init_components Leaves
  phantom_init-InitOutcome program = elim (Bool-cases env.context_ok) [
    | inr no_context ↦ simp (no_context) (gives_up program [] refl λ b. refl)
    | inl given ↦ elim (Option-cases (tree_create env.tree_ok env.mutex_ok env.heap env.counter)) [
      | inl no_tree ↦
          let none_made : components ≡ (false, with_none, []) =
            rw (no_tree, init_components) refl in
          simp (given, none_made) (gives_up program _ refl context_undone)
      | inr (t, tree) ↦ elim (Option-cases env.messages) [
        | inl no_messages ↦
            let one_made : components
                ≡ (false, with_tree t 0, takes tree_block ∷ releases tree_block ∷ []) =
              rw (tree, init_components) (simp (no_messages) refl) in
            simp (given, one_made) (gives_up program _ refl tree_undone)
        | inr (messages, there) ↦
            let both_made : components
                ≡ (true, with_tree t messages, takes tree_block ∷ takes messages_block ∷ []) =
              rw (tree, init_components) (simp (there) refl) in
            simp (given, both_made) (init_rest-Leaves program (with_tree t messages) t refl)
      ]
    ]
  ]
    where
      context_undone : Balanced (takes context_block ∷ releases context_block ∷ [])
      context_undone context_block = refl
      context_undone tree_block = refl
      context_undone messages_block = refl
      context_undone state_block = refl

      tree_undone : Balanced (
          takes context_block
          ∷ takes tree_block
          ∷ releases tree_block
          ∷ releases context_block
          ∷ [])
      tree_undone context_block = refl
      tree_undone tree_block = refl
      tree_undone messages_block = refl
      tree_undone state_block = refl
