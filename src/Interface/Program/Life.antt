-- ===== src/Interface/Program/Life.antt =====
-- No context is lost in the life of a program of interface/program.c.
use mathlib.Core.Path.{ap₂}
use phantomid.Common.{
  ℕ, ◌≡◌, refl, sym, ap, ◌∙◌, Bool, true, false, not, ◌&&◌, List, [], ◌∷◌, ◌++◌, append-nil, Option,
  none, some, ◌==◌, if◌then◌else◌, Bool-cases, inl, inr,
}
use phantomid.Interface.Program.{
  ProgramInterface, ProgramRuntime, Program, Event, calls, frees_program, RuntimeEnv, ask,
  init_state, init_runtime, cleanup_runtime, finish_create, create_from, cleanup_calls,
  program_destroy,
}
use phantomid.Interface.Program.Contexts.{
  Kind, made, destroyed, listed, context, by_kind, made-append, destroyed-append, cleanup-kinds,
  made_end, destroyed_end, made_call, destroyed_call,
}

-- What a creation leaves: nothing, where it fails; else the contexts of the program, and the program
-- has those that it needs.
abbrev pub Balanced : ProgramInterface → RuntimeEnv → Option Program → List Event → Type 0
Balanced i env none events = (k : Kind) → made k events ≡ destroyed k events
Balanced i env (some program) events =
    ((k : Kind) → (made k events ≡ listed (context k program.runtime)) × (destroyed k events ≡ []))
    × (program.interface ≡ some i)
    × (program.runtime.network_context ≡ ask i.needs_network env.network)
    × (program.runtime.state_context ≡ ask i.needs_persistence env.state)
    × (program.runtime.cli_context ≡ ask i.needs_cli env.cli)

-- What `init_runtime` leaves.
abbrev Started : ProgramInterface → RuntimeEnv → Bool × ProgramRuntime × List Event → Type 0
Started i env (false, runtime, events) = (k : Kind) → made k events ≡ destroyed k events
Started i env (true, runtime, events) =
    ((k : Kind) → (made k events ≡ listed (context k runtime)) × (destroyed k events ≡ []))
    × (runtime.network_context ≡ ask i.needs_network env.network)
    × (runtime.state_context ≡ ask i.needs_persistence env.state)
    × (runtime.cli_context ≡ ask i.needs_cli env.cli)

abbrev needing : ProgramInterface → Bool → Bool → Bool → ProgramInterface
needing i nn np nc = record i { needs_network = nn; needs_persistence = np; needs_cli = nc }

abbrev given : RuntimeEnv → Option ℕ → Option ℕ → Option ℕ → RuntimeEnv
given env n s c = record env { network = n; state = s; cli = c }

-- Every need and every answer.
runtime-Started :
    (env : RuntimeEnv) (i : ProgramInterface) (nn : Bool) (n : Option ℕ) (np : Bool) (s : Option ℕ)
    (nc : Bool) (c : Option ℕ)
    → Started
        (needing i nn np nc)
        (given env n s c)
        (init_runtime (given env n s c) (needing i nn np nc))
unfolding init_runtime init_state
runtime-Started env i true none np s nc c = by_kind _ refl refl refl
runtime-Started env i false xn true none nc c = by_kind _ refl refl refl
runtime-Started env i false xn false xs false xc =
    (by_kind _ (refl, refl) (refl, refl) (refl, refl), refl, refl, refl)
runtime-Started env i false xn false xs true none = by_kind _ refl refl refl
runtime-Started env i false xn false xs true (some c) =
    (by_kind _ (refl, refl) (refl, refl) (refl, refl), refl, refl, refl)
runtime-Started env i false xn true (some s) false xc =
    (by_kind _ (refl, refl) (refl, refl) (refl, refl), refl, refl, refl)
runtime-Started env i false xn true (some s) true none = by_kind _ refl refl refl
runtime-Started env i false xn true (some s) true (some c) =
    (by_kind _ (refl, refl) (refl, refl) (refl, refl), refl, refl, refl)
runtime-Started env i true (some n) true none nc c = by_kind _ refl refl refl
runtime-Started env i true (some n) false xs false xc =
    (by_kind _ (refl, refl) (refl, refl) (refl, refl), refl, refl, refl)
runtime-Started env i true (some n) false xs true none = by_kind _ refl refl refl
runtime-Started env i true (some n) false xs true (some c) =
    (by_kind _ (refl, refl) (refl, refl) (refl, refl), refl, refl, refl)
runtime-Started env i true (some n) true (some s) false xc =
    (by_kind _ (refl, refl) (refl, refl) (refl, refl), refl, refl, refl)
runtime-Started env i true (some n) true (some s) true none = by_kind _ refl refl refl
runtime-Started env i true (some n) true (some s) true (some c) =
    (by_kind _ (refl, refl) (refl, refl) (refl, refl), refl, refl, refl)

-- A program that is not made gives back what was made for it.
failed_init :
    (k : Kind) (runtime : ProgramRuntime) (events : List Event) (f : ℕ)
    → made k events ≡ listed (context k runtime)
    → destroyed k events ≡ []
    → made k (events ++ calls f ∷ cleanup_runtime runtime ++ frees_program ∷ [])
      ≡ destroyed k (events ++ calls f ∷ cleanup_runtime runtime ++ frees_program ∷ [])
failed_init k runtime events f m d =
    let (none_made, all_gone) =
      cleanup-kinds runtime.network_context runtime.state_context runtime.cli_context
        runtime.is_running k in
    made_end k (events ++ calls f ∷ cleanup_runtime runtime)
    ∙ made_call k events (cleanup_runtime runtime) f
    ∙ ap₂ (λ xs ys. xs ++ ys) m none_made
    ∙ append-nil (listed (context k runtime))
    ∙ sym (ap₂ (λ xs ys. xs ++ ys) d all_gone)
    ∙ sym (destroyed_call k events (cleanup_runtime runtime) f)
    ∙ sym (destroyed_end k (events ++ calls f ∷ cleanup_runtime runtime))

-- The call of `init` changes no context.
called :
    (k : Kind) (events : List Event) (f : ℕ)
    → (made k (events ++ (if f == 0 then [] else calls f ∷ [])) ≡ made k events)
      × (destroyed k (events ++ (if f == 0 then [] else calls f ∷ [])) ≡ destroyed k events)
called k events f = elim (Bool-cases (f == 0)) [
  | inl absent ↦ rw absent (ap (made k) (append-nil events), ap (destroyed k) (append-nil events))
  | inr there ↦ rw there (
    made_call k events [] f ∙ append-nil (made k events),
    destroyed_call k events [] f ∙ append-nil (destroyed k events),
  )
]

finish_create-Balanced :
    (env : RuntimeEnv) (i : ProgramInterface) (done : Bool) (runtime : ProgramRuntime)
    (events : List Event)
    → Started i env (done, runtime, events)
    → Balanced i env
        (finish_create env i done runtime events).0
        (finish_create env i done runtime events).1
unfolding finish_create
finish_create-Balanced env i false runtime events v =
    λ k. made_end k events ∙ v k ∙ sym (destroyed_end k events)
finish_create-Balanced env i true runtime events (v, a, b, c) =
    elim (Bool-cases (not (i.init == 0) && not env.init_ok)) [
      | inl failed ↦ rw failed (λ k. failed_init k runtime events i.init (v k).0 (v k).1)
      | inr fine ↦ rw fine (
        (λ k. ((called k events i.init).0 ∙ (v k).0, (called k events i.init).1 ∙ (v k).1)),
        refl,
        a,
        b,
        c,
      )
    ]

-- Once the interface is found and the program allocated, whatever the other components answer,
-- `program_create` loses no context: where it fails, the contexts of each kind that it has made are
-- those that it has destroyed, each once; where it succeeds, it has destroyed none, those that it
-- has made are those of the program, and the program has the interface and, of each kind that it
-- needs, the context that was made, and no other.
pub create_from-Balanced :
    (env : RuntimeEnv) (i : ProgramInterface)
    → Balanced i env (create_from env i).0 (create_from env i).1
unfolding create_from
create_from-Balanced env i =
    finish_create-Balanced env i (init_runtime env i).0 (init_runtime env i).1
      (init_runtime env i).2
      (runtime-Started env i i.needs_network env.network i.needs_persistence env.state i.needs_cli
        env.cli)

cleanup_calls-plain :
    (k : Kind) (i : Option ProgramInterface)
    → (made k (cleanup_calls i) ≡ []) × (destroyed k (cleanup_calls i) ≡ [])
cleanup_calls-plain k none = (refl, refl)
cleanup_calls-plain k (some i) = called k [] i.cleanup

-- `program_destroy` of a program destroys, of each kind, the context that the program has, once,
-- and no other, and makes none.
pub program_destroy-context :
    (program : Program) (k : Kind)
    → (destroyed k (program_destroy (some program)) ≡ listed (context k program.runtime))
      × (made k (program_destroy (some program)) ≡ [])
unfolding program_destroy
program_destroy-context program k =
    let (none_made, all_gone) =
      cleanup-kinds program.runtime.network_context program.runtime.state_context
        program.runtime.cli_context program.runtime.is_running k in
    let calls_only = cleanup_calls program.interface in
    (
      destroyed_end k (calls_only ++ cleanup_runtime program.runtime)
          ∙ destroyed-append k calls_only (cleanup_runtime program.runtime)
          ∙ ap₂ (λ xs ys. xs ++ ys) (cleanup_calls-plain k program.interface).1 all_gone,
      made_end k (calls_only ++ cleanup_runtime program.runtime)
          ∙ made-append k calls_only (cleanup_runtime program.runtime)
          ∙ ap₂ (λ xs ys. xs ++ ys) (cleanup_calls-plain k program.interface).0 none_made,
    )
