-- ===== src/Interface/Program/Contexts.antt =====
-- The contexts that a list of events of interface/program.c makes and destroys.
use phantomid.Common.{
  ℕ, ◌≡◌, refl, sym, ap, ◌∙◌, Bool, List, [], ◌∷◌, ◌++◌, append-nil, append_assoc, Option, none,
  some,
}
use phantomid.Interface.Program.{
  ProgramRuntime, Event, creates_network, destroys_network, creates_state, destroys_state,
  creates_cli, destroys_cli, calls, frees_program, cleanup_runtime,
}

-- The three kinds of context.
pub data Kind : Type 0 where
  network : Kind
  state : Kind
  cli : Kind

-- The contexts of a kind that are made, and those that are destroyed.
abbrev pub made_by : Kind → Event → List ℕ
made_by network (creates_network c) = c ∷ []
made_by state (creates_state c) = c ∷ []
made_by cli (creates_cli c) = c ∷ []
made_by k e = []

abbrev pub destroyed_by : Kind → Event → List ℕ
destroyed_by network (destroys_network c) = c ∷ []
destroyed_by state (destroys_state c) = c ∷ []
destroyed_by cli (destroys_cli c) = c ∷ []
destroyed_by k e = []

abbrev pub made : Kind → List Event → List ℕ
made k [] = []
made k (e ∷ es) = made_by k e ++ made k es

abbrev pub destroyed : Kind → List Event → List ℕ
destroyed k [] = []
destroyed k (e ∷ es) = destroyed_by k e ++ destroyed k es

abbrev pub listed : Option ℕ → List ℕ
listed none = []
listed (some c) = c ∷ []

abbrev pub context : Kind → ProgramRuntime → Option ℕ
context network runtime = runtime.network_context
context state runtime = runtime.state_context
context cli runtime = runtime.cli_context

pub by_kind {ℓ} : (P : Kind → Type ℓ) → P network → P state → P cli → (k : Kind) → P k
by_kind P a b c network = a
by_kind P a b c state = b
by_kind P a b c cli = c

pub made-append : (k : Kind) (es fs : List Event) → made k (es ++ fs) ≡ made k es ++ made k fs
made-append k [] fs = refl
made-append k (e ∷ es) fs =
    ap (λ xs. made_by k e ++ xs) (made-append k es fs)
    ∙ sym (append_assoc (made_by k e) (made k es) (made k fs))

pub destroyed-append :
    (k : Kind) (es fs : List Event) → destroyed k (es ++ fs) ≡ destroyed k es ++ destroyed k fs
destroyed-append k [] fs = refl
destroyed-append k (e ∷ es) fs =
    ap (λ xs. destroyed_by k e ++ xs) (destroyed-append k es fs)
    ∙ sym (append_assoc (destroyed_by k e) (destroyed k es) (destroyed k fs))

-- The end of a life destroys the contexts of the runtime, each once, and makes none.
pub cleanup-kinds :
    (n s c : Option ℕ) (running : Bool) (k : Kind)
    → (let runtime : ProgramRuntime = record {
      network_context = n;
      state_context = s;
      cli_context = c;
      is_running = running;
    } in
        (made k (cleanup_runtime runtime) ≡ [])
        × (destroyed k (cleanup_runtime runtime) ≡ listed (context k runtime)))
unfolding cleanup_runtime
cleanup-kinds none none none running = by_kind _ (refl, refl) (refl, refl) (refl, refl)
cleanup-kinds none none (some c) running = by_kind _ (refl, refl) (refl, refl) (refl, refl)
cleanup-kinds none (some s) none running = by_kind _ (refl, refl) (refl, refl) (refl, refl)
cleanup-kinds none (some s) (some c) running = by_kind _ (refl, refl) (refl, refl) (refl, refl)
cleanup-kinds (some n) none none running = by_kind _ (refl, refl) (refl, refl) (refl, refl)
cleanup-kinds (some n) none (some c) running = by_kind _ (refl, refl) (refl, refl) (refl, refl)
cleanup-kinds (some n) (some s) none running = by_kind _ (refl, refl) (refl, refl) (refl, refl)
cleanup-kinds (some n) (some s) (some c) running = by_kind _ (refl, refl) (refl, refl) (refl, refl)

pub made_plain : (k : Kind) (f : ℕ) → (made_by k frees_program ≡ []) × (made_by k (calls f) ≡ [])
made_plain = by_kind _ (λ f. (refl, refl)) (λ f. (refl, refl)) (λ f. (refl, refl))

pub destroyed_plain :
    (k : Kind) (f : ℕ) → (destroyed_by k frees_program ≡ []) × (destroyed_by k (calls f) ≡ [])
destroyed_plain = by_kind _ (λ f. (refl, refl)) (λ f. (refl, refl)) (λ f. (refl, refl))

-- The events, with a call and the freeing of the program between and behind them.
pub made_end : (k : Kind) (es : List Event) → made k (es ++ frees_program ∷ []) ≡ made k es
made_end k es =
    made-append k es (frees_program ∷ [])
    ∙ ap (λ xs. made k es ++ (xs ++ [])) (made_plain k 0).0
    ∙ append-nil (made k es)

pub destroyed_end :
    (k : Kind) (es : List Event) → destroyed k (es ++ frees_program ∷ []) ≡ destroyed k es
destroyed_end k es =
    destroyed-append k es (frees_program ∷ [])
    ∙ ap (λ xs. destroyed k es ++ (xs ++ [])) (destroyed_plain k 0).0
    ∙ append-nil (destroyed k es)

pub made_call :
    (k : Kind) (es fs : List Event) (f : ℕ) → made k (es ++ calls f ∷ fs) ≡ made k es ++ made k fs
made_call k es fs f =
    made-append k es (calls f ∷ fs) ∙ ap (λ xs. made k es ++ (xs ++ made k fs)) (made_plain k f).1

pub destroyed_call :
    (k : Kind) (es fs : List Event) (f : ℕ)
    → destroyed k (es ++ calls f ∷ fs) ≡ destroyed k es ++ destroyed k fs
destroyed_call k es fs f =
    destroyed-append k es (calls f ∷ fs)
    ∙ ap (λ xs. destroyed k es ++ (xs ++ destroyed k fs)) (destroyed_plain k f).1
