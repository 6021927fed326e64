-- ===== src/Interface/State/Handlers.antt =====
-- `register_handler` and `state_init` of interface/state.c.
use phantomid.Common.{
  ℕ, ◌≤◌, ◌≡◌, refl, Bool, true, false, ◌&&◌, [], ◌∷◌, ◌++◌, Option, some, arith, leb, ◌⊎◌,
  Option-cases, Bool-cases, inl, inr, length, length-append,
}
use phantomid.Common.CString.{Str, Bytes}
use phantomid.Interface.Registry.{
  Table, update, find_handler, replace_handler, find_handler-append, replace_handler-none,
  replace_handler-Replaced,
}
use phantomid.Interface.State.{
  StateEntry, StateContext, max_handlers, magic_number, register_state_handler, init_state_context,
  state_init,
}
use phantomid.Interface.State.Entries.{Stores}

abbrev pub table_of : StateContext → Table
table_of ctx type = find_handler type ctx.handlers

-- On a context with at most 32 handlers, `register_handler` of state.c fails and changes nothing
-- where there are 32, for a type that is registered as well; else it succeeds, there are at most
-- 32, and the table from types to handlers is updated at the type.
pub register_state_handler-update :
    (ctx : StateContext) (type handler : ℕ)
    → length ctx.handlers ≤ max_handlers
    → ((length ctx.handlers ≡ max_handlers)
        × (register_state_handler (some ctx) type (some handler) ≡ (false, some ctx)))
      ⊎ ((after : StateContext) × (register_state_handler (some ctx) type (some handler)
            ≡ (true, some after))
          × (length after.handlers ≤ max_handlers)
          × ((a : ℕ) → table_of after a ≡ update (table_of ctx) type handler a))
unfolding register_state_handler
register_state_handler-update ctx type handler fits =
    elim (Bool-cases (leb max_handlers (length ctx.handlers))) [
      | inl full ↦ inl (ground arith, rw full refl)
      | inr room ↦ inr (elim (Option-cases (replace_handler type handler ctx.handlers)) [
        | inl nothing ↦ (
          record ctx { handlers = ctx.handlers ++ record { type = type; handler = handler } ∷ [] },
          rw room (rw (register_state_handler, nothing) refl),
          ground
              (arith, length-append ctx.handlers (record { type = type; handler = handler } ∷ [])),
          λ a.
              find_handler-append a type handler ctx.handlers
                (replace_handler-none type handler ctx.handlers nothing),
        )
        | inr (fs, ran) ↦
            let r = replace_handler-Replaced type handler ctx.handlers fs ran in
            (
              record ctx { handlers = fs },
              rw room (rw (register_state_handler, ran) refl),
              omega (arith, r.same_length, fits),
              r.now,
            )
      ])
    ]

-- `state_init` with a name fails exactly where `calloc`, `strdup` or the mutex fails, and leaves
-- the program's data as it was then; else the program has a context that stores no entries and has
-- no handlers, with the magic number and the version 1.
pub state_init_lem :
    (image : StateEntry → Bytes) (now : ℕ) (calloc_ok strdup_ok mutex_ok : Bool)
    (user_data : Option StateContext) (filename : Str)
    → ((calloc_ok && strdup_ok && mutex_ok ≡ false)
        × (state_init now calloc_ok strdup_ok mutex_ok user_data (some filename)
            ≡ (false, user_data)))
      ⊎ ((ctx : StateContext) × (state_init now calloc_ok strdup_ok mutex_ok user_data
              (some filename)
            ≡ (true, some ctx))
          × Stores image ctx []
          × (ctx.handlers ≡ [])
          × (ctx.header.magic ≡ magic_number)
          × (ctx.header.version ≡ 1))
unfolding state_init init_state_context
state_init_lem image now false strdup_ok mutex_ok user_data filename = inl (refl, refl)
state_init_lem image now true false mutex_ok user_data filename = inl (refl, refl)
state_init_lem image now true true false user_data filename = inl (refl, refl)
state_init_lem image now true true true user_data filename = inr (
  _,
  refl,
  record { bytes = refl; entries = tt; unique = λ type id. omega arith },
  refl,
  refl,
  refl,
)
