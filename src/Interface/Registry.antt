-- ===== src/Interface/Registry.antt =====
-- The registry of handlers by type, which interface/message.c and interface/command.c each have.
-- A handler is a function pointer; the list is the used front of the array `entries`.
use mathlib.Core.Path.{subst}
use phantomid.Common.{
  ℕ, ◌+◌, ◌≤◌, ◌≡◌, refl, Bool, true, false, List, [], ◌∷◌, ◌++◌, Option, none, some, arith, ltb,
  ◌==◌, if◌then◌else◌, ◌>>=◌, Option-cases, Bool-cases, inl, inr, length, length-append,
}

-- `HandlerEntry`
pub record HandlerEntry : Type 0 where
  pub type : ℕ
  pub handler : ℕ

-- `HandlerRegistry`; `count` is the length of the list.
pub record HandlerRegistry : Type 0 where
  pub entries : List HandlerEntry
  pub capacity : ℕ

-- `init_registry`, of the two calls that may fail.
unfoldable pub init_registry : Bool → Bool → ℕ → Option HandlerRegistry
init_registry calloc_ok mutex_ok capacity =
    if calloc_ok
    then if mutex_ok then some (record { entries = []; capacity = capacity }) else none
    else none

-- `cleanup_registry`
unfoldable pub cleanup_registry : HandlerRegistry → HandlerRegistry
cleanup_registry registry = record registry { entries = [] }

-- The loop that looks for an entry of the type and gives it the handler.
unfoldable pub replace_handler : ℕ → ℕ → List HandlerEntry → Option (List HandlerEntry)
replace_handler type handler [] = none
replace_handler type handler (e ∷ es) =
    let rest = replace_handler type handler es in
    if e.type == type
    then some (record e { handler = handler } ∷ es)
    else (rest >>= λ es'. some (e ∷ es'))

-- `register_handler` under the lock.
unfoldable pub register : HandlerRegistry → ℕ → ℕ → Bool × HandlerRegistry
register registry type handler = elim (replace_handler type handler registry.entries) [
  | some entries ↦ (true, record registry { entries = entries })
  | none ↦
      if ltb (length registry.entries) registry.capacity
      then (
        true,
        record registry {
          entries = registry.entries ++ record { type = type; handler = handler } ∷ [];
        },
      )
      else (false, registry)
]

-- The loop that looks for the handler of a type.
unfoldable pub find_handler : ℕ → List HandlerEntry → Option ℕ
find_handler type [] = none
find_handler type (e ∷ es) =
    let rest = find_handler type es in if e.type == type then some e.handler else rest

-- How often a type is registered.
abbrev pub uses : ℕ → List HandlerEntry → ℕ
uses type [] = 0
uses type (e ∷ es) = (if e.type == type then 1 else 0) + uses type es

-- The array is not overrun, and no type stands in it twice.
pub record IsValid (registry : HandlerRegistry) : Type 0 where
  pub fits : length registry.entries ≤ registry.capacity
  pub unique : (type : ℕ) → uses type registry.entries ≤ 1

-- The table that the registry stands for, and an update of it.
abbrev pub Table : Type 0
Table = ℕ → Option ℕ

abbrev pub table : HandlerRegistry → Table
table registry type = find_handler type registry.entries

abbrev pub update : Table → ℕ → ℕ → Table
update f type handler a = if a == type then some handler else f a

pub find_handler-append :
    (a type handler : ℕ) (es : List HandlerEntry)
    → find_handler type es ≡ none
    → find_handler a (es ++ record { type = type; handler = handler } ∷ [])
      ≡ update (λ b. find_handler b es) type handler a
unfolding find_handler
find_handler-append a type handler [] free = ground arith
find_handler-append a type handler (e ∷ es) free =
    ground (arith, find_handler-append a type handler es)

uses-append :
    (a type handler : ℕ) (es : List HandlerEntry)
    → uses a (es ++ record { type = type; handler = handler } ∷ [])
      ≡ uses a es + (if type == a then 1 else 0)
uses-append a type handler [] = ground arith
uses-append a type handler (e ∷ es) = ground (arith, uses-append a type handler es)

uses_of_none : (type : ℕ) (es : List HandlerEntry) → find_handler type es ≡ none → uses type es ≡ 0
unfolding find_handler
uses_of_none type [] free = refl
uses_of_none type (e ∷ es) free = ground (arith, uses_of_none type es)

-- What the first loop does: it finds nothing, or changes the handler of the one entry.
pub replace_handler-none :
    (type handler : ℕ) (es : List HandlerEntry)
    → replace_handler type handler es ≡ none
    → find_handler type es ≡ none
unfolding replace_handler find_handler
replace_handler-none type handler [] e = refl
replace_handler-none type handler (x ∷ es) e = ground (arith, replace_handler-none type handler es)

pub record Replaced (type handler : ℕ) (es fs : List HandlerEntry) : Type 0 where
  pub there : (h : ℕ) × (find_handler type es ≡ some h)
  pub now : (a : ℕ) → find_handler a fs ≡ update (λ b. find_handler b es) type handler a
  pub same_uses : (a : ℕ) → uses a fs ≡ uses a es
  pub same_length : length fs ≡ length es

pub replace_handler-Replaced :
    (type handler : ℕ) (es fs : List HandlerEntry)
    → replace_handler type handler es ≡ some fs
    → Replaced type handler es fs
unfolding replace_handler find_handler
replace_handler-Replaced type handler [] fs e = absurd (ground arith)
replace_handler-Replaced type handler (x ∷ es) fs e = elim (Bool-cases (x.type == type)) [
  | inl here ↦
      let made : record x { handler = handler } ∷ es ≡ fs = ground arith in
      subst (λ gs. Replaced type handler (x ∷ es) gs) made
        (record {
          there = (x.handler, rw here refl);
          now = λ a. ground arith;
          same_uses = λ a. refl;
          same_length = refl;
        })
  | inr away ↦ elim (Option-cases (replace_handler type handler es)) [
    | inl nothing ↦ absurd (ground arith)
    | inr (gs, ran) ↦
        let made : x ∷ gs ≡ fs = ground arith in
        let r = replace_handler-Replaced type handler es gs ran in
        subst (λ gs. Replaced type handler (x ∷ es) gs) made
          (record {
            there = (r.there.0, rw away r.there.1);
            now = λ a. ground (arith, r.now a);
            same_uses = λ a. ground (arith, r.same_uses a);
            same_length = omega (arith, r.same_length);
          })
  ]
]

-- What `register` promises: it refuses a new type where the array is full, and changes nothing
-- then; else the table is updated.
pub record Registered (registry : HandlerRegistry) (type handler : ℕ) (done : Bool)
    (after : HandlerRegistry) : Type 0 where
  pub valid : IsValid after
  pub same_capacity : after.capacity ≡ registry.capacity
  pub refused :
      done ≡ false
      → (after ≡ registry)
        × (table registry type ≡ none)
        × (length registry.entries ≡ registry.capacity)
  pub updated : done ≡ true → (a : ℕ) → table after a ≡ update (table registry) type handler a

-- On a valid registry (no type twice, no more entries than its capacity), `register` leaves a valid
-- registry of the same capacity, and does what an update of a table from types to handlers does:
-- where it succeeds, the type has the new handler and all others are as before; it fails only where
-- the type is new and the array is full, and then nothing has changed.
pub register-Registered :
    (registry : HandlerRegistry) (type handler : ℕ)
    → IsValid registry
    → Registered registry type handler
        (register registry type handler).0
        (register registry type handler).1
unfolding register
register-Registered registry type handler v =
    elim (Option-cases (replace_handler type handler registry.entries)) [
      | inr (fs, ran) ↦
          let r = replace_handler-Replaced type handler registry.entries fs ran in
          rw (register, ran)
            (record {
              valid = record {
                fits = omega (arith, r.same_length, v.fits);
                unique = λ a. omega (arith, r.same_uses a, v.unique a);
              };
              same_capacity = refl;
              refused = λ e. absurd (ground arith);
              updated = λ e. r.now;
            })
      | inl nothing ↦
          let free = replace_handler-none type handler registry.entries nothing in
          elim (Bool-cases (ltb (length registry.entries) registry.capacity)) [
            | inl room ↦
                rw (register, nothing)
                  (rw room (record {
                    valid = record {
                      fits = ground (
                        arith,
                        length-append registry.entries
                            (record { type = type; handler = handler } ∷ []),
                      );
                      unique = λ a. ground (
                        arith,
                        uses-append a type handler registry.entries,
                        v.unique a,
                        uses_of_none type registry.entries free,
                      );
                    };
                    same_capacity = refl;
                    refused = λ e. absurd (ground arith);
                    updated = λ e a. find_handler-append a type handler registry.entries free;
                  }))
            | inr full ↦
                rw (register, nothing)
                  (rw full (record {
                    valid = v;
                    same_capacity = refl;
                    refused = λ e. (refl, free, ground (arith, v.fits));
                    updated = λ e. absurd (ground arith);
                  }))
          ]
    ]
