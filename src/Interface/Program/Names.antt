-- ===== src/Interface/Program/Names.antt =====
-- The registry of interface/program.c is a table from names to interfaces.
use phantomid.Common.{
  ◌≤◌, ◌≡◌, refl, ◌⊎◌, Bool, true, false, [], ◌∷◌, ◌++◌, none, some, is_some, arith, leb,
  if◌then◌else◌, Bool-cases, Option-cases, inl, inr, length, length-append,
}
use phantomid.Common.CString.{Str, str_eq, str_eq_iff}
use phantomid.Interface.Program.{
  max_programs, ProgramInterface, ProgramRegistry, find_interface, program_register,
}

find_interface-append :
    (name : Str) (i : ProgramInterface) (is : ProgramRegistry)
    → find_interface i.name is ≡ none
    → find_interface name (is ++ i ∷ [])
      ≡ (if str_eq i.name name then some i else find_interface name is)
unfolding find_interface
find_interface-append name i [] free = ground arith
find_interface-append name i (x ∷ xs) free = ground (
  arith,
  find_interface-append name i xs,
  str_eq_iff x.name name,
  str_eq_iff i.name name,
  str_eq_iff x.name i.name,
)

-- What `program_register` promises.
pub record Registers (registry : ProgramRegistry) (i : ProgramInterface) (done : Bool)
    (after : ProgramRegistry) : Type 0 where
  pub fits : length after ≤ max_programs
  pub refused : done ≡ false → after ≡ registry
  pub why :
      done ≡ false
      → (length registry ≡ max_programs) ⊎ (is_some (find_interface i.name registry) ≡ true)
  pub updated :
      done ≡ true
      → (name : Str)
      → find_interface name after
        ≡ (if str_eq i.name name then some i else find_interface name registry)
  pub was_new : done ≡ true → find_interface i.name registry ≡ none

-- On a registry of at most 32 interfaces, `program_register` of an interface leaves at most 32; it
-- fails, and changes nothing, only where there are 32 or one has the name; where it succeeds the
-- name was new, and `find_interface` gives the interface for its name and what it gave before for
-- all others.
pub program_register-Registers :
    (registry : ProgramRegistry) (i : ProgramInterface)
    → length registry ≤ max_programs
    → Registers registry i
        (program_register registry (some i)).0
        (program_register registry (some i)).1
unfolding program_register
program_register-Registers registry i fits =
    elim (Bool-cases (leb max_programs (length registry))) [
      | inl full ↦ rw full (record {
        fits = fits;
        refused = λ e. refl;
        why = λ e. inl (ground arith);
        updated = λ e. absurd (ground arith);
        was_new = λ e. absurd (ground arith);
      })
      | inr room ↦ elim (Option-cases (find_interface i.name registry)) [
        | inr (x, found) ↦
            rw (room, found, program_register)
              (record {
                fits = fits;
                refused = λ e. refl;
                why = λ e. inr (rw found refl);
                updated = λ e. absurd (ground arith);
                was_new = λ e. absurd (ground arith);
              })
        | inl free ↦
            rw (room, free, program_register)
              (record {
                fits = ground (arith, length-append registry (i ∷ []));
                refused = λ e. absurd (ground arith);
                why = λ e. absurd (ground arith);
                updated = λ e name. find_interface-append name i registry free;
                was_new = λ e. free;
              })
      ]
    ]
