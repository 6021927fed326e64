-- ===== src/Interface/Command/Execute.antt =====
-- Registering a handler and running commands, of interface/command.c.
use phantomid.Common.{
  ℕ, ◌≡◌, refl, sym, ap, ◌∙◌, Bool, true, Option, none, some, ◌==◌, if◌then◌else◌, Option-cases,
  inl, inr,
}
use phantomid.Common.CString.{Str}
use phantomid.Interface.Registry
use phantomid.Interface.Registry.{register, find_handler, table, update, register-Registered}
use phantomid.Interface.Command.{
  CommandStatus, invalid, is_success, Command, CommandResponse, Program, register_handler,
  initial_response, execute_command, route_command,
}

module _ {W : Type 0}
    (call : ℕ
      → Program W
      → Command
      → CommandResponse
      → CommandStatus × CommandResponse × Program W) where
  -- What a table of handlers makes of a command.
  abbrev pub run_by :
      Registry.Table
      → Program W
      → Command
      → CommandResponse
      → CommandStatus × Option CommandResponse × Option (Program W)
  run_by f program command response = elim (f command.type) [
    | none ↦ (invalid, some response, some program)
    | some handler ↦
        let (status, filled, after) = call handler program command (initial_response command) in
        (status, some filled, some after)
  ]

  -- Let the program's registry be valid and let `register_handler` succeed. Whatever the handlers
  -- do, in the program that it leaves `execute_command` runs a command of the type by the new
  -- handler, with a response that has been reset, and every other command by the handler that its
  -- type had before; without a handler the command is invalid and the response untouched.
  pub execute_command-register_handler :
      (program after : Program W) (type handler : ℕ) (command : Command)
      (response : CommandResponse)
      → Registry.IsValid program.ctx.handlers
      → register_handler (some program) type (some handler) ≡ (true, some after)
      → execute_command call (some after) (some command) (some response)
        ≡ run_by (update (table program.ctx.handlers) type handler) after command response
  unfolding execute_command register_handler
  execute_command-register_handler program after type handler command response v done =
      ap (λ o. run_by (λ a. o) after command response)
        (ap (λ (r : Registry.HandlerRegistry). table r command.type) (sym kept)
          ∙ (register-Registered program.ctx.handlers type handler v).updated
              (ap (λ (r : Bool × Option (Program W)). r.0) done) command.type)
    where
      handlers_of : Option (Program W) → Registry.HandlerRegistry
      handlers_of none = program.ctx.handlers
      handlers_of (some p) = p.ctx.handlers

      kept : (register program.ctx.handlers type handler).1 ≡ after.ctx.handlers
      kept = ap (λ (r : Bool × Option (Program W)). handlers_of r.1) done

  -- What is freed of a response.
  abbrev pub freed_data : Option CommandResponse → Option ℕ
  freed_data none = none
  freed_data (some response) = if response.payload == 0 then none else some response.payload

  -- Whatever the handlers do, `route_command` has the effect of `execute_command` on the program,
  -- returns true exactly where the status is success, and frees the data of the response where the
  -- handler has set it, whatever the target is.
  pub route_command-execute_command :
      (program : Program W) (target : Str) (command : Command)
      → (let ran =
            execute_command call (some program) (some command) (some (initial_response command)) in
          ◌≡◌ {A = Bool × Option (Program W) × Option ℕ}
            (route_command call (some program) (some target) (some command))
            (is_success ran.0, ran.2, freed_data ran.1))
  unfolding execute_command route_command initial_response
  route_command-execute_command program target command =
      elim (Option-cases (find_handler command.type program.ctx.handlers.entries)) [
        | inl nothing ↦ rw (nothing, execute_command, route_command) refl
        | inr (h, found) ↦ rw (found, execute_command, route_command) refl
      ]
