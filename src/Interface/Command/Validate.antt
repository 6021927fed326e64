-- ===== src/Interface/Command/Validate.antt =====
-- Which commands `validate_command` of interface/command.c accepts.
use phantomid.Common.{◌≤◌, ◌≡◌, ◌≢◌, ◌⊎◌, ◌↔◌, true, some, arith}
use phantomid.Interface.Command.{Program, Command, first_byte, is_known, validate_command}

-- For a program and a command that are not NULL, `validate_command` accepts exactly the commands of
-- the five named types that have data or claim no bytes, and whose source is not empty; no command
-- of a custom type is accepted.
pub validate_command_iff :
    {W : Type 0} (program : Program W) (command : Command)
    → (validate_command (some program) (some command) ≡ true) ↔ (
        (command.type ≤ 4)
        × (command.data_size ≡ 0 ⊎ command.payload ≢ 0)
        × (first_byte command.source ≢ 0))
unfolding validate_command is_known
validate_command_iff program command = ground arith
