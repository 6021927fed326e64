-- ===== src/Cli/Faults.antt =====
-- Which commands of runtime/cli/cli.c are a fault.
use mathlib.Core.Path.{subst}
use phantomid.Common.{
  ℕ, ◌≡◌, refl, sym, ◌∙◌, inl, inr, Bool, true, false, not, ◌&&◌, ◌||◌, List, [], ◌∷◌, Option, none,
  some, arith, ltb, if◌then◌else◌, ◌>>=◌, is_some, Bool-cases,
}
use phantomid.Common.CString.{Str, Bytes, text, str_eq, str_eq_iff, cstr}
use phantomid.Network.{NetworkContext}
use phantomid.Cli.{
  cmd_error_args, CliContext, Ran, fails, copy_data, net_status_command, send_command,
  broadcast_command, cli_execute_network,
}
use phantomid.Cli.Parsing.{max_args, parse_args, parse_array}
use phantomid.Cli.Words.{IsWord, AllWords, parse_args-AllWords}
use phantomid.Cli.Arrays.{
  terminated, ended, parse_array-terminated, parse_array_unended, unended-IsStr,
}

-- The rest of a command that sends a message: enough words for `send`, or for `broadcast`.
abbrev pub sends : Str → List Str → Bool
sends sub [] = false
sends sub (a ∷ []) = str_eq sub (text "broadcast")
sends sub (a ∷ b ∷ rest) = str_eq sub (text "send") || str_eq sub (text "broadcast")

-- A command for the network that reads it where it is NULL, or that writes behind its message.
abbrev pub net_faulty : CliContext → List Str → Bool
net_faulty ctx [] = false
net_faulty ctx (sub ∷ args) =
    if str_eq sub (text "status") then not (is_some ctx.network) else sends sub args

abbrev pub faulty : CliContext → List Str → Bool
faulty ctx [] = false
faulty ctx (name ∷ args) =
    if str_eq name (text "status")
    then not (is_some ctx.network)
    else str_eq name (text "net") && net_faulty ctx args

-- A fault exactly where it is a bad one.
pub data Settled (bad : Bool) : Option Ran → Type 0 where
  faults : bad ≡ true → Settled bad none
  settles : {ran : Ran} → bad ≡ false → Settled bad (some ran)

pub Settled-test :
    {bad : Bool} (b : Bool) (x y : Option Ran)
    → (b ≡ true → Settled bad x)
    → (b ≡ false → Settled bad y)
    → Settled bad (if b then x else y)
Settled-test true x y hx hy = hx refl
Settled-test false x y hx hy = hy refl

-- Where a word is a literal, the case of the literal.
pub Settled-word :
    (bad : Str → Bool) (name word : Str) (o : Option Ran)
    → str_eq name word ≡ true
    → Settled (bad word) o
    → Settled (bad name) o
Settled-word bad name word o e h =
    subst (λ (s : Str). Settled (bad s) o) (sym ((str_eq_iff name word).0 e)) h

pub Settled-network :
    (o : Option NetworkContext) (f : NetworkContext → Ran)
    → Settled (not (is_some o)) (o >>= λ network. some (f network))
Settled-network none f = faults refl
Settled-network (some network) f = settles refl

copy_data_word : (message : Str) → IsWord message → copy_data message ≡ none
unfolding copy_data
copy_data_word [] (some_char, no_space) = absurd (some_char refl)
copy_data_word (c ∷ cs) h = ground arith

module _ (sent : Option ℕ → Bytes → Option ℕ) (ctx : CliContext) where
  sending :
      (node_id message : Str) {bad : Bool}
      → IsWord message
      → bad ≡ true
      → Settled bad (send_command sent ctx node_id message)
  unfolding send_command
  sending node_id message word e = rw (copy_data_word message word, ◌>>=◌) (faults e)

  broadcasting :
      (message : Str) {bad : Bool}
      → IsWord message
      → bad ≡ true
      → Settled bad (broadcast_command ctx message)
  unfolding broadcast_command
  broadcasting message word e = rw (copy_data_word message word, ◌>>=◌) (faults e)

  pub cli_execute_network-Settled :
      (name : Str) (args : List Str)
      → AllWords args
      → Settled (net_faulty ctx args) (cli_execute_network sent ctx (name ∷ args))
  unfolding cli_execute_network net_status_command str_eq
  cli_execute_network-Settled name [] words = settles refl
  cli_execute_network-Settled name (sub ∷ args) (word, words) =
      Settled-test (str_eq sub (text "status")) _ _ (λ e. rw e (Settled-network ctx.network _))
        (λ no_status. rw no_status (
          Settled-test (str_eq sub (text "send")) _ _
            (λ e.
              Settled-word (λ (s : Str). sends s args) sub (text "send") _ e (at_send args words))
            (λ no_send.
              Settled-test (str_eq sub (text "broadcast")) _ _
                (λ e.
                  Settled-word (λ (s : Str). sends s args) sub (text "broadcast") _ e
                    (at_broadcast args words))
                (λ no_broadcast. settles (no_sends args no_send no_broadcast)))))
    where
      at_send :
          (args : List Str)
          → AllWords args
          → Settled (sends (text "send") args) (elim args as (λ x. Option Ran) [
            | [] ↦ fails cmd_error_args ctx (text "Usage: net send <node_id> <message>")
            | node_id ∷ more ↦ elim more [
              | [] ↦ fails cmd_error_args ctx (text "Usage: net send <node_id> <message>")
              | message ∷ rest ↦ send_command sent ctx node_id message
            ]
          ])
      at_send [] words = settles refl
      at_send (a ∷ []) words = settles refl
      at_send (a ∷ b ∷ rest) (v, (w, words)) = sending a b w refl

      at_broadcast :
          (args : List Str)
          → AllWords args
          → Settled (sends (text "broadcast") args) (elim args as (λ x. Option Ran) [
            | [] ↦ fails cmd_error_args ctx (text "Usage: net broadcast <message>")
            | message ∷ rest ↦ broadcast_command ctx message
          ])
      at_broadcast [] words = settles refl
      at_broadcast (a ∷ []) (w, words) = broadcasting a w refl
      at_broadcast (a ∷ b ∷ rest) (w, words) = broadcasting a w refl

      no_sends :
          (args : List Str)
          → str_eq sub (text "send") ≡ false
          → str_eq sub (text "broadcast") ≡ false
          → sends sub args ≡ false
      no_sends [] a b = refl
      no_sends (x ∷ []) a b = b
      no_sends (x ∷ y ∷ rest) a b = rw (a, b) refl

-- What `parse_args` fills in are words, whatever the array.
pub parse_array-AllWords :
    (arr : Bytes) (argv : List Str) → parse_array max_args arr ≡ some argv → AllWords argv
unfolding parse_args
parse_array-AllWords arr argv e = elim (Bool-cases (terminated arr)) [
  | inl t ↦
      let same : parse_args (cstr arr) ≡ argv =
        given (sym (parse_array-terminated max_args arr t) ∙ e) in
      subst AllWords same (parse_args-AllWords (cstr arr)).0
  | inr t ↦
      let read = parse_array_unended max_args arr (unended-IsStr arr t) in
      elim (Bool-cases (ltb max_args (ended arr))) [
        | inl enough ↦
            let same : parse_args arr ≡ argv = given (sym (read ∙ rw enough refl) ∙ e) in
            subst AllWords same (parse_args-AllWords arr).0
        | inr short ↦
            let lost : parse_array max_args arr ≡ none = read ∙ rw short refl in
            absurd (never (sym e ∙ lost))
      ]
]
  where
    given : {a b : List Str} → some a ≡ some b → a ≡ b
    given e = cc (e)

    never : {a : List Str} → some a ≡ none → ⊥
    never e = cc (e)
