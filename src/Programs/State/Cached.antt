-- ===== src/Programs/State/Cached.antt =====
-- The calls of programs/state.c through the member `state`, as interface/state.c implements them: an
-- entry that is set is stored in the cache, and the handlers of its type are called.
use phantomid.Common.{
  ℕ, ◌<◌, ◌≡◌, refl, ap, ◌∙◌, ◌≢◌, Bool, true, false, not, List, [], ◌∷◌, Option, none, some, ◌==◌,
  ◌>>=◌, eq→==, ◌+◌, leb, if◌then◌else◌, Bool-cases, inl, inr, length, arith,
}
use phantomid.Common.CString.{Str, Bytes, cstr, text, strncpy, str_eq_self}
use phantomid.Interface.State.{
  StateEntry, StateContext, Notice, notices, get_entry, set_in, is_entry,
}
use phantomid.Interface.State.Cells.{IsEntry}
use phantomid.Interface.State.Entries.{Stores, get_entry-set_in}
use phantomid.Programs.Commands.{Host}
use phantomid.Programs.State.{
  phantom_state_network, ProgramState, state_data, freed_data, Phantom, Services,
}
use phantomid.Programs.State.Entries.{network_entry, with_local, save_network_state}
use phantomid.Programs.State.Changes.{
  visit_nodes, phantom_save_state, phantom_check_state, phantom_state_cleanup, handle_state_change,
}
use phantomid.Programs.State.Dangling.{handle_state_change_unowned}

-- A handler of the registry, by its address; the argument of the id may be NULL.
abbrev pub Handler : Type 0
Handler = Phantom StateContext → ℕ → Option Str → Option (Phantom StateContext)

-- `handle_state_change` where its address is called, and what the other handlers do.
abbrev pub call :
    Services StateContext
    → Host
    → ℕ
    → (ℕ → Handler)
    → Notice
    → Phantom StateContext
    → Option (Phantom StateContext)
call services host change others n program =
    if n.handler == change
    then elim n.id [
      | none ↦ some program
      | some id ↦ handle_state_change services host program n.type id
    ]
    else others n.handler program n.type n.id

-- The calls, one after the other.
abbrev pub notify_all :
    Services StateContext
    → Host
    → ℕ
    → (ℕ → Handler)
    → List Notice
    → Phantom StateContext
    → Option (Phantom StateContext)
notify_all services host change others [] program = some program
notify_all services host change others (n ∷ ns) program =
    call services host change others n program >>= λ after.
    notify_all services host change others ns after

module _ (size : ℕ) (image : StateEntry → Bytes) (parse : Bytes → StateEntry) where
  -- `get_entry` of the program's cache
  abbrev pub get_cached : Phantom StateContext → ℕ → Str → Option StateEntry
  get_cached program type id = get_entry size image parse (some program.world) type (some id)

  abbrev pub told :
      Services StateContext
      → Host
      → ℕ
      → (ℕ → Handler)
      → Phantom StateContext
      → Bool × StateContext × List Notice
      → Option (Bool × Phantom StateContext)
  told services host change others program (done, after, calls) =
      notify_all services host change others calls (record program { world = after })
      >>= λ notified. some (done, notified)

  -- `set_entry` of the program's cache, where `realloc` gives memory.
  abbrev pub set_cached :
      Services StateContext
      → Host
      → ℕ
      → (ℕ → Handler)
      → Phantom StateContext
      → StateEntry
      → Option (Bool × Phantom StateContext)
  set_cached services host change others program entry =
      told services host change others program (set_in size image parse true program.world entry)

  -- The calls through the member `state` are those of interface/state.c.
  pub record Caches (services : Services StateContext) (host : Host) (change : ℕ)
      (others : ℕ → Handler) : Type 0 where
    pub gets :
        (program : Phantom StateContext) (type : ℕ) (id : Str)
        → services.get_entry program type id ≡ get_cached program type id
    pub sets :
        (program : Phantom StateContext) (entry : StateEntry)
        → services.set_entry program entry ≡ set_cached services host change others program entry

network_entry-IsEntry : (services : Services StateContext) → IsEntry (network_entry services)
unfolding strncpy cstr
network_entry-IsEntry services = (refl, omega arith)

module _ (size : ℕ) (image : StateEntry → Bytes) (parse : Bytes → StateEntry) (some_size : 0 < size)
    (length-image : (e : StateEntry) → IsEntry e → length (image e) ≡ size)
    (parse-image : (e : StateEntry) → IsEntry e → parse (image e) ≡ e)
    (services : Services StateContext) (host : Host) (change : ℕ) (others : ℕ → Handler)
    (caches : Caches size image parse services host change others) where
  -- Setting an entry whose data `malloc` has not given, and whose type `handle_state_change` handles.
  set_entry_unowned :
      (program : Phantom StateContext) (es : List StateEntry) (entry : StateEntry)
      (more : List Notice)
      → Stores image program.world es
      → IsEntry entry
      → notices entry.type (cstr entry.id) program.world.handlers
        ≡ record { handler = change; type = entry.type; id = some (cstr entry.id) } ∷ more
      → entry.payload ≢ 0
      → program.memory.malloced entry.payload ≡ false
      → services.set_entry program entry ≡ none
  unfolding is_entry
  set_entry_unowned program es entry more stores is first there unowned =
      let (after, fs, ran, stored, gives) =
        get_entry-set_in size image parse some_size length-image parse-image program.world es entry
          stores is in
      let found : services.get_entry (record program { world = after }) entry.type (cstr entry.id)
          ≡ some entry =
        caches.gets (record program { world = after }) entry.type (cstr entry.id)
        ∙ gives entry.type (cstr entry.id)
        ∙ rw (eq→== entry.type entry.type refl, str_eq_self (cstr entry.id)) refl in
      caches.sets program entry
      ∙ ap (told size image parse services host change others program)
          (ran ∙ ap (λ ns. (true, after, ns)) first)
      ∙ rw (eq→== change change refl) (
          rw
            (
              handle_state_change_unowned services host (record program { world = after })
                  entry.type entry (cstr entry.id) found there unowned,
              ◌>>=◌,
            )
            refl)

  network_unsaved :
      (program : Phantom StateContext) (es : List StateEntry) (more : List Notice) (now : ℕ)
      → Stores image program.world es
      → notices phantom_state_network (text "network") program.world.handlers
        ≡ record { handler = change; type = phantom_state_network; id = some (text "network") }
          ∷ more
      → services.local ≢ 0
      → save_network_state services now program ≡ none
  unfolding save_network_state strncpy cstr
  network_unsaved program es more now stores first there =
      rw
        (
          set_entry_unowned (with_local services now program) es (network_entry services) more
              stores (network_entry-IsEntry services) first there
              (rw (eq→== services.local services.local refl) refl),
          ◌>>=◌,
        )
        refl

  module _ (program : Phantom StateContext) (state : ProgramState) (es : List StateEntry)
      (more : List Notice) (at : program.user_data ≡ state_data state)
      (treeless : state.tree ≡ none) (stores : Stores image program.world es)
      (first : notices phantom_state_network (text "network") program.world.handlers
        ≡ record { handler = change; type = phantom_state_network; id = some (text "network") }
          ∷ more)
      (there : services.local ≢ 0) where
    saving_faults : (k now : ℕ) → phantom_save_state services k now program ≡ none
    unfolding phantom_save_state visit_nodes
    saving_faults k now =
        let stamped : Phantom StateContext = record program {
          user_data = state_data (record state { tree = none; last_save = now });
        } in
        rw (at, ◌>>=◌)
          (rw (treeless, visit_nodes, ◌>>=◌)
            (rw (network_unsaved stamped es more now stores first there, ◌>>=◌) refl))

    -- Let an entry whose id has its 64 bytes with a terminator among them have a positive size in
    -- memory, fill the bytes of its image and be read back from it. Let the calls through the
    -- member `state` be `get_entry` and `set_entry` of interface/state.c on a cache that stores
    -- such entries with no key twice, where `realloc` gives memory and the first handler for the
    -- entry of the network is `handle_state_change`. Let the tree of the state be NULL, as
    -- `phantom_state_init` leaves it, and let the local variables not stand at NULL. Then
    -- `phantom_save_state` has no defined result: the handler frees the local variable that the
    -- entry of the network leads to. So `phantom_check_state` has none once the interval has passed
    -- and `auto_save` is set; else it changes nothing, and tells whether `auto_save` is set.
    -- `phantom_state_cleanup` has none where `auto_save` is set, and else only frees the state.
    pub phantom_save_state_faults :
        (k now : ℕ)
        → (phantom_save_state services k now program ≡ none)
          × (phantom_check_state services k now program ≡ (
              if not state.config.auto_save
              then some (false, program)
              else if leb (state.last_save + state.config.save_interval) now
              then none
              else some (true, program)))
          × (phantom_state_cleanup services k now program ≡ (
              if state.config.auto_save
              then none
              else some (record program { user_data = freed_data })))
    unfolding phantom_check_state phantom_state_cleanup
    phantom_save_state_faults k now =
        let saving = saving_faults k now in
        (
          saving,
          simp (at, phantom_check_state, saving, ◌>>=◌) refl,
          elim (Bool-cases state.config.auto_save) [
            | inl auto ↦ simp (at, auto, phantom_state_cleanup, saving, ◌>>=◌) refl
            | inr manual ↦ simp (at, manual, phantom_state_cleanup, ◌>>=◌) refl
          ],
        )
