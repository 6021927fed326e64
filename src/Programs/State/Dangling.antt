-- ===== src/Programs/State/Dangling.antt =====
-- `handle_state_change` of programs/state.c frees the data of an entry that the cache keeps.
use phantomid.Common.{
  ==_iff, ℕ, ◌≡◌, refl, ap, ◌∙◌, ◌≢◌, Bool, true, false, not, ◌||◌, Option, none, some, ◌==◌, ◌>>=◌,
  eq→==, Bool-cases, inl, inr, ne→==,
}
use phantomid.Common.Ends.{Ends, ends, Ends-bind, Ends-if, Ends-then}
use phantomid.Common.CString.{Str}
use phantomid.Interface.State.{StateEntry}
use phantomid.Programs.Commands.{Host}
use phantomid.Programs.State.{
  phantom_state_node, phantom_state_network, phantom_state_config, Memory, Phantom, put, Services,
  as_state, object_at, as_node, as_config,
}
use phantomid.Programs.State.Entries.{
  load_into, load_node_state, load_network_state, load_config_state,
}
use phantomid.Programs.State.Changes.{free_data, load_entry, handle_state_change}

module _ {W : Type 0} (services : Services W) (host : Host) (program : Phantom W) (type : ℕ)
    (entry : StateEntry) where
  -- No load changes the memory or the cache.
  Keeps : Phantom W → Type 0
  Keeps after = (after.memory ≡ program.memory) × (after.world ≡ program.world)

  load_node_state-Keeps :
      Ends (λ (done : Bool × Phantom W). Keeps done.1) (load_node_state services host program entry)
  unfolding load_node_state Keeps
  load_node_state-Keeps =
      Ends-if (not (entry.type == phantom_state_node) || entry.payload == 0) _ _ (ends (refl, refl))
        (Ends-bind (object_at services program entry.payload >>= as_node) _ λ saved.
          Ends-bind (as_state program.user_data) _ λ state.
            Ends-bind (load_into services host saved state.tree) _ λ loaded. ends (refl, refl))

  load_config_state-Keeps :
      Ends (λ (done : Bool × Phantom W). Keeps done.1) (load_config_state services program entry)
  unfolding load_config_state Keeps
  load_config_state-Keeps =
      Ends-if (not (entry.type == phantom_state_config) || entry.payload == 0) _ _
        (ends (refl, refl))
        (Ends-bind (as_state program.user_data) _ λ state.
          Ends-bind (object_at services program entry.payload >>= as_config) _
            λ config. ends (refl, refl))

  load_entry-Keeps : Ends Keeps (load_entry services host program type entry)
  unfolding load_entry Keeps
  load_entry-Keeps =
      Ends-if (type == phantom_state_node) _ _
        (Ends-then (load_node_state services host program entry) _ load_node_state-Keeps
          λ loaded same. ends same)
        (Ends-if (type == phantom_state_network) _ _
          (Ends-bind (load_network_state services program entry) _ λ same. ends (refl, refl))
          (Ends-if (type == phantom_state_config) _ _
            (Ends-then (load_config_state services program entry) _ load_config_state-Keeps
              λ loaded same. ends same)
            (ends (refl, refl))))

  -- An entry whose data `malloc` has not given, or whose data have been freed, makes it a fault.
  pub handle_state_change_unowned :
      (id : Str)
      → services.get_entry program type id ≡ some entry
      → entry.payload ≢ 0
      → program.memory.malloced entry.payload ≡ false
      → handle_state_change services host program type id ≡ none
  unfolding handle_state_change free_data Keeps
  handle_state_change_unowned id found there unowned =
      rw (found, handle_state_change)
        (go (load_entry services host program type entry) load_entry-Keeps)
    where
      go :
          (o : Option (Phantom W))
          → Ends Keeps o
          → (o >>= λ loaded. free_data loaded entry.payload) ≡ none
      go none kept = refl
      go (some loaded) (ends (same, kept)) =
          rw (ne→== entry.payload 0 there)
            (rw (ap (λ (m : Memory). m.malloced entry.payload) same ∙ unowned) refl)

-- What a change does, on every answer of `get_entry`. Where it frees the data of an entry, the entry
-- is still in the cache, and a second change is a fault.
pub data Change {W : Type 0} (services : Services W) (host : Host) (program : Phantom W) (type : ℕ)
    (id : Str) : Option (Phantom W) → Type 0 where
  no_entry :
      services.get_entry program type id ≡ none
      → Change services host program type id (some program)
  no_load :
      {entry : StateEntry}
      → services.get_entry program type id ≡ some entry
      → load_entry services host program type entry ≡ none
      → Change services host program type id none
  no_payload :
      {entry : StateEntry} {loaded : Phantom W}
      → services.get_entry program type id ≡ some entry
      → load_entry services host program type entry ≡ some loaded
      → entry.payload ≡ 0
      → (loaded.memory ≡ program.memory) × (loaded.world ≡ program.world)
      → Change services host program type id (some loaded)
  not_owned :
      {entry : StateEntry}
      → services.get_entry program type id ≡ some entry
      → entry.payload ≢ 0
      → program.memory.malloced entry.payload ≡ false
      → Change services host program type id none
  frees :
      {entry : StateEntry} {loaded freed : Phantom W}
      → services.get_entry program type id ≡ some entry
      → entry.payload ≢ 0
      → program.memory.malloced entry.payload ≡ true
      → load_entry services host program type entry ≡ some loaded
      → freed ≡ record loaded { memory = put entry.payload none false program.memory }
      → freed.world ≡ program.world
      → services.get_entry freed type id ≡ some entry
      → handle_state_change services host freed type id ≡ none
      → Change services host program type id (some freed)

there_of : (p : ℕ) → (p == 0) ≡ false → p ≢ 0
there_of p e h = cc (e, eq→== p 0 h)

module _ {W : Type 0} (services : Services W) (host : Host)
    (reads_cache : (p q : Phantom W) (type : ℕ) (id : Str)
      → p.world ≡ q.world
      → services.get_entry p type id ≡ services.get_entry q type id) where
  freeing :
      (program loaded : Phantom W) (type : ℕ) (id : Str) (entry : StateEntry)
      → services.get_entry program type id ≡ some entry
      → load_entry services host program type entry ≡ some loaded
      → (loaded.memory ≡ program.memory) × (loaded.world ≡ program.world)
      → Change services host program type id (free_data loaded entry.payload)
  unfolding free_data
  freeing program loaded type id entry found ran (same, kept) =
      elim (Bool-cases (entry.payload == 0)) [
        | inl nothing ↦
            rw nothing (no_payload found ran ((==_iff entry.payload 0).0 nothing) (same, kept))
        | inr something ↦ elim (Bool-cases (program.memory.malloced entry.payload)) [
          | inl owned ↦
              let there : entry.payload ≢ 0 = there_of entry.payload something in
              let freed : Phantom W = record loaded {
                memory = put entry.payload none false loaded.memory;
              } in
              let again : services.get_entry freed type id ≡ some entry =
                reads_cache freed program type id kept ∙ found in
              rw (something, ap (λ (m : Memory). m.malloced entry.payload) same ∙ owned)
                (frees found there owned ran
                  (ap (λ (m : Memory). record loaded { memory = put entry.payload none false m })
                    same)
                  kept again
                  (handle_state_change_unowned services host freed type entry id again there
                    (rw (eq→== entry.payload entry.payload refl) refl)))
          | inr unowned ↦
              rw (something, ap (λ (m : Memory). m.malloced entry.payload) same ∙ unowned)
                (not_owned found (there_of entry.payload something) unowned)
        ]
      ]

  loading :
      (program : Phantom W) (type : ℕ) (id : Str) (entry : StateEntry)
      → services.get_entry program type id ≡ some entry
      → (o : Option (Phantom W)) → load_entry services host program type entry ≡ o
      → Ends
          (λ (after : Phantom W). (after.memory ≡ program.memory) × (after.world ≡ program.world))
          o
      → Change services host program type id (o >>= λ loaded. free_data loaded entry.payload)
  loading program type id entry found none ran kept = no_load found ran
  loading program type id entry found (some loaded) ran (ends kept) =
      freeing program loaded type id entry found ran kept

  looking :
      (program : Phantom W) (type : ℕ) (id : Str) (o : Option StateEntry)
      → services.get_entry program type id ≡ o
      → Change services host program type id (elim o as (λ x. Option (Phantom W)) [
        | none ↦ some program
        | some entry ↦
            load_entry services host program type entry >>= λ loaded. free_data loaded entry.payload
      ])
  unfolding Keeps
  looking program type id none e = no_entry e
  looking program type id (some entry) e =
      loading program type id entry e _ refl (load_entry-Keeps services host program type entry)

  -- Let `get_entry` depend on the cache only. Then `handle_state_change` is one of the cases of
  -- `Change`: nothing is done where the cache has no entry for the key; there is no defined result
  -- where the load of the entry has none or its data are not NULL and not from `malloc`; where they
  -- are NULL the entry is loaded and the memory and the cache are as before; else the entry is
  -- loaded and its data are freed, the cache still gives the same entry, and a second change of the
  -- key has no defined result.
  pub handle_state_change-Change :
      (program : Phantom W) (type : ℕ) (id : Str)
      → Change services host program type id (handle_state_change services host program type id)
  unfolding handle_state_change
  handle_state_change-Change program type id =
      looking program type id (services.get_entry program type id) refl
