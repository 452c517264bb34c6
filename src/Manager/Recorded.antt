-- ===== src/Manager/Recorded.antt =====
-- `SwitchTo` where every setting is applied, and what becomes of the active id.
use hardware_panel.Base.{String, true, false, ◌≡◌, ◌≢◌, ◌⊎◌, refl, List, [], some}
use hardware_panel.Base.Int.{ℤ}
use hardware_panel.Base.Assoc.{lookup}
use hardware_panel.Types.{Profile}
use hardware_panel.Executors.{Executor}
use hardware_panel.Store
use hardware_panel.Store.{parsed}
use hardware_panel.Store.Env.{Json, JsonLaws, FileSystem}
use hardware_panel.Store.Roundtrip.{Replaces, active_id-set_active_id, set_active_id_failed}
use hardware_panel.Manager.{SwitchResult, State, notify, active_id, switch_to}
use hardware_panel.Manager.Reversible.{apply_each}
use hardware_panel.Manager.Rollback.{switch_to-applies}

module _ (json : Json) (fs : FileSystem json.Bytes) {W : Type 0} where
  -- What a switch that applied every setting answers and leaves: success with "ok", no key rolled back, the machine
  -- `w'`, one "Profile applied" event, and an active id.
  abbrev pub IsApplied :
      ℤ → String → W → String → State json fs W → State json fs W × SwitchResult → Type 0
  IsApplied now name w' active s (s', r) =
      (r.ok ≡ true)
      × (r.message ≡ "ok")
      × (r.rolled_back_keys ≡ [])
      × (s'.world ≡ w')
      × (active_id json fs s' ≡ active)
      × (s'.bus ≡ notify now "info" "Profile applied" name s.bus)

  -- If the profile's file is read as `profile`, every setting of it finds an executor that is
  -- available and accepts the value, in turn, and active.json can be written in full, renamed and
  -- read, then `SwitchTo` succeeds and reports no key as rolled back: the machine is in the state
  -- after all these calls, `ActiveId` is the profile's id, one "Profile applied" event with its name
  -- is published, and no file but active.json and its temporary one has changed.
  pub switch_applies :
      JsonLaws json
      → (es : List (Executor W)) (now : ℤ) (id : String) (s : State json fs W) (profile : Profile)
        (w' : W)
      → Store.get json fs id s.dir ≡ parsed profile
      → apply_each es profile.settings s.world ≡ some w'
      → Replaces json fs "active.json.tmp" "active.json"
      → fs.readable "active.json" ≡ true
      → (answer : State json fs W × SwitchResult) × (switch_to json fs es now id s ≡ some answer)
        × IsApplied now profile.name w' id s answer
        × ((n : String)
            → n ≢ "active.json"
            → n ≢ "active.json.tmp"
            → lookup n answer.0.dir ≡ lookup n s.dir)
  unfolding active_id
  switch_applies laws es now id s profile w' found h r opens =
      let stored = active_id-set_active_id json fs laws id s.dir r opens in
      (
        _,
        switch_to-applies json fs es now id s profile w' found h,
        (refl, refl, refl, refl, stored.0, refl),
        stored.1,
      )

  -- If the profile's file is read as `profile`, every setting of it finds an executor that is
  -- available and accepts the value, in turn, and the temporary file of active.json cannot be opened
  -- or cannot be renamed, then `SwitchTo` still succeeds, with the machine changed and the "Profile
  -- applied" event published, while `ActiveId` is what it was before.
  pub switch_unrecorded :
      (es : List (Executor W)) (now : ℤ) (id : String) (s : State json fs W) (profile : Profile)
      (w' : W)
      → Store.get json fs id s.dir ≡ parsed profile
      → apply_each es profile.settings s.world ≡ some w'
      → (fs.writable "active.json.tmp" ≡ false)
        ⊎ (fs.renamable "active.json.tmp" "active.json" ≡ false)
      → (answer : State json fs W × SwitchResult) × (switch_to json fs es now id s ≡ some answer)
        × IsApplied now profile.name w' (active_id json fs s) s answer
  unfolding active_id
  switch_unrecorded es now id s profile w' found h fails = (
    _,
    switch_to-applies json fs es now id s profile w' found h,
    (refl, refl, refl, refl, set_active_id_failed json fs id s.dir fails, refl),
  )
