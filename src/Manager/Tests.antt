-- ===== src/Manager/Tests.antt =====
-- Switches over two executors, and the properties of a switch at them.
use hardware_panel.Base.{
  String, true, false, ◌≡◌, ◌≢◌, refl, arith, ◌∙◌, List, [], ◌∷◌, none, some, inl, str_eq,
  if◌then◌else◌,
}
use hardware_panel.Base.Assoc.{lookup}
use hardware_panel.Store.Env.{FileSystem}
use hardware_panel.Base.Int.{pos}
use hardware_panel.Types.{Profile}
use hardware_panel.Fanout
use hardware_panel.Executors.{Executor}
use hardware_panel.Store
use hardware_panel.Store.{Dir, parsed}
use hardware_panel.Store.Sample.{Doc, sample_json, sample_laws, sample_fs}
use hardware_panel.Store.Roundtrip.{get-save}
use hardware_panel.Manager.{State, SwitchResult, active_id, switch_to, find_executor}
use hardware_panel.Manager.Watch.{
  WatchOp, starts, stops, ends, WatchRound, idles, changes, unwatched, watch_run, HasNoLeak,
  watch_run-HasNoLeak,
}
use hardware_panel.Manager.Rollback.{RolledBack, switch_rolls_back}
use hardware_panel.Manager.Recorded.{IsApplied, switch_applies, switch_unrecorded}
use hardware_panel.Manager.Reversible.{IsReversible, IsReflTrans, apply_each, keys_before_failure}

-- The machine is the name of its power plan.
abbrev plan : Executor String
plan = record {
  key = "power.plan";
  available = λ w. true;
  current_value = λ w. w;
  apply = λ v w. (record { ok = true; message = v }, v);
}

abbrev refuses : Executor String
refuses = record {
  key = "zz.refuses";
  available = λ w. true;
  current_value = λ w. "";
  apply = λ v w. (record { ok = false; message = "no" }, w);
}

abbrev both : List (Executor String)
both = plan ∷ refuses ∷ []

abbrev saver : Profile
saver = record {
  id = "saver";
  name = "Saver";
  description = "";
  settings = ("power.plan", "saver") ∷ [];
}

abbrev broken : Profile
broken = record {
  id = "broken";
  name = "Broken";
  description = "";
  settings = ("power.plan", "saver") ∷ ("zz.refuses", "1") ∷ [];
}

abbrev holding : Profile → State sample_json sample_fs String
holding p = record {
  dir = (Store.save sample_json sample_fs p []).0;
  world = "balanced";
  bus = some Fanout.empty;
}

saver-found : Store.get sample_json sample_fs "saver" (holding saver).dir ≡ parsed saver
saver-found =
    (get-save sample_json sample_fs sample_laws saver [] (tt, tt)
      (record { opens = refl; renames = refl; stores = λ b. refl }) refl).1

broken-found : Store.get sample_json sample_fs "broken" (holding broken).dir ≡ parsed broken
broken-found =
    (get-save sample_json sample_fs sample_laws broken [] (tt, ((refl, tt), tt))
      (record { opens = refl; renames = refl; stores = λ b. refl }) refl).1

saver-applies : apply_each both saver.settings "balanced" ≡ some "saver"
unfolding apply_each find_executor
saver-applies = refl

broken-fails : apply_each both broken.settings "balanced" ≡ none
unfolding apply_each find_executor
broken-fails = refl

plan-IsReversible : IsReversible (λ w w'. w ≡ w') plan
plan-IsReversible = record {
  apply_cong = λ v w w' e. refl;
  apply_refused = λ v w e. absurd (ground arith);
  apply_undo = λ v w e. refl;
}

refuses-IsReversible : IsReversible (λ w w'. w ≡ w') refuses
refuses-IsReversible = record {
  apply_cong = λ v w w' e. e;
  apply_refused = λ v w e. refl;
  apply_undo = λ v w e. refl;
}

same-IsReflTrans : IsReflTrans {W = String} (λ w w'. w ≡ w')
same-IsReflTrans = record { same_refl = λ w. refl; same_trans = λ w w' w'' e e'. e ∙ e' }

switch_applies_example :
    (answer : State sample_json sample_fs String × SwitchResult) × (switch_to sample_json sample_fs
        both
        (pos 9)
        "saver"
        (holding saver)
      ≡ some answer)
    × IsApplied sample_json sample_fs (pos 9) "Saver" "saver" "saver" (holding saver) answer
    × ((n : String)
        → n ≢ "active.json"
        → n ≢ "active.json.tmp"
        → lookup n answer.0.dir ≡ lookup n (holding saver).dir)
switch_applies_example =
    switch_applies sample_json sample_fs sample_laws both (pos 9) "saver" (holding saver) saver
      "saver" saver-found saver-applies
      (record { opens = refl; renames = refl; stores = λ b. refl }) refl

-- A file system that does not let active.json.tmp be written.
abbrev guarded_fs : FileSystem Doc
guarded_fs = record sample_fs {
  writable = λ name. if str_eq name "active.json.tmp" then false else true;
}

abbrev guarded : State sample_json guarded_fs String
guarded = record {
  dir = (Store.save sample_json guarded_fs saver []).0;
  world = "balanced";
  bus = some Fanout.empty;
}

guarded-found : Store.get sample_json guarded_fs "saver" guarded.dir ≡ parsed saver
guarded-found =
    (get-save sample_json guarded_fs sample_laws saver [] (tt, tt)
      (record { opens = refl; renames = refl; stores = λ b. refl }) refl).1

switch_unrecorded_example :
    (answer : State sample_json guarded_fs String × SwitchResult) × (switch_to sample_json
        guarded_fs both
        (pos 9)
        "saver"
        guarded
      ≡ some answer)
    × IsApplied sample_json guarded_fs
        (pos 9)
        "Saver"
        "saver"
        (active_id sample_json guarded_fs guarded)
        guarded
        answer
switch_unrecorded_example =
    switch_unrecorded sample_json guarded_fs both (pos 9) "saver" guarded saver "saver"
      guarded-found saver-applies (inl refl)

switch_rolls_back_example :
    (answer : State sample_json sample_fs String × SwitchResult) × (switch_to sample_json sample_fs
        both
        (pos 9)
        "broken"
        (holding broken)
      ≡ some answer)
    × RolledBack sample_json sample_fs
        (λ w w'. w ≡ w')
        (pos 9)
        ("power.plan" ∷ [])
        (holding broken)
        answer
unfolding keys_before_failure find_executor
switch_rolls_back_example =
    switch_rolls_back sample_json sample_fs (λ w w'. w ≡ w') same-IsReflTrans both
      (plan-IsReversible, (refuses-IsReversible, tt)) (pos 9) "broken" (holding broken) broken
      broken-found broken-fails

abbrev opened_once : List WatchOp
opened_once =
    starts false true
    ∷ stops
    ∷ starts true true
    ∷ ends
    ∷ starts true true
    ∷ stops
    ∷ starts true false
    ∷ []

watch_run-HasNoLeak_example : HasNoLeak (watch_run unwatched opened_once)
watch_run-HasNoLeak_example = watch_run-HasNoLeak opened_once

abbrev two_changes : List WatchRound
two_changes =
    idles
    ∷ changes (pos 4) 12 true
    ∷ changes (pos 5) 0 true
    ∷ changes (pos 6) 3 false
    ∷ changes (pos 7) 3 true
    ∷ []
