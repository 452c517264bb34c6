-- ===== src/Manager/Watch.antt =====
-- libs/config/src/profile_manager.cpp: the watch on the profile directory. What the calls of the
-- system answer is an argument.
use hardware_panel.Base.{
  ℕ, ◌+◌, ◌≡◌, refl, List, [], ◌∷◌, Option, Bool, true, false, ltb, if◌then◌else◌, arith, inl, inr,
  Bool-cases, subst,
}
use hardware_panel.Base.Int.{ℤ}
use hardware_panel.Bus.{Bus}
use hardware_panel.Manager.{notify}

-- `joinable` is `watch_thread_.joinable()`, and `looping` whether the thread is still in `WatchLoop`.
-- The handles are open unless they are INVALID_HANDLE_VALUE and null. `opened` and `closed` count the
-- handles that the system has given, and those that `CloseHandle` has given back.
pub record Watch : Type 0 where
  pub watching : Bool
  pub dir_open : Bool
  pub event_open : Bool
  pub joinable : Bool
  pub looping : Bool
  pub opened : ℕ
  pub closed : ℕ

abbrev pub unwatched : Watch
unwatched = record {
  watching = false;
  dir_open = false;
  event_open = false;
  joinable = false;
  looping = false;
  opened = 0;
  closed = 0;
}

-- `opens` and `makes_event` tell whether the directory can be opened and the event be made.
unfoldable pub start_file_watch : (opens makes_event : Bool) → Watch → Watch
start_file_watch opens makes_event w =
    if w.watching
    then w
    else if opens
    then record {
      watching = true;
      dir_open = true;
      event_open = makes_event;
      joinable = true;
      looping = true;
      opened = if makes_event then w.opened + 2 else w.opened + 1;
      closed = w.closed;
    }
    else record w { watching = false; dir_open = false }

-- `join` returns when the thread has left `WatchLoop`, which it does once `watching_` is false.
unfoldable pub join_thread : Watch → Watch
join_thread w = if w.joinable then record w { joinable = false; looping = false } else w

unfoldable pub close_dir : Watch → Watch
close_dir w = if w.dir_open then record w { dir_open = false; closed = w.closed + 1 } else w

unfoldable pub close_event : Watch → Watch
close_event w = if w.event_open then record w { event_open = false; closed = w.closed + 1 } else w

-- `CancelIoEx` changes nothing that is modelled.
unfoldable pub stop_file_watch : Watch → Watch
unfolding join_thread close_dir close_event
stop_file_watch w =
    if w.watching then close_event (close_dir (join_thread (record w { watching = false }))) else w

-- What a round of the loop meets after its wait of 500 ms: `watching_` is false, the wait ended
-- without the event, or with it, at a time, with a number of bytes, and with an answer to the next
-- `arm`.
pub data WatchRound : Type 0 where
  unwatches idles : WatchRound
  changes : ℤ → ℕ → Bool → WatchRound

-- The rounds of the loop, to the end of the list or the round that leaves it.
unfoldable pub watch_rounds : List WatchRound → Option Bus → Option Bus
watch_rounds [] events = events
watch_rounds (unwatches ∷ rs) events = events
watch_rounds (idles ∷ rs) events = watch_rounds rs events
watch_rounds (changes now bytes armed ∷ rs) events =
    let events' =
      if ltb 0 bytes
      then notify now "info" "Profiles changed" "profile directory updated" events
      else events in
    let rest = watch_rounds rs events' in if armed then rest else events'

unfoldable pub watch_loop : Bool → List WatchRound → Option Bus → Option Bus
unfolding watch_rounds
watch_loop armed rs events = if armed then watch_rounds rs events else events

-- The calls of the owner, and the thread's own return from `WatchLoop`, after the first `arm` or a
-- later one has failed.
pub data WatchOp : Type 0 where
  starts : (opens makes_event : Bool) → WatchOp
  stops ends : WatchOp

unfoldable pub watch_step : Watch → WatchOp → Watch
unfolding start_file_watch stop_file_watch
watch_step w (starts opens makes_event) = start_file_watch opens makes_event w
watch_step w stops = stop_file_watch w
watch_step w ends = record w { looping = false }

unfoldable pub watch_run : Watch → List WatchOp → Watch
unfolding watch_step
watch_run w [] = w
watch_run w (o ∷ os) = watch_run (watch_step w o) os

-- The thread is to be joined and the directory's handle is open exactly while the directory is
-- watched; the event is open, and the thread in its loop, only while it is; and each handle that the
-- system has given is still open or has been closed once.
pub record HasNoLeak (w : Watch) : Type 0 where
  pub joined : w.joinable ≡ w.watching
  pub dir_closed : w.dir_open ≡ w.watching
  pub event_closed : w.watching ≡ false → w.event_open ≡ false
  pub left : w.watching ≡ false → w.looping ≡ false
  pub balanced :
      w.opened ≡ w.closed + (if w.dir_open then 1 else 0) + (if w.event_open then 1 else 0)

stop-HasNoLeak : (w : Watch) → HasNoLeak w → HasNoLeak (stop_file_watch w)
unfolding stop_file_watch
stop-HasNoLeak w h = elim (Bool-cases w.watching) [
  | inr off ↦ let same : w ≡ stop_file_watch w = ground (arith, off) in subst HasNoLeak same h
  | inl on ↦ record {
    joined = ground (arith, on, h.joined);
    dir_closed = ground (arith, on, h.dir_closed);
    event_closed = λ e. ground (arith, on);
    left = λ e. ground (arith, on, h.joined);
    balanced = ground (arith, on, h.balanced);
  }
]

start-HasNoLeak :
    (opens makes_event : Bool) (w : Watch)
    → HasNoLeak w
    → HasNoLeak (start_file_watch opens makes_event w)
unfolding start_file_watch
start-HasNoLeak opens makes_event w h = record {
  joined = ground (arith, h.joined);
  dir_closed = ground (arith, h.dir_closed);
  event_closed = λ e. ground (arith, h.event_closed, e);
  left = λ e. ground (arith, h.left, e);
  balanced = ground (arith, h.balanced, h.dir_closed, h.event_closed);
}

watch_step-HasNoLeak : (w : Watch) (o : WatchOp) → HasNoLeak w → HasNoLeak (watch_step w o)
unfolding watch_step
watch_step-HasNoLeak w (starts opens makes_event) h = start-HasNoLeak opens makes_event w h
watch_step-HasNoLeak w stops h = stop-HasNoLeak w h
watch_step-HasNoLeak w ends h = record {
  joined = h.joined;
  dir_closed = h.dir_closed;
  event_closed = h.event_closed;
  left = λ e. refl;
  balanced = h.balanced;
}

watch_run-keeps : (w : Watch) (os : List WatchOp) → HasNoLeak w → HasNoLeak (watch_run w os)
unfolding watch_run
watch_run-keeps w [] h = h
watch_run-keeps w (o ∷ os) h = watch_run-keeps (watch_step w o) os (watch_step-HasNoLeak w o h)

-- After any sequence of StartFileWatch, StopFileWatch and returns of the thread from its loop,
-- whatever the system answers to the calls, the thread is to be joined and the directory's handle open
-- exactly while `watching_` is set; the event's handle is open, and the thread in its loop, only while
-- it is; and each handle that the system has given is open or has been closed, once.
pub watch_run-HasNoLeak : (os : List WatchOp) → HasNoLeak (watch_run unwatched os)
watch_run-HasNoLeak os = watch_run-keeps unwatched os (record {
  joined = refl;
  dir_closed = refl;
  event_closed = λ e. refl;
  left = λ e. refl;
  balanced = refl;
})

-- The times of the changes that carry bytes, up to the end of the loop.
abbrev pub change_times : List WatchRound → List ℤ
change_times [] = []
change_times (unwatches ∷ rs) = []
change_times (idles ∷ rs) = change_times rs
change_times (changes now bytes armed ∷ rs) =
    let later = change_times rs in
    let rest = if armed then later else [] in if ltb 0 bytes then now ∷ rest else rest

abbrev pub notify_all : List ℤ → Option Bus → Option Bus
notify_all [] events = events
notify_all (now ∷ times) events =
    notify_all times (notify now "info" "Profiles changed" "profile directory updated" events)

watch_rounds-notify :
    (rs : List WatchRound) (events : Option Bus)
    → watch_rounds rs events ≡ notify_all (change_times rs) events
unfolding watch_rounds
watch_rounds-notify [] events = refl
watch_rounds-notify (unwatches ∷ rs) events = refl
watch_rounds-notify (idles ∷ rs) events = watch_rounds-notify rs events
watch_rounds-notify (changes now bytes armed ∷ rs) events = elim (Bool-cases (ltb 0 bytes)) [
  | inl some_bytes ↦ elim (Bool-cases armed) [
    | inl on ↦
        rw (some_bytes, on)
          (watch_rounds-notify rs
            (notify now "info" "Profiles changed" "profile directory updated" events))
    | inr off ↦ rw (some_bytes, off) refl
  ]
  | inr no_bytes ↦ elim (Bool-cases armed) [
    | inl on ↦ rw (no_bytes, on) (watch_rounds-notify rs events)
    | inr off ↦ rw (no_bytes, off) refl
  ]
]

-- The watch thread publishes one "Profiles changed" event, stamped with its time, for each change
-- that the system reports with a positive number of bytes until the loop ends, in order, and nothing
-- else; none if the first `arm` fails.
watch_loop-notify :
    (armed : Bool) (rs : List WatchRound) (events : Option Bus)
    → watch_loop armed rs events ≡ notify_all (if armed then change_times rs else []) events
unfolding watch_loop
watch_loop-notify true rs events = watch_rounds-notify rs events
watch_loop-notify false rs events = refl
