-- ===== src/Host/Lifecycle.antt =====
-- What the host's state says about the threads that run.
use hardware_panel.Base.{
  ℕ, String, Bool, true, false, not, ◌≡◌, ◌≢◌, ◌↔◌, str_eq_iff, refl, ap, ◌∙◌, ◌⊎◌, List, [], ◌∷◌,
  Option, none, some, arith, Option-cases, inl, inr,
}
use hardware_panel.Base.Int.{ℤ}
use hardware_panel.Endpoint.{tcp_address, default_tcp_port, is_named_pipe_address}
use hardware_panel.Pipeline
use hardware_panel.Pipeline.{Pipeline, Collector}
use hardware_panel.Store
use hardware_panel.Store.{Dir}
use hardware_panel.Store.Env.{Json, FileSystem}
use hardware_panel.Host.{
  Host, Op, stops, pauses, resumes, new, build_server, bind, register_all, serve, start, stop,
  state_name, step, run,
}

module _ {json : Json} {S V : Type 0} where
  -- A host that serves has a bound server, and its collectors run unless it is paused; a pipeline has
  -- a thread exactly while it runs.
  pub record IsConsistent (h : Host json S V) : Type 0 where
    pub serving : h.running ≡ true → h.server ≢ none
    pub collecting : h.running ≡ true → h.pipeline.running ≡ not h.paused
    pub threaded : h.pipeline.thread ≡ h.pipeline.running

  step-IsConsistent : (h : Host json S V) (o : Op) → IsConsistent h → IsConsistent (step h o)
  unfolding step Pipeline.stop Pipeline.start
  step-IsConsistent h stops c = ground arith
  step-IsConsistent h pauses c = ground arith
  step-IsConsistent h resumes c = ground arith

  run-IsConsistent : (h : Host json S V) (os : List Op) → IsConsistent h → IsConsistent (run h os)
  unfolding run
  run-IsConsistent h [] c = c
  run-IsConsistent h (o ∷ os) c = run-IsConsistent (step h o) os (step-IsConsistent h o c)

  -- The collectors run exactly when the state that the service reports is RUNNING, as long as it is not
  -- STOPPED.
  state-collecting :
      (h : Host json S V)
      → IsConsistent h
      → state_name h ≢ "STOPPED"
      → (h.pipeline.running ≡ true) ↔ (state_name h ≡ "RUNNING")
  unfolding state_name
  state-collecting h c live =
      ground (arith, str_eq_iff "PAUSED" "RUNNING", str_eq_iff "STOPPED" "RUNNING")

module _ {S V : Type 0} where
  register_all-idle :
      (cs : List (Collector S V)) (p : Pipeline S V)
      → ((register_all cs p).running ≡ p.running) × ((register_all cs p).thread ≡ p.thread)
  unfolding Pipeline.register
  register_all-idle [] p = (refl, refl)
  register_all-idle (c ∷ cs) p = register_all-idle cs (Pipeline.register c p)

-- What a successful bind is: the address asked for, or the loopback address in place of a pipe.
bind-binds :
    (binds : String → Bool) (to_string : ℕ → String) (endpoint a actual : String)
    → bind binds to_string endpoint ≡ (some a, actual)
    → (a ≡ actual)
      × (binds actual ≡ true)
      × ((actual ≡ endpoint)
          ⊎ ((is_named_pipe_address endpoint ≡ true)
              × (binds endpoint ≡ false)
              × (actual ≡ tcp_address to_string default_tcp_port)))
unfolding bind build_server
bind-binds binds to_string endpoint a actual e = ground arith

-- A sequence of `Stop` calls.
abbrev pub all_stops : List Op → Bool
all_stops [] = true
all_stops (stops ∷ os) = all_stops os
all_stops (pauses ∷ os) = false
all_stops (resumes ∷ os) = false

module _ (json : Json) (fs : FileSystem json.Bytes) {S V : Type 0} where
  -- A fresh host whose `Start` returns true listens on the address that it reports, which is the one
  -- asked for, or the loopback address if that was a pipe and could not be bound.
  start_reports :
      (binds : String → Bool) (to_string : ℕ → String) (collectors : List (Collector S V))
      (watch : Bool) (now : ℤ) (steady : ℕ) (endpoint : String) (dir : Dir json) (h : Host json S V)
      → start json fs binds to_string collectors watch now steady endpoint (new dir)
        ≡ some (h, true)
      → (h.server ≡ some h.endpoint)
        × (binds h.endpoint ≡ true)
        × ((h.endpoint ≡ endpoint)
            ⊎ ((is_named_pipe_address endpoint ≡ true)
                × (binds endpoint ≡ false)
                × (h.endpoint ≡ tcp_address to_string default_tcp_port)))
  unfolding start new
  start_reports binds to_string collectors watch now steady endpoint dir h e =
      go (Store.ensure_defaults json fs dir) (bind binds to_string endpoint) refl e
    where
      go :
          (seeded : Option (Dir json)) (b : Option String × String)
          → bind binds to_string endpoint ≡ b
          → elim seeded as (λ _. Option (Host json S V × Bool)) [
            | none ↦ none
            | some d ↦ some (
                serve now steady b (record (new {json = json} {S = S} {V = V} dir) {
                  dir = d;
                  pipeline = Pipeline.start (register_all collectors Pipeline.empty);
                  watching = some watch;
                }))
          ]
            ≡ some (h, true)
          → (h.server ≡ some h.endpoint)
            × (binds h.endpoint ≡ true)
            × ((h.endpoint ≡ endpoint)
                ⊎ ((is_named_pipe_address endpoint ≡ true)
                    × (binds endpoint ≡ false)
                    × (h.endpoint ≡ tcp_address to_string default_tcp_port)))
      go none b be e = absurd (ground arith)
      go (some d) (none, actual) be e = absurd (ground arith)
      go (some d) (some a, actual) be e =
          ground (arith, bind-binds binds to_string endpoint a actual be)

  serve-IsConsistent :
      (now : ℤ) (steady : ℕ) (b : Option String × String) (h h' : Host json S V)
      → h.paused ≡ false
      → h.pipeline.running ≡ true
      → h.pipeline.thread ≡ true
      → serve now steady b h ≡ (h', true)
      → IsConsistent h'
  serve-IsConsistent now steady (none, actual) h h' p r t e = absurd (ground arith)
  serve-IsConsistent now steady (some a, actual) h h' p r t e = ground arith

  start-IsConsistent :
      (binds : String → Bool) (to_string : ℕ → String) (collectors : List (Collector S V))
      (watch : Bool) (now : ℤ) (steady : ℕ) (endpoint : String) (dir : Dir json) (h : Host json S V)
      → start json fs binds to_string collectors watch now steady endpoint (new dir)
        ≡ some (h, true)
      → IsConsistent h
  unfolding start new Pipeline.start Pipeline.empty
  start-IsConsistent binds to_string collectors watch now steady endpoint dir h e =
      elim (Option-cases (Store.ensure_defaults json fs dir)) [
        | inl n ↦ absurd (ground (arith, e, n))
        | inr (d, s) ↦
            let idle = register_all-idle collectors (Pipeline.empty {S = S} {V = V}) in
            serve-IsConsistent now steady (bind binds to_string endpoint)
              (record (new {json = json} {S = S} {V = V} dir) {
                dir = d;
                pipeline = Pipeline.start (register_all collectors Pipeline.empty);
                watching = some watch;
              })
              h refl (ground (arith, idle)) (ground (arith, idle)) (ground (arith, e, s))
      ]

  -- After a successful `Start` of a fresh host and any sequence of `Stop`, `PauseCollectors` and
  -- `ResumeCollectors`: while the reported state is RUNNING a server is bound and the collectors run,
  -- while it is PAUSED a server is bound and the collectors do not run, and it is no other state but
  -- STOPPED.
  pub state_truthful :
      (binds : String → Bool) (to_string : ℕ → String) (collectors : List (Collector S V))
      (watch : Bool) (now : ℤ) (steady : ℕ) (endpoint : String) (dir : Dir json) (h : Host json S V)
      (os : List Op)
      → start json fs binds to_string collectors watch now steady endpoint (new dir)
        ≡ some (h, true)
      → let h' = run h os in
        (state_name h' ≡ "RUNNING" → (h'.server ≢ none) × (h'.pipeline.running ≡ true))
        × (state_name h' ≡ "PAUSED" → (h'.server ≢ none) × (h'.pipeline.running ≡ false))
        × ((state_name h' ≡ "RUNNING") ⊎ ((state_name h' ≡ "PAUSED") ⊎ (state_name h' ≡ "STOPPED")))
  unfolding state_name
  state_truthful binds to_string collectors watch now steady endpoint dir h os e =
      let c =
        run-IsConsistent h os
          (start-IsConsistent binds to_string collectors watch now steady endpoint dir h e) in
      (
        λ s. ground (arith, c, s, str_eq_iff "PAUSED" "RUNNING", str_eq_iff "STOPPED" "RUNNING"),
        λ s. ground (arith, c, s, str_eq_iff "RUNNING" "PAUSED", str_eq_iff "STOPPED" "PAUSED"),
        ground arith,
      )

  idle-stops :
      (h : Host json S V) (os : List Op) → all_stops os ≡ true → h.running ≡ false → run h os ≡ h
  unfolding run step
  idle-stops h [] a r = refl
  idle-stops h (stops ∷ os) a r =
      let still : stop h ≡ h = ground arith in ap (λ k. run k os) still ∙ idle-stops h os a r
  idle-stops h (pauses ∷ os) a r = absurd (ground arith)
  idle-stops h (resumes ∷ os) a r = absurd (ground arith)

  -- A failed `Start` leaks its threads: if the profiles can be seeded but neither the address nor, for
  -- a pipe, the loopback address can be bound, `Start` of a fresh host returns false with the
  -- collectors running and the directory watched, and no number of `Stop` calls ends them, while the
  -- reported state is STOPPED.
  pub failed_start_leaks :
      (binds : String → Bool) (to_string : ℕ → String) (collectors : List (Collector S V))
      (watch : Bool) (now : ℤ) (steady : ℕ) (endpoint : String) (dir dir' : Dir json) (os : List Op)
      → Store.ensure_defaults json fs dir ≡ some dir'
      → binds endpoint ≡ false
      → binds (tcp_address to_string default_tcp_port) ≡ false
      → all_stops os ≡ true
      → (h : Host json S V) × (start json fs binds to_string collectors watch now steady endpoint
            (new dir)
          ≡ some (h, false))
        × ((run h os).pipeline.running ≡ true)
        × ((run h os).watching ≡ some watch)
        × (state_name (run h os) ≡ "STOPPED")
  unfolding start new bind build_server state_name Pipeline.start Pipeline.empty
  failed_start_leaks binds to_string collectors watch now steady endpoint dir dir' os seeded no_bind
        no_tcp a =
      let left : Host json S V = record (new {json = json} {S = S} {V = V} dir) {
        dir = dir';
        pipeline = Pipeline.start (register_all collectors Pipeline.empty);
        watching = some watch;
      } in
      let still = idle-stops left os a refl in
      let idle = register_all-idle collectors (Pipeline.empty {S = S} {V = V}) in
      (
        left,
        ground (arith, seeded, no_bind, no_tcp),
        ap (λ (k : Host json S V). k.pipeline.running) still ∙ ground (arith, idle),
        ap (λ (k : Host json S V). k.watching) still,
        ap state_name still,
      )
