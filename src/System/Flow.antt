-- ===== src/System/Flow.antt =====
-- Nothing is lost between the collectors and the store of a client.
use hardware_panel.Base.{
  ◌<◌, ◌≡◌, refl, ap, ap₂, sym, ◌∙◌, ◌⊎◌, inl, inr, subst, true, false, List, [], ◌∷◌, ◌++◌, Option,
  none, some, length, get_elem?, set, append-nil, append_assoc, get_elem?-set_self,
}
use hardware_panel.Types.{TelemetrySample}
use hardware_panel.Fanout
use hardware_panel.Fanout.{
  Subscriber, Cell, Registry, Op, publishes, subscribes, pops, closes, releases, pop, pop_at, close,
}
use hardware_panel.Fanout.Delivery.{IsWellFormed, get_elem?_lt, publish_isolated}
use hardware_panel.Fanout.WellFormed.{step-IsWellFormed, tagged-registry}
use hardware_panel.Fanout.Stream.{step-cell, waiting}
use hardware_panel.Fanout.Promises.{accept-room}
use hardware_panel.Hub
use hardware_panel.Hub.{Hub, subscriber_queue_capacity}
use hardware_panel.Service.{subscribe_loop, decimate_of}
use hardware_panel.Client.{Double, TelemetryStore, new_store, handle_sample}
use hardware_panel.Client.Worker.{Phase, thread_step}
use hardware_panel.Client.Worker.Stream.{one_hertz, map-core_sample}
use hardware_panel.System.Rounds.{
  IsOther, round-sends, round_idle, pop-none, pop-some, other-cell, hub-step,
}
use hardware_panel.System.{System, round_of, counted, poll, handle_all, client_step}

module _ {double : Double} where
  open double use {V}

  handle_all-append :
      (xs ys : List (TelemetrySample V)) (t : TelemetryStore double)
      → handle_all (xs ++ ys) t ≡ handle_all ys (handle_all xs t)
  handle_all-append [] ys t = refl
  handle_all-append (x ∷ xs) ys t = handle_all-append xs ys (handle_sample double x t)

module _ {double : Double} {S : Type 0} where
  open double use {V}

  -- The call is open, its client reads the stream, and of what the ticks published (`said`) the client
  -- has handled `shown`, while the rest is on the wire or waits in the queue.
  pub record IsFlowing (s : System double S) (said shown : List (TelemetrySample V)) : Type 0 where
    pub cell : Cell (TelemetrySample V)
    pub there : get_elem? s.hub.registry.objects s.call ≡ some cell
    pub held : cell.owned ≡ true
    pub open' : cell.sub.closed ≡ false
    pub sound : IsWellFormed s.hub.registry
    pub reading : (s.phase ≡ Phase.inner) ⊎ (s.phase ≡ Phase.in_read)
    pub ledger : shown ++ (s.wire ++ cell.sub.queue) ≡ said
    pub on_screen : s.store ≡ handle_all shown (new_store double)

  pub tick-IsFlowing :
      (s : System double S) (sample : TelemetrySample V) (machine : S)
      (said shown : List (TelemetrySample V))
      → (f : IsFlowing s said shown)
      → length (waiting (get_elem? s.hub.registry.objects s.call)) < 64
      → IsFlowing
          (record s { machine = machine; hub = Hub.publish sample s.hub })
          (said ++ sample ∷ [])
          shown
  unfolding Hub.publish
  tick-IsFlowing s sample machine said shown f room =
      let grown : Subscriber (TelemetrySample V) = record f.cell.sub {
        queue = f.cell.sub.queue ++ sample ∷ [];
      } in
      let short : length f.cell.sub.queue < 64 =
        subst (λ o. length (waiting o) < 64) f.there room in
      record {
        cell = record f.cell { sub = grown };
        there =
            publish_isolated subscriber_queue_capacity sample s.hub.registry s.call f.cell f.sound
              f.there
            ∙ rw (f.held, accept-room subscriber_queue_capacity sample f.cell.sub f.open' short)
                refl;
        held = f.held;
        open' = f.open';
        sound =
            unfold Fanout.step in
            step-IsWellFormed subscriber_queue_capacity s.hub.registry (publishes sample) f.sound;
        reading = f.reading;
        ledger =
            ap (◌++◌ shown) (sym (append_assoc s.wire f.cell.sub.queue (sample ∷ [])))
            ∙ (sym (append_assoc shown (s.wire ++ f.cell.sub.queue) (sample ∷ []))
                ∙ ap (λ l. l ++ sample ∷ []) f.ledger);
        on_screen = f.on_screen;
      }

  pub other-IsFlowing :
      (s : System double S) (o : Op (TelemetrySample V)) (said shown : List (TelemetrySample V))
      → (f : IsFlowing s said shown) → IsOther s.call o
      → IsFlowing (record s { hub = (Hub.step s.hub o).0 }) said shown
  other-IsFlowing s o said shown f h =
      let moved =
        step-cell subscriber_queue_capacity s.hub.registry o s.call f.cell f.sound f.there in
      record {
        cell = f.cell;
        there =
            rw (hub-step s.hub o) (
              moved.0
              ∙ ap (λ p. some p.0) (other-cell subscriber_queue_capacity s.call o f.cell h));
        held = f.held;
        open' = f.open';
        sound =
            rw (hub-step s.hub o)
              (step-IsWellFormed subscriber_queue_capacity s.hub.registry o f.sound);
        reading = f.reading;
        ledger = f.ledger;
        on_screen = f.on_screen;
      }

  -- A poll whose `Pop` makes `sub'` of the subscriber and gives `x`.
  abbrev polled :
      Cell (TelemetrySample V)
      → Subscriber (TelemetrySample V)
      → Option (TelemetrySample V)
      → System double S
      → System double S
  polled c sub' x s = record s {
    hub = record s.hub {
      registry = record s.hub.registry {
        objects = set s.hub.registry.objects s.call (record c { sub = sub' });
      };
    };
    index = counted x s.index;
    wire = s.wire ++ subscribe_loop [] (decimate_of one_hertz) s.index (round_of x ∷ []);
  }

  poll_gives :
      (s : System double S) (c : Cell (TelemetrySample V)) (sub' : Subscriber (TelemetrySample V))
      (x : Option (TelemetrySample V))
      → get_elem? s.hub.registry.objects s.call ≡ some c
      → pop c.sub ≡ (sub', x)
      → poll s ≡ polled c sub' x s
  unfolding poll pop_at
  poll_gives s c sub' x e p = rw (e, pop_at, p) refl

  polled-IsWellFormed :
      (s : System double S) (c : Cell (TelemetrySample V)) (sub' : Subscriber (TelemetrySample V))
      (x : Option (TelemetrySample V))
      → IsWellFormed s.hub.registry
      → poll s ≡ polled c sub' x s
      → IsWellFormed (polled c sub' x s).hub.registry
  unfolding poll Fanout.step
  polled-IsWellFormed s c sub' x w e =
      subst (λ r. IsWellFormed r.hub.registry) e
        (subst IsWellFormed (tagged-registry s.call (pop_at s.hub.registry s.call))
          (step-IsWellFormed subscriber_queue_capacity s.hub.registry (pops s.call) w))

  pub poll-IsFlowing :
      (s : System double S) (said shown : List (TelemetrySample V))
      → IsFlowing s said shown
      → IsFlowing (poll s) said shown
  poll-IsFlowing s said shown f = popped-from f.cell.sub.queue refl
    where
      popped-from :
          (q : List (TelemetrySample V)) → f.cell.sub.queue ≡ q → IsFlowing (poll s) said shown
      popped-from [] e =
          let gives = poll_gives s f.cell f.cell.sub none f.there (pop-none f.cell.sub e) in
          subst (λ r. IsFlowing r said shown) (sym gives)
            (record {
              cell = f.cell;
              there =
                  get_elem?-set_self s.hub.registry.objects s.call f.cell
                    (get_elem?_lt s.hub.registry.objects s.call f.cell f.there);
              held = f.held;
              open' = f.open';
              sound = polled-IsWellFormed s f.cell f.cell.sub none f.sound gives;
              reading = f.reading;
              ledger = rw (round_idle s.index, append-nil s.wire) f.ledger;
              on_screen = f.on_screen;
            })
      popped-from (x ∷ q) e =
          let sub' : Subscriber (TelemetrySample V) = record f.cell.sub { queue = q } in
          let gives = poll_gives s f.cell sub' (some x) f.there (pop-some f.cell.sub x q e) in
          subst (λ r. IsFlowing r said shown) (sym gives)
            (record {
              cell = record f.cell { sub = sub' };
              there =
                  get_elem?-set_self s.hub.registry.objects s.call (record f.cell { sub = sub' })
                    (get_elem?_lt s.hub.registry.objects s.call f.cell f.there);
              held = f.held;
              open' = f.open';
              sound = polled-IsWellFormed s f.cell sub' (some x) f.sound gives;
              reading = f.reading;
              ledger =
                  rw (round-sends s.index x, append_assoc s.wire (x ∷ []) q)
                    (ap (λ l. shown ++ (s.wire ++ l)) (sym e) ∙ f.ledger);
              on_screen = f.on_screen;
            })

  -- A step of the client's thread handles the next message, if there is one and the thread reads.
  pub client_step-IsFlowing :
      (s : System double S) (said shown : List (TelemetrySample V))
      → IsFlowing s said shown
      → (shown' : List (TelemetrySample V)) × IsFlowing (client_step s.phase s.wire s) said shown'
  unfolding thread_step
  client_step-IsFlowing s said shown f = elim f.reading [
    | inl at ↦ (
      shown,
      simp at (record {
        cell = f.cell;
        there = f.there;
        held = f.held;
        open' = f.open';
        sound = f.sound;
        reading = inr refl;
        ledger = f.ledger;
        on_screen = f.on_screen;
      }),
    )
    | inr at ↦ let (shown', g) = reads s.wire refl at in (shown', simp at g)
  ]
    where
      reads :
          (wire : List (TelemetrySample V))
          → s.wire ≡ wire
          → s.phase ≡ Phase.in_read
          → (shown' : List (TelemetrySample V)) × IsFlowing
              (client_step Phase.in_read wire s)
              said
              shown'
      reads [] e at = (shown, f)
      reads (m ∷ wire) e at = (
        shown ++ m ∷ [],
        simp at (record {
          cell = f.cell;
          there = f.there;
          held = f.held;
          open' = f.open';
          sound = f.sound;
          reading = inl refl;
          ledger =
              append_assoc shown (m ∷ []) (wire ++ f.cell.sub.queue)
              ∙ (ap (λ l. shown ++ (l ++ f.cell.sub.queue)) (sym e) ∙ f.ledger);
          on_screen =
              ap₂ handle_all (map-core_sample (m ∷ [])) f.on_screen
              ∙ sym (handle_all-append shown (m ∷ []) (new_store double));
        }),
      )
