-- ===== src/Load/Exit.antt =====
-- What the end of the module leaves.
use ttpoe.Common.{
  ℕ, zero, suc, ◌+◌, ◌<◌, ◌≤◌, ◌≡◌, ◌≢◌, ◌⊎◌, inl, refl, sym, ◌∙◌, ap, subst, true, none, arith,
}
use ttpoe.World.{World, EvLog, FsmEvent}
use ttpoe.World.Access.{is_some}
use ttpoe.Init.{events_pool_size, all_tags}
use ttpoe.Load.{
  Loaded, Grants, no_held, with_world, free_event, free_events, fsm_exit, noc_debug_exit,
  proc_cleanup, ttpoe_init, ttpoe_exit,
}
use ttpoe.Load.Resources.{Idle, all_held, ttpoe_init-Outcome}

-- An event without buffers.
abbrev pub Bare : FsmEvent → Type 0
Bare e = (e.rsk ≡ none) × (e.tsk ≡ none)

free_event-Bare :
    (i j : ℕ) (w : World) → (j ≡ i) ⊎ Bare (w.events j) → Bare ((free_event i w).events j)
unfolding free_event
free_event-Bare i j w h = ground (arith, h)

free_event-config :
    (i : ℕ) (w : World)
    → ((free_event i w).config ≡ w.config) × ((free_event i w).noc_page ≡ w.noc_page)
unfolding free_event
free_event-config i w = ground arith

free_events-Bare :
    (n i j : ℕ) (w : World)
    → ((i ≤ j) × (j < i + n)) ⊎ Bare (w.events j)
    → Bare ((free_events n i w).events j)
unfolding free_events
free_events-Bare zero i j w h = ground (arith, h)
free_events-Bare (suc n) i j w h =
    let b = free_event-Bare i j w in
    free_events-Bare n (suc i) j (free_event i w) (ground (arith, h, b))

free_events-config :
    (n i : ℕ) (w : World)
    → ((free_events n i w).config ≡ w.config) × ((free_events n i w).noc_page ≡ w.noc_page)
unfolding free_events
free_events-config zero i w = (refl, refl)
free_events-config (suc n) i w =
    let a = free_event-config i w in
    let b = free_events-config n (suc i) (free_event i w) in (b.0 ∙ a.0, b.1 ∙ a.1)

fsm_exit_lem :
    (w : World)
    → ((fsm_exit w).config ≡ w.config)
      × ((fsm_exit w).noc_page ≡ w.noc_page)
      × ((i : ℕ) → i < events_pool_size → Bare ((fsm_exit w).events i))
      × ((s : ℕ) → s < all_tags → ((fsm_exit w).tags s).tmr ≡ none)
unfolding fsm_exit
fsm_exit_lem w =
    let c = free_events-config events_pool_size 0 w in
    (
      c.0,
      c.1,
      λ i h. free_events-Bare events_pool_size 0 i w (inl (omega arith, omega (arith, h))),
      λ s h. ground (arith, h),
    )

abbrev shut : World → World
shut w = record w { config = record w.config { shutdown = true } }

-- What the end of the module gives back, where the page is there.
ttpoe_exit_lem :
    (m : Loaded)
    → m.held ≡ all_held
    → m.proc_dir ≡ true
    → m.settings.world.noc_page ≢ none
    → ((ttpoe_exit m).held ≡ no_held)
      × ((ttpoe_exit m).settings.world ≡ fsm_exit (shut m.settings.world))
unfolding ttpoe_exit noc_debug_exit proc_cleanup
ttpoe_exit_lem m held dir page =
    let (config, same, bare, still) = fsm_exit_lem (shut m.settings.world) in
    let there : is_some (fsm_exit (shut m.settings.world)).noc_page ≡ true =
      ap is_some same ∙ ground (arith, page) in
    (simp (dir, held, there), simp dir)

-- The module is started with success where nothing is held, then any of its state but what its start keeps for its end is
-- replaced, as long as there is a page; at its end nothing is held, it is shut, no event has a buffer and no tag a timer.
pub ttpoe_exit-ttpoe_init :
    (lg : EvLog) (g : Grants) (m : Loaded)
    → Idle m
    → (ttpoe_init lg g m).1 ≡ none
    → (w : World) → w.noc_page ≢ none
    → let r = ttpoe_exit (with_world (λ x. w) (ttpoe_init lg g m).0) in
      (r.held ≡ no_held)
      × (r.settings.world.config.shutdown ≡ true)
      × ((i : ℕ) → i < events_pool_size → Bare (r.settings.world.events i))
      × ((s : ℕ) → s < all_tags → (r.settings.world.tags s).tmr ≡ none)
ttpoe_exit-ttpoe_init lg g m idle success w page =
    let o = ttpoe_init-Outcome lg g m idle in
    let begun : ((ttpoe_init lg g m).0.held ≡ all_held) × ((ttpoe_init lg g m).0.proc_dir ≡ true) =
      ground (arith, o, success) in
    let (held, same) =
      ttpoe_exit_lem (with_world (λ x. w) (ttpoe_init lg g m).0) begun.0 begun.1 page in
    let (config, page', bare, still) = fsm_exit_lem (shut w) in
    (
      held,
      ap (λ x. x.config.shutdown) same ∙ ap (λ c. c.shutdown) config,
      λ i h. subst (λ x. Bare (x.events i)) (sym same) (bare i h),
      λ s h. ap (λ x. (x.tags s).tmr) same ∙ still s h,
    )
