-- ===== src/Load/Resources.antt =====
-- What the kernel holds for the module after its start.
use ttpoe.Common.{
  ◌≡◌, ◌≢◌, ◌⊎◌, inl, inr, refl, true, false, Option, none, some, arith, Bool-cases, Option-cases,
  ◌∙◌, ap,
}
use ttpoe.World.{EvLog}
use ttpoe.Device.{Errno}
use ttpoe.Param.{NetDev, with_config}
use ttpoe.Load.{
  Loaded, Grants, Held, null, no_held, create_files, proc_cleanup, proc_init, undo_device,
  make_device, noc_debug_init, started, start_up, ttpoe_init,
}

-- Nothing is held, and the pointers are null.
abbrev pub Idle : Loaded → Type 0
Idle m =
    (m.held ≡ no_held)
    × (m.proc_dir ≡ false)
    × (m.ttp_class ≡ null)
    × (m.ttp_device ≡ null)
    × (m.settings.world.noc_page ≡ none)

abbrev pub all_held : Held
all_held = record {
  proc_files = some 6;
  page = true;
  chrdev = true;
  dev_class = true;
  dev = true;
  pack = true;
}

-- The directory is made with its six files, or nothing is left of it; nothing else changes.
proc_init_outcome :
    (g : Grants) (m : Loaded)
    → m.held ≡ no_held
    → let r = proc_init g m in
      (r.0.settings ≡ m.settings)
      × (r.0.ttp_class ≡ m.ttp_class)
      × (r.0.ttp_device ≡ m.ttp_device)
      × (((r.1 ≡ none)
            × (r.0.proc_dir ≡ true)
            × (r.0.held ≡ record no_held { proc_files = some 6 }))
          ⊎ ((r.1 ≢ none) × (r.0.held ≡ no_held)))
unfolding proc_init create_files proc_cleanup
proc_init_outcome g m h = ground arith

-- The device is made with its page, number and class; or nothing is left but the number, which is left where the class or the
-- device is refused.
noc_debug_init_outcome :
    (g : Grants) (m : Loaded) (h : Held)
    → m.held ≡ record h { page = false; chrdev = false; dev_class = false; dev = false }
    → m.ttp_class ≡ null
    → m.ttp_device ≡ null
    → m.settings.world.noc_page ≡ none
    → let r = noc_debug_init g m in
      (r.0.proc_dir ≡ m.proc_dir)
      × (r.0.settings.world.config ≡ m.settings.world.config)
      × (((r.1 ≡ none)
            × (r.0.held ≡ record h { page = true; chrdev = true; dev_class = true; dev = true }))
          ⊎ ((r.1 ≢ none)
              × (r.0.held
                  ≡ record h { page = false; chrdev = false; dev_class = false; dev = false })
              × ((g.get_zeroed_page ≡ false) ⊎ (g.register_chrdev ≡ false)))
          ⊎ ((r.1 ≢ none)
              × (r.0.held
                  ≡ record h { page = false; chrdev = true; dev_class = false; dev = false })
              × (g.register_chrdev ≡ true)
              × ((g.class_create ≢ none) ⊎ (g.device_create ≢ none))))
unfolding noc_debug_init make_device undo_device
noc_debug_init_outcome g m h held class device page = ground arith

-- What the start of the module leaves: everything held and the module open to frames, or nothing held, or the number of the
-- device alone, which is left where its class or the device is refused.
abbrev pub Outcome : Grants → Loaded → Loaded × Option Errno → Type 0
Outcome g m r =
    ((r.1 ≡ none)
      × (r.0.held ≡ all_held)
      × (r.0.proc_dir ≡ true)
      × (r.0.settings.world.config.shutdown ≡ false))
    ⊎ ((r.1 ≢ none)
        × (r.0.held ≡ no_held)
        × (r.0.settings.world.config.shutdown ≡ m.settings.world.config.shutdown))
    ⊎ ((r.1 ≢ none)
        × (r.0.held ≡ record no_held { chrdev = true })
        × (r.0.settings.world.config.shutdown ≡ m.settings.world.config.shutdown)
        × (g.register_chrdev ≡ true)
        × ((g.class_create ≢ none) ⊎ (g.device_create ≢ none)))

started_lem :
    (lg : EvLog) (d : NetDev) (m : Loaded)
    → ((started lg d m).held ≡ record m.held { pack = true })
      × ((started lg d m).proc_dir ≡ m.proc_dir)
      × ((started lg d m).settings.world.config.shutdown ≡ false)
unfolding started
started_lem lg d m = (refl, refl, refl)

start_up-Outcome :
    (lg : EvLog) (g : Grants) (d : NetDev) (m : Loaded) → Idle m → Outcome g m (start_up lg g d m)
unfolding start_up proc_cleanup
start_up-Outcome lg g d m (held, dir, class, device, page) =
    let (same, class1, device1, files) = proc_init_outcome g m held in
    elim files [
      | inr (e, h) ↦ ground (arith, same, e, h)
      | inl (e, is_dir, h) ↦
          let (dir2, config2, outcome) =
            noc_debug_init_outcome g (proc_init g m).0 (record no_held { proc_files = some 6 }) h
              (class1 ∙ class) (device1 ∙ device) (ap (λ s. s.world.noc_page) same ∙ page) in
          let shut = ap (λ s. s.world.config.shutdown) same in
          let shut2 = ap (λ c. c.shutdown) config2 ∙ shut in
          let c = started_lem lg d (noc_debug_init g (proc_init g m).0).0 in
          ground (arith, is_dir, e, dir2, shut, shut2, outcome, c)
    ]

-- The module is started where nothing is held. Either it succeeds, everything is held and the module is open to frames; or it
-- gives an error, is shut as before, and nothing is held, or the number of the device alone, and this last only where the
-- number was granted and the class or the device refused.
pub ttpoe_init-Outcome :
    (lg : EvLog) (g : Grants) (m : Loaded) → Idle m → Outcome g m (ttpoe_init lg g m)
unfolding ttpoe_init
ttpoe_init-Outcome lg g m idle = elim (Bool-cases m.settings.named) [
  | inr f ↦ ground (arith, f, idle)
  | inl t ↦ elim (Option-cases g.dev_get_by_name) [
    | inl n ↦ ground (arith, t, n, idle)
    | inr (d, n) ↦
        let s =
          start_up-Outcome lg g d
            (record m {
              settings =
                  record (with_config (record m.settings.world.config { dev_addr = d.addr })
                    m.settings) { dev = some d };
            })
            idle in
        ground (arith, t, n, idle, s)
  ]
]
