-- ===== src/Tests/Loads.antt =====
-- The start and the end of the module.
use ttpoe.Common.{ℕ, ◌<◌, ◌≡◌, ◌≢◌, refl, true, false, none, some, []}
use ttpoe.Frame.{ethertype_ttpoe}
use ttpoe.World.{World}
use ttpoe.Device.{enomem}
use ttpoe.Param.{NetDev}
use ttpoe.Load.{
  Loaded, Grants, no_held, null, with_world, ttpoe_init, start_up, proc_init, create_files,
  noc_debug_init, make_device, ttpoe_exit,
}
use ttpoe.Load.Resources.{Idle, Outcome, ttpoe_init-Outcome}
use ttpoe.Load.Exit.{Bare, ttpoe_exit-ttpoe_init}
use ttpoe.Init.{events_pool_size, all_tags}
use ttpoe.Init.Scene.{blank, talking, mac_of, no_log}

abbrev net_dev : NetDev
net_dev = record { addr = mac_of 1; is_up = true; ifa_list = [] }

abbrev granted : Grants
granted = record {
  dev_get_by_name = some net_dev;
  proc_mkdir = true;
  proc_create_single = λ i. true;
  get_zeroed_page = true;
  register_chrdev = true;
  class_create = none;
  device_create = none;
}

-- The class of the device is refused.
abbrev no_class : Grants
no_class = record granted { class_create = some enomem }

abbrev empty : World
empty = record blank { noc_page = none }

abbrev unloaded : Loaded
unloaded = record {
  held = no_held;
  proc_dir = false;
  ttp_class = null;
  ttp_device = null;
  settings = record {
    named = true;
    dev = none;
    drop_pct = 0;
    target = record { ve = false; mac = λ i. 0; ipa = 0; vc = 0; gw = false };
    source_mac = λ i. 0;
    etype = ethertype_ttpoe;
    world = empty;
  };
}

unloaded-Idle : Idle unloaded
unloaded-Idle = (refl, refl, refl, refl, refl)

ttpoe_init-Outcome_example : Outcome no_class unloaded (ttpoe_init no_log no_class unloaded)
ttpoe_init-Outcome_example = ttpoe_init-Outcome no_log no_class unloaded unloaded-Idle

chrdev_left : (ttpoe_init no_log no_class unloaded).0.held ≡ record no_held { chrdev = true }
unfolding ttpoe_init start_up proc_init create_files noc_debug_init make_device
    ttpoe.Load.undo_device ttpoe.Load.proc_cleanup
chrdev_left = refl

starts : (ttpoe_init no_log granted unloaded).1 ≡ none
unfolding ttpoe_init start_up proc_init create_files noc_debug_init make_device
starts = refl

-- The machine of the tests at work, with its page.
abbrev at_work : World
at_work = record talking { noc_page = some (λ i. 0) }

paged : at_work.noc_page ≢ none
paged e = cc

ttpoe_exit-ttpoe_init_example :
    let r = ttpoe_exit (with_world (λ x. at_work) (ttpoe_init no_log granted unloaded).0) in
    (r.held ≡ no_held)
    × (r.settings.world.config.shutdown ≡ true)
    × ((i : ℕ) → i < events_pool_size → Bare (r.settings.world.events i))
    × ((s : ℕ) → s < all_tags → (r.settings.world.tags s).tmr ≡ none)
ttpoe_exit-ttpoe_init_example =
    ttpoe_exit-ttpoe_init no_log granted unloaded unloaded-Idle starts at_work paged
