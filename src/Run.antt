-- ===== src/Run.antt =====
-- What the kernel and a user can have the module do, in any order: work items and timers run, frames come in, the device is
-- written and closed, parameters are set to any text, and time passes. Each entry runs to its end.
use ttpoe.Common.{ℕ, Bool, List, Option, [], ◌∷◌}
use ttpoe.World.{World, Skb, Config}
use ttpoe.World.Access.{with_skb}
use ttpoe.Frame.{Bytes}
use ttpoe.Step.{do_tag_work, do_global_work, timer_callback}
use ttpoe.Receive.{skb_recv_func}
use ttpoe.Device.{Result, noc_debug_write, noc_debug_release}
use ttpoe.Param.{
  Strings, NetDev, Settings, param_target_mac_set, param_target_ve_set, param_vci_set,
  param_target_use_gw_set, param_nhmac_set, param_encap_set,
}
use ttpoe.Param.Ipv4.{
  Readers, param_prefix_set, param_ipv4_dip_set, param_debug_target_set, param_drop_pct_set,
  param_shutdown_set, param_wkstep_set,
}

-- The parameters that can be set while the module runs, but the verbosity of the log.
pub data Parameter : Type 0 where
  target_mac valid vci use_gw nhmac encap drop_pct shutdown wkstep : Parameter
  prefix ipv4_dip target : Parameter

-- The kernel's reading of texts, and what it finds for the name of the device.
pub record Reading : Type 0 where
  pub strings : Strings
  pub readers : Readers
  pub dev_get_by_name : Option NetDev

-- The parameter set to the text `val`.
unfoldable pub set_parameter : Parameter → Reading → Bytes → Settings → Settings × Result
set_parameter target_mac k val p = param_target_mac_set k.strings val p
set_parameter valid k val p = param_target_ve_set k.strings val p
set_parameter vci k val p = param_vci_set k.strings val p
set_parameter use_gw k val p = param_target_use_gw_set k.strings val p
set_parameter nhmac k val p = param_nhmac_set k.strings val p
set_parameter encap k val p = param_encap_set k.strings val p
set_parameter drop_pct k val p = param_drop_pct_set k.strings val p
set_parameter shutdown k val p = param_shutdown_set k.strings val p
set_parameter wkstep k val p = param_wkstep_set k.strings val p
set_parameter prefix k val p = param_prefix_set k.readers k.dev_get_by_name val p
set_parameter ipv4_dip k val p = param_ipv4_dip_set k.readers val p
set_parameter target k val p = param_debug_target_set k.readers val p

-- `configure` is a change of the configuration from outside of the setters, such as another address of the device.
pub data Entry : Type 0 where
  tag_work : ℕ → Entry
  global_work : Entry
  timer : ℕ → Entry
  frame : Bool → Bool → ℕ → Skb → Entry
  write : Bytes → ℕ → ℕ → Entry
  release : Bool → Entry
  parameter : Parameter → Reading → Bytes → Entry
  tick : ℕ → Entry
  configure : Config → Entry

-- The state after a change of the tables and queues.
abbrev pub with_world : (World → World) → Settings → Settings
with_world f p = record p { world = f p.world }

unfoldable pub run_entry : Entry → Settings → Settings
run_entry (tag_work s) p = with_world (do_tag_work s) p
run_entry global_work p = with_world do_global_work p
run_entry (timer s) p = with_world (timer_callback s) p
run_entry (frame expand flip n b) p =
    with_world (λ w. skb_recv_func expand flip n (with_skb n (λ x. b) w)) p
run_entry (write user nbytes left) p =
    with_world (λ w. (noc_debug_write p.target user nbytes left w).0) p
run_entry (release used) p = with_world (noc_debug_release used) p
run_entry (parameter a k val) p = (set_parameter a k val p).0
run_entry (tick now) p = with_world (λ w. record w { jiffies = now }) p
run_entry (configure c) p = with_world (λ w. record w { config = c }) p

unfoldable pub run : List Entry → Settings → Settings
run [] p = p
run (e ∷ es) p = run es (run_entry e p)
