-- ===== src/Load.antt =====
-- The start and the end of the module (modttpoe/ttpoe.c), with its directory under proc (modttpoe/proc.c) and its character
-- device (modttpoe/noc.c). What the kernel answers is the record Grants, and what it holds for the module the record Held.
pub mod Resources
pub mod Exit
use ttpoe.Common.{
  ℕ, zero, suc, ◌+◌, ◌%◌, Bool, true, false, ◌&&◌, ◌||◌, not, Option, none, some, List, [], ◌∷◌,
  ◌++◌, ◌==◌, ltb, if◌then◌else◌,
}
use ttpoe.Fsm.{op_invalid, ev_invalid}
use ttpoe.Key.{tag_key_make}
use ttpoe.World.{World, EvLog, ttp_init, pool_elem}
use ttpoe.World.Access.{with_event, with_stats, is_some, kfree_skb}
use ttpoe.Frame.{Bytes}
use ttpoe.Device.{Errno, einval, enodev, enomem, eio, enetdown, oui_mac}
use ttpoe.Param.{NetDev, Settings, with_config}
use ttpoe.Init.{fsm_init, events_pool_size, all_tags}

-- A pointer that the kernel gives: null, an error, or an object.
pub data Pointer : Type 0 where
  null object : Pointer
  err_ptr : Errno → Pointer

abbrev non_null : Pointer → Bool
non_null null = false
non_null _ = true

-- What the kernel answers, an error where there is one.
pub record Grants : Type 0 where
  pub dev_get_by_name : Option NetDev
  pub proc_mkdir : Bool
  pub proc_create_single : ℕ → Bool
  pub get_zeroed_page : Bool
  pub register_chrdev : Bool
  pub class_create : Option Errno
  pub device_create : Option Errno

-- What the kernel holds for the module: the directory with its number of files, the page, the number of the device, its
-- class and itself, and the handler of frames.
pub record Held : Type 0 where
  pub proc_files : Option ℕ
  pub page : Bool
  pub chrdev : Bool
  pub dev_class : Bool
  pub dev : Bool
  pub pack : Bool

abbrev pub no_held : Held
no_held = record {
  proc_files = none;
  page = false;
  chrdev = false;
  dev_class = false;
  dev = false;
  pack = false;
}

-- The module: its static pointers `ttp_proc_dir`, `ttp_class` and `ttp_device`, and the rest of its state.
pub record Loaded : Type 0 where
  pub held : Held
  pub proc_dir : Bool
  pub ttp_class : Pointer
  pub ttp_device : Pointer
  pub settings : Settings

abbrev pub with_world : (World → World) → Loaded → Loaded
with_world f m = record m { settings = record m.settings { world = f m.settings.world } }

-- `ttpoe_proc_cleanup`.
unfoldable pub proc_cleanup : Loaded → Loaded
proc_cleanup m = if m.proc_dir then record m { held = record m.held { proc_files = none } } else m

-- The files from the `i`-th on, `n` of them, up to the first that is refused.
unfoldable pub create_files : (ℕ → Bool) → ℕ → ℕ → Loaded → Loaded × Bool
create_files granted zero i m = (m, true)
create_files granted (suc n) i m =
    let rest =
      create_files granted n (suc i)
        (record m { held = record m.held { proc_files = some (suc i) } }) in
    if granted i then rest else (m, false)

-- `ttpoe_proc_init`: ev_log, pool, queue, tags, rbtree and target.
unfoldable pub proc_init : Grants → Loaded → Loaded × Option Errno
proc_init g m =
    let made =
      create_files g.proc_create_single 6 0
        (record m { proc_dir = true; held = record m.held { proc_files = some 0 } }) in
    if not g.proc_mkdir
    then (record m { proc_dir = false }, some enomem)
    else if made.1
    then (made.0, none)
    else (proc_cleanup made.0, some enomem)

-- What `ttpoe_noc_debug_init` gives back where it fails.
unfoldable pub undo_device : Loaded → Loaded
undo_device m =
    let h = m.held in
    record m {
      held = record h {
        dev = h.dev && not (non_null m.ttp_device);
        dev_class = h.dev_class && not (non_null m.ttp_class);
        page = h.page && not (is_some m.settings.world.noc_page);
      };
    }

-- The device is made once its class is.
unfoldable pub make_device : Grants → Loaded → Loaded × Option Errno
make_device g m = elim g.class_create [
  | some e ↦ (undo_device (record m { ttp_class = err_ptr e }), some e)
  | none ↦
      let m1 = record m { ttp_class = object; held = record m.held { dev_class = true } } in
      elim g.device_create [
        | some e ↦ (undo_device (record m1 { ttp_device = err_ptr e }), some e)
        | none ↦ (record m1 { ttp_device = object; held = record m1.held { dev = true } }, none)
      ]
]

-- `ttpoe_noc_debug_init`.
unfoldable pub noc_debug_init : Grants → Loaded → Loaded × Option Errno
noc_debug_init g m =
    let no_page = with_world (λ w. record w { noc_page = none }) m in
    let m1 =
      with_world (λ w. record w { noc_page = some (λ i. 0) })
        (record m { held = record m.held { page = true } }) in
    if not g.get_zeroed_page
    then (undo_device no_page, some enomem)
    else if not g.register_chrdev
    then (undo_device m1, some eio)
    else make_device g (record m1 { held = record m1.held { chrdev = true } })

-- `ttpoe_noc_debug_exit`.
unfoldable pub noc_debug_exit : Loaded → Loaded
noc_debug_exit m =
    let h = m.held in
    record m {
      held = record h {
        dev = false;
        dev_class = false;
        chrdev = false;
        page = h.page && not (is_some m.settings.world.noc_page);
      };
    }

-- `ttpoe_oui_detect`: whether the address begins with the vendor's prefix.
abbrev oui_detect : Bytes → Bool
oui_detect a = let mac = oui_mac (λ i. 0) in (a 0 == mac 0) && (a 1 == mac 1) && (a 2 == mac 2)

-- The record of the start in the event log, which has no event.
abbrev log_init : World → World
log_init w = elim w.evlog_head [
  | [] ↦ w
  | lg ∷ rest ↦
      let lg1 = record lg {
        ts = w.jiffies;
        ev = ttp_init;
        op = op_invalid;
        kd = 0;
        ix = 0;
        rf = 0;
        rx = 4294967295;
        tx = 4294967295;
        sz = 0;
      } in
      with_stats (λ c. record c { evlog = (c.evlog + 1) % 65536 })
        (record w { evlog_head = rest ++ (lg1 ∷ []) })
]

-- The end of `ttpoe_init`: the tables, the source's key where there is no prefix, the handler of frames.
unfoldable pub started : EvLog → NetDev → Loaded → Loaded
started lg d m =
    let p = record m.settings { world = fsm_init lg m.settings.world } in
    let c = p.world.config in
    let kid = tag_key_make (some d.addr) 0 false c.ipv4_encap in
    let known = record (with_config (record c { source_kid = kid }) p) { source_mac = d.addr } in
    let p1 = if c.ipv4_pfxlen == 0 then known else p in
    let w = log_init p1.world in
    record m {
      held = record m.held { pack = true };
      settings = record p1 { world = record w { config = record w.config { shutdown = false } } };
    }

-- The directory, the device, and the rest.
unfoldable pub start_up : EvLog → Grants → NetDev → Loaded → Loaded × Option Errno
start_up lg g d m =
    let (m1, files) = proc_init g m in
    let (m2, device) = noc_debug_init g m1 in
    let after : Loaded × Option Errno = elim device [
      | some e ↦ (proc_cleanup m2, some e)
      | none ↦ (started lg d m2, none)
    ] in
    elim files [ some e ↦ (m1, some e) | none ↦ after ]

-- `ttpoe_init`; `lg` is what the records of the event log hold at first.
unfoldable pub ttpoe_init : EvLog → Grants → Loaded → Loaded × Option Errno
ttpoe_init lg g m =
    let p = m.settings in
    let no_dev = record m { settings = record p { dev = none } } in
    if not p.named then (m, some enodev) else elim g.dev_get_by_name [
      | none ↦ (no_dev, some enodev)
      | some d ↦
          let m1 = record m {
            settings = record (with_config (record p.world.config { dev_addr = d.addr }) p) {
              dev = some d;
            };
          } in
          if not d.is_up
          then (m1, some enetdown)
          else if not p.world.config.ipv4_encap && not (oui_detect d.addr)
          then (m1, some einval)
          else start_up lg g d m1
    ]

-- The buffers of event `i` are given back, and it is a free event of the pool; the link of `list_add_tail` on top of the links
-- that the event has is left out.
unfoldable pub free_event : ℕ → World → World
free_event i w =
    let e = w.events i in
    let w1 : World = elim e.rsk [ none ↦ w | some n ↦ kfree_skb n w ] in
    let w2 : World = elim e.tsk [ none ↦ w1 | some n ↦ kfree_skb n w1 ] in
    with_stats (λ c. record c { pool = (c.pool + 1) % 65536 })
      (with_event i
        (λ e. record e { rsk = none; tsk = none; kid = 0; evt = ev_invalid; mrk = pool_elem }) w2)

-- `n` events from the `i`-th on.
unfoldable pub free_events : ℕ → ℕ → World → World
free_events zero i w = w
free_events (suc n) i w = free_events n (suc i) (free_event i w)

-- `ttp_fsm_exit`: the events are freed and the timers of the tags deleted.
unfoldable pub fsm_exit : World → World
fsm_exit w =
    let w1 = free_events events_pool_size 0 w in
    record w1 {
      tags = λ s. if ltb s all_tags then record (w1.tags s) { tmr = none } else w1.tags s;
    }

-- `ttpoe_exit`.
unfoldable pub ttpoe_exit : Loaded → Loaded
ttpoe_exit m =
    let shut = with_world (λ w. record w { config = record w.config { shutdown = true } }) m in
    let alone = record shut { held = record shut.held { pack = false } } in
    proc_cleanup (noc_debug_exit (with_world fsm_exit alone))
