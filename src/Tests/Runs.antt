-- ===== src/Tests/Runs.antt =====
-- A history of the module: a link is asked for and a payload written, time passes, work is done, a timer runs out, a frame comes
-- in, and the link is closed.
use ttpoe.Common.{ℕ, ◌-◌, ◌≤◌, ◌≡◌, refl, true, false, none, List, [], ◌∷◌, arith}
use ttpoe.Frame.{Bytes, ethertype_ttpoe}
use ttpoe.Device.{done}
use ttpoe.Param.{Settings, natural}
use ttpoe.Queue.Counts.{CountsOk}
use ttpoe.Init.{fsm_init, all_tags}
use ttpoe.Init.Scene.{blank, no_log, mac_of, no_skb}
use ttpoe.Run.{
  Entry, Reading, valid, wkstep, target, global_work, tag_work, timer, write, tick, frame, release,
  parameter, with_world, run,
}
use ttpoe.Travel.{lists}
use ttpoe.Travel.Once.{Once}
use ttpoe.Travel.Runs.{events_kept, counts_follow}

-- Numbers of one digit.
abbrev reading : Reading
reading = record {
  strings = record {
    kstrtoint = λ t. natural (t 0 - 48);
    kstrtouint = λ t. done (t 0 - 48);
    simple_strtol = λ t i. 0;
  };
  readers = record {
    strcspn = λ t. 1;
    in4_pton = λ t. none;
    kstrtoint_at = λ t i. natural 0;
    kstrtouint_hex = λ t. done (t 0 - 48);
  };
  dev_get_by_name = none;
}

abbrev text_one : Bytes
text_one i = 49

abbrev text_zero : Bytes
text_zero i = 48

abbrev before : Settings
before = record {
  named = true;
  dev = none;
  drop_pct = 0;
  target = record { ve = false; mac = mac_of 7; ipa = 0; vc = 1; gw = false };
  source_mac = mac_of 9;
  etype = ethertype_ttpoe;
  world = blank;
}

abbrev history : List Entry
history =
    parameter valid reading text_one
    ∷ global_work
    ∷ write (λ j. j) 100 0
    ∷ tag_work 3
    ∷ tick 500
    ∷ timer 3
    ∷ tag_work 3
    ∷ frame true false 4 (record no_skb { protocol = ethertype_ttpoe; len = 64 })
    ∷ global_work
    ∷ parameter wkstep reading text_one
    ∷ parameter target reading text_zero
    ∷ release true
    ∷ []

bare : (s : ℕ) → all_tags ≤ s → (blank.tags s).ncq ≡ []
bare s h = refl

events_kept_example : Once (lists [] (run history (with_world (fsm_init no_log) before)).world) 5
events_kept_example = events_kept no_log before history 5 bare (omega arith)

counts_follow_example : CountsOk (run history (with_world (fsm_init no_log) before)).world
counts_follow_example = counts_follow no_log before history refl refl
