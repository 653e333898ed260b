-- ===== src/Tests/Params.antt =====
-- The setters of the parameters.
use ttpoe.Common.{
  none, some, ◌^◌, ◌≡◌, ◌≢◌, [], ◌∷◌, ℕ, suc, ◌+◌, ◌-◌, ◌*◌, ◌%◌, refl, true, false, ltb, ◌==◌,
  if◌then◌else◌, arith,
}
use ttpoe.Frame.{Bytes, ethertype_ttpoe}
use ttpoe.Device.{HostInfo, done, error, einval, eaddrinuse, noc_debug_tgt}
use ttpoe.Param.Ipv4.{Readers, masked, param_scan_ipv4, param_prefix_set, param_ipv4_dip_set}
use ttpoe.Param.Own.{Among, own_address_refused, refused_prefix_used}
use ttpoe.Param.{
  NetDev, Strings, natural, Settings, param_target_mac_set, param_vci_set, param_target_use_gw_set,
  param_nhmac_set, param_encap_set,
}
use ttpoe.Param.Guard.{Apart, Guarded, setters-Guarded}
use ttpoe.Init.Scene.{talking, mac_of}

abbrev digit : ℕ → ℕ
digit c = if ltb 57 c then c - 87 else c - 48

-- Numbers of one digit, and bytes of two.
abbrev strings : Strings
strings = record {
  kstrtoint = λ t. natural (t 0 - 48);
  kstrtouint = λ t. done (t 0 - 48);
  simple_strtol = λ t i. digit (t i) * 16 + digit (t (suc i));
}

-- The text 02:02:02:02:02:02 and a newline.
abbrev text : Bytes
text i = if i % 3 == 2 then if i == 17 then 10 else 58 else if i % 3 == 1 then 50 else 48

abbrev settings : Settings
settings = record {
  named = true;
  dev = none;
  drop_pct = 0;
  target = record { ve = false; mac = mac_of 7; ipa = 0; vc = 1; gw = true };
  source_mac = mac_of 9;
  etype = ethertype_ttpoe;
  world = talking;
}

settings-Apart : Apart settings
settings-Apart = (refl, omega arith)

setters-Guarded_example :
    Guarded settings (param_target_mac_set strings text settings)
    × Guarded settings (param_vci_set strings text settings)
    × Guarded settings (param_target_use_gw_set strings text settings)
    × Guarded settings (param_nhmac_set strings text settings)
    × Guarded settings (param_encap_set strings text settings)
setters-Guarded_example = setters-Guarded strings text settings settings-Apart

-- A host 10.1.2.3 in the network 10.0.0.0/8.
abbrev net_dev : NetDev
net_dev = record {
  addr = mac_of 9;
  is_up = true;
  ifa_list = (192 * 2 ^ 24) ∷ (10 * 2 ^ 24 + 66051) ∷ [];
}

abbrev in_net : Settings
in_net = record settings {
  dev = some net_dev;
  world = record talking {
    config = record talking.config {
      ipv4_encap = true;
      ipv4_prefix = 10 * 2 ^ 24;
      ipv4_pfxlen = 8;
      source_ipa = 0;
    };
  };
}

abbrev myself : HostInfo
myself = record { ve = true; mac = mac_of 7; ipa = 10 * 2 ^ 24 + 66051; vc = 0; gw = false }

found_it : (param_scan_ipv4 net_dev in_net).1 ≡ done 0
unfolding param_scan_ipv4 ttpoe.Param.Ipv4.find_under
found_it = refl

is_mine : myself.ipa ≡ (param_scan_ipv4 net_dev in_net).0.world.config.source_ipa
unfolding param_scan_ipv4 ttpoe.Param.Ipv4.find_under
is_mine = refl

eight-ne-zero : in_net.world.config.ipv4_pfxlen ≢ 0
eight-ne-zero e = omega (arith, e)

own_address_refused_example :
    let w = (param_scan_ipv4 net_dev in_net).0.world in
    Among w.config.source_ipa net_dev.ifa_list
    × (masked 8 w.config.source_ipa ≡ masked 8 (10 * 2 ^ 24))
    × (w.config.source_ipa ≢ 0)
    × (noc_debug_tgt myself w ≡ (w, error eaddrinuse, 0))
own_address_refused_example =
    own_address_refused net_dev in_net refl found_it myself refl eight-ne-zero refl is_mine refl

-- A reader for which every text is the address 10.0.0.0 of eight characters, and each length 7.
abbrev readers : Readers
readers = record {
  strcspn = λ t. 9;
  in4_pton = λ t. some (10 * 2 ^ 24, 8);
  kstrtoint_at = λ t i. natural 7;
  kstrtouint_hex = λ t. done 0;
}

nine-ne-zero : readers.strcspn text ≢ 0
nine-ne-zero e = omega (arith, e)

abbrev slashed : Bytes
slashed i = if i == 8 then 47 else 0

refused_prefix_used_example :
    let q = param_prefix_set readers none slashed in_net in
    (q.1 ≡ error einval)
    × ((param_ipv4_dip_set readers (λ i. 0) q.0).1 ≡ done 0)
    × ((param_ipv4_dip_set readers (λ i. 0) q.0).0.target.ipa ≡ 10 * 2 ^ 24)
refused_prefix_used_example =
    refused_prefix_used readers none slashed in_net (10 * 2 ^ 24) 8 7 refl refl nine-ne-zero refl
      refl refl (omega arith) (λ i. 0) 8 (omega arith) refl nine-ne-zero refl refl
