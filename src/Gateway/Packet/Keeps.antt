-- ===== src/Gateway/Packet/Keeps.antt =====
-- Sending packets to the other gateways leaves all but the buffers alone.
use ttpoe.Common.{
  ap, ℕ, zero, suc, ◌+◌, ◌-◌, ◌≡◌, refl, ◌∙◌, Bool, true, false, Option, none, some, if◌then◌else◌,
}
use ttpoe.World.{Skb}
use ttpoe.Frame.{Bytes}
use ttpoe.Common.{List}
use ttpoe.Gateway.{Gw, Tx, max_num_zones, xmit}
use ttpoe.Gateway.Packet.{
  fresh_skb, post, send_new, send_to, ttpip_skb_aloc, control_packet, ctl_target, ctl_send_zone,
  ctl_send_from, gw_ctl_send, is_ctl_opcode,
}

-- The same table, zones and settings.
pub record SameTable (g g' : Gw) : Type 0 where
  pub kernel : g'.kernel ≡ g.kernel
  pub net : g'.net ≡ g.net
  pub shutdown : g'.shutdown ≡ g.shutdown
  pub myzn : g'.myzn ≡ g.myzn
  pub num_gwips : g'.num_gwips ≡ g.num_gwips
  pub zones : g'.zones ≡ g.zones
  pub mutx_busy : g'.mutx_busy ≡ g.mutx_busy
  pub rbroot : g'.rbroot ≡ g.rbroot
  pub entries : g'.entries ≡ g.entries
  pub mactbl_ct : g'.mactbl_ct ≡ g.mactbl_ct
  pub tsla_dev : g'.tsla_dev ≡ g.tsla_dev
  pub bug : g'.bug ≡ g.bug

pub SameTable-refl : (g : Gw) → SameTable g g
SameTable-refl g = record {
  kernel = refl;
  net = refl;
  shutdown = refl;
  myzn = refl;
  num_gwips = refl;
  zones = refl;
  mutx_busy = refl;
  rbroot = refl;
  entries = refl;
  mactbl_ct = refl;
  tsla_dev = refl;
  bug = refl;
}

pub SameTable-trans : (g g' g'' : Gw) → SameTable g g' → SameTable g' g'' → SameTable g g''
SameTable-trans g g' g'' p q = record {
  kernel = q.kernel ∙ p.kernel;
  net = q.net ∙ p.net;
  shutdown = q.shutdown ∙ p.shutdown;
  myzn = q.myzn ∙ p.myzn;
  num_gwips = q.num_gwips ∙ p.num_gwips;
  zones = q.zones ∙ p.zones;
  mutx_busy = q.mutx_busy ∙ p.mutx_busy;
  rbroot = q.rbroot ∙ p.rbroot;
  entries = q.entries ∙ p.entries;
  mactbl_ct = q.mactbl_ct ∙ p.mactbl_ct;
  tsla_dev = q.tsla_dev ∙ p.tsla_dev;
  bug = q.bug ∙ p.bug;
}

-- Only the buffers differ.
buffers_differ :
    (g : Gw) (n f : ℕ) (s : List Tx)
    → SameTable g (record g { next_alloc = n; freed = f; sent = s })
buffers_differ g n f s = record {
  kernel = refl;
  net = refl;
  shutdown = refl;
  myzn = refl;
  num_gwips = refl;
  zones = refl;
  mutx_busy = refl;
  rbroot = refl;
  entries = refl;
  mactbl_ct = refl;
  tsla_dev = refl;
  bug = refl;
}

pub xmit-SameTable : (dev : ℕ) (packet : Skb) (g : Gw) → SameTable g (xmit dev packet g)
xmit-SameTable dev packet g = buffers_differ g g.next_alloc g.freed (xmit dev packet g).sent

post-SameTable : (dev : ℕ) (o : Option Skb) (g : Gw) → SameTable g (post dev o g).0
post-SameTable dev none g = buffers_differ g g.next_alloc (g.freed + 1) g.sent
post-SameTable dev (some packet) g = xmit-SameTable dev packet g

send_new-SameTable :
    (mac : Bytes) (oc zn dev : ℕ) (o : Option Skb) (g : Gw)
    → SameTable g (send_new mac oc zn dev o g).0
unfolding send_new
send_new-SameTable mac oc zn dev none g = SameTable-refl g
send_new-SameTable mac oc zn dev (some skb) g =
    post-SameTable dev (control_packet g (g.zones zn) dev mac oc skb) g

pub ttpip_skb_aloc-SameTable : (g : Gw) → SameTable g (ttpip_skb_aloc g).0
unfolding ttpip_skb_aloc
ttpip_skb_aloc-SameTable g = go (fresh_skb g) (g.kernel.alloc_ok g.next_alloc)
  where
    g1 : Gw
    g1 = record g { next_alloc = g.next_alloc + 1 }

    grant : Skb → Bool → Gw × Option Skb
    grant x b = if b then (g1, some x) else (g1, none)

    go : (x : Skb) (b : Bool) → SameTable g (grant x b).0
    go x true = buffers_differ g (g.next_alloc + 1) g.freed g.sent
    go x false = buffers_differ g (g.next_alloc + 1) g.freed g.sent

send_to-SameTable :
    (mac : Bytes) (oc zn : ℕ) (o : Option ℕ) (g : Gw) → SameTable g (send_to mac oc zn o g).0
unfolding send_to
send_to-SameTable mac oc zn none g = SameTable-refl g
send_to-SameTable mac oc zn (some dev) g =
    let r = ttpip_skb_aloc g in
    SameTable-trans g r.0 (send_new mac oc zn dev r.1 r.0).0 (ttpip_skb_aloc-SameTable g)
      (send_new-SameTable mac oc zn dev r.1 r.0)

ctl_send_zone-SameTable :
    (mac : Bytes) (oc zn : ℕ) (g : Gw) → SameTable g (ctl_send_zone mac oc zn g).0
unfolding ctl_send_zone
ctl_send_zone-SameTable mac oc zn g = send_to-SameTable mac oc zn (ctl_target g zn) g

SameTable-if :
    (b : Bool) (g x y : Gw) → SameTable g x → SameTable g y → SameTable g (if b then x else y)
SameTable-if true g x y p q = p
SameTable-if false g x y p q = q

ctl_send_from-SameTable :
    (n zn : ℕ) (mac : Bytes) (oc : ℕ) (g : Gw) → SameTable g (ctl_send_from n zn mac oc g)
unfolding ctl_send_from
ctl_send_from-SameTable zero zn mac oc g = SameTable-refl g
ctl_send_from-SameTable (suc n) zn mac oc g =
    let r = ctl_send_zone mac oc zn g in
    let first = ctl_send_zone-SameTable mac oc zn g in
    let rest = ctl_send_from-SameTable n (zn + 1) mac oc r.0 in
    SameTable-if r.1 g (ctl_send_from n (zn + 1) mac oc r.0) r.0
      (SameTable-trans g r.0 (ctl_send_from n (zn + 1) mac oc r.0) first rest) first

pub gw_ctl_send-SameTable : (mac : Bytes) (oc : ℕ) (g : Gw) → SameTable g (gw_ctl_send mac oc g)
unfolding gw_ctl_send
gw_ctl_send-SameTable mac oc g =
    SameTable-if (is_ctl_opcode oc) g (ctl_send_from (max_num_zones - 1) 1 mac oc g) g
      (ctl_send_from-SameTable (max_num_zones - 1) 1 mac oc g) (SameTable-refl g)

pub ttpip_skb_aloc_granted :
    (g : Gw)
    → g.kernel.alloc_ok g.next_alloc ≡ true
    → ttpip_skb_aloc g ≡ (record g { next_alloc = g.next_alloc + 1 }, some (fresh_skb g))
unfolding ttpip_skb_aloc
ttpip_skb_aloc_granted g ok = ap grant ok
  where
    grant : Bool → Gw × Option Skb
    grant b =
        if b
        then (record g { next_alloc = g.next_alloc + 1 }, some (fresh_skb g))
        else (record g { next_alloc = g.next_alloc + 1 }, none)
