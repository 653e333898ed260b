-- ===== src/Device.antt =====
-- The character device by which a user sends payloads and reads the page (modttpoe/noc.c). What copy_from_user leaves uncopied
-- is the argument `left`.
pub mod Short
pub mod Read
use ttpoe.Common.{
  ℕ, zero, suc, ◌+◌, ◌-◌, ◌*◌, ◌/◌, ◌%◌, ◌^◌, Bool, true, false, ◌&&◌, ◌||◌, not, Option, none,
  some, List, [], ◌∷◌, ltb, leb, ◌==◌, if◌then◌else◌,
}
use ttpoe.Fsm.{Event, txq_ttp_payload, ttp_payload}
use ttpoe.Key.{tag_key_make, set_gwf}
use ttpoe.World.{World, Skb, FsmEvent, PktInfo, ctl_elem, noc_elem, noc_payload_tx}
use ttpoe.World.Access.{with_event, with_skb, bug_on, is_some, kfree_skb}
use ttpoe.Frame.{Bytes, put_mac_with_oui, is_valid_ether_addr, skb_pars, no_frame_hdr, no_pkt_info}
use ttpoe.Buffer.{skb_aloc, host_part}
use ttpoe.Tag.{tag_get, tag_add, evlog_add}
use ttpoe.Bloom.{bloom_add}
use ttpoe.Noc.{page_with}
use ttpoe.Queue.{evt_pget, evt_enqu, noc_enqu, noc_requ}

-- struct ttpoe_host_info, what the device uses of it.
pub record HostInfo : Type 0 where
  pub ve : Bool
  pub mac : Bytes
  pub ipa : ℕ
  pub vc : ℕ
  pub gw : Bool

pub data Errno : Type 0 where
  einval ehostdown edestaddrreq eaddrinuse enokey enfile enobufs efault enetdown eaddrnotavail
        enomem ecopy erange eprototype enodev enonet eio :
      Errno

-- A negative result, or a number of bytes.
pub data Result : Type 0 where
  error : Errno → Result
  done : ℕ → Result

-- The address with the vendor's prefix and three low bytes.
abbrev pub oui_mac : Bytes → Bytes
oui_mac low = put_mac_with_oui 0 (some low) (λ a. 0)

-- The key is the target's but the source's own; its tag is made.
unfoldable pub add_target : ℕ → World → World × Result × ℕ
add_target tkid w =
    if tkid == w.config.source_kid
    then (w, error eaddrinuse, 0)
    else ((tag_add tkid w).0, done 0, tkid)

-- `ttpoe_noc_debug_tgt`: the state, the result, and the key, 0 where none is set.
unfoldable pub noc_debug_tgt : HostInfo → World → World × Result × ℕ
unfolding add_target
noc_debug_tgt tg w =
    let low : Bytes = λ i. tg.mac (i + 3) in
    let node = host_part w.config.ipv4_pfxlen tg.ipa in
    let ip : Bytes = λ i. node / 2 ^ (8 * (2 - i)) % 256 in
    let same =
      (tg.mac 0 == oui_mac low 0) && (tg.mac 1 == oui_mac low 1) && (tg.mac 2 == oui_mac low 2) in
    if not tg.ve
    then (w, error ehostdown, 0)
    else if w.config.ipv4_encap
    then if (tg.ipa == 0) || (w.config.ipv4_pfxlen == 0)
      then (w, error edestaddrreq, 0)
      else add_target (tag_key_make (some (oui_mac ip)) tg.vc false true) w
    else if not (is_valid_ether_addr tg.mac)
    then (w, error edestaddrreq, 0)
    else if tg.gw && not same
    then (w, done 0, 0)
    else add_target (tag_key_make (some (oui_mac low)) tg.vc tg.gw false) w

-- The event of a payload filled: its buffer, length and data pointer.
unfoldable pub queue_payload : ℕ → ℕ → ℕ → ℕ → ℕ → Option ℕ → World → World
queue_payload i n buf nl kid lt w =
    let w1 =
      with_event i
        (λ e. record e {
          evt = txq_ttp_payload;
          kid = kid;
          mrk = noc_elem;
          psi = record e.psi { noc_len = nl; skb_dat = buf; skb_len = (w.skbs n).len };
          tsk = some n;
        })
        w in
    let w2 = noc_enqu i (evlog_add i noc_payload_tx ttp_payload w1) in
    elim lt [ none ↦ w2 | some s ↦ noc_requ s w2 ]

abbrev pub is_payload : Event → Bool
is_payload txq_ttp_payload = true
is_payload _ = false

-- From the label `force` on. A payload without a buffer is a BUG, and so is a buffer with another event.
unfoldable pub tx_force : ℕ → Option ℕ → ℕ → Event → ℕ → Option ℕ → World → World × Result
tx_force buf skb nl evnt kid lt w =
    let got = evt_pget w in
    elim got.1 [
      | none ↦ (got.0, error enobufs)
      | some i ↦
          let control = evt_enqu i (
            with_event i (λ e. record e { evt = evnt; kid = kid; mrk = ctl_elem })
              (bug_on (is_some skb) got.0)) in
          let payload : World = elim skb [
            | none ↦ bug_on true got.0
            | some n ↦ queue_payload i n buf nl kid lt got.0
          ] in
          if is_payload evnt then (payload, done nl) else (control, done 0)
    ]

-- A tag looked for, or made for a control event.
unfoldable pub tx_tag : ℕ → Option ℕ → ℕ → Event → ℕ → World → World × Result
tx_tag buf skb nl evnt kid w =
    let made = tag_add kid (bloom_add kid w) in
    let again : World × Result = elim (tag_get made.0 kid) [
      | none ↦ (made.0, error enokey)
      | some s ↦ tx_force buf skb nl evnt kid (some s) made.0
    ] in
    elim (tag_get w kid) [
      | some s ↦ tx_force buf skb nl evnt kid (some s) w
      | none ↦
          if is_some skb
          then (w, error enokey)
          else if made.1 == 1
          then (made.0, error enfile)
          else again
    ]

-- `ttpoe_noc_debug_tx`. A length of 2 is taken for a control packet.
unfoldable pub noc_debug_tx : ℕ → Option ℕ → ℕ → Event → HostInfo → World → World × Result
noc_debug_tx buf skb nl evnt tg w =
    let empty : World = elim skb [ none ↦ w | some n ↦ kfree_skb n w ] in
    let (w1, found, kid) = noc_debug_tgt tg w in
    let aimed : World × Result = elim found [
      | error e ↦ (w1, error e)
      | done c ↦ tx_tag buf skb nl evnt kid w1
    ] in
    if is_some skb && (nl == 0)
    then (empty, error einval)
    else if nl == 2
    then tx_force buf skb nl evnt (set_gwf 1 0) none w
    else aimed

-- TTP_NOC_DAT_SIZE: a buffer of 1024 bytes less the header's 16.
abbrev pub noc_dat_size : ℕ
noc_dat_size = 1008

-- The buffer filled with the user's bytes and handed on, and dropped after an error.
unfoldable pub write_to : HostInfo → Bytes → ℕ → ℕ → ℕ → World → World × Result
write_to tg user nb left n w =
    let fh = (skb_pars (w.skbs n) no_frame_hdr no_pkt_info).0 in
    let w1 = with_skb n (λ b. record b { bytes = page_with b.bytes fh.noc user nb }) w in
    let (w2, rv) = noc_debug_tx (w.skbs n).dat (some n) nb txq_ttp_payload tg w1 in
    let sent : World × Result = elim rv [
      | error e ↦ (kfree_skb n w2, error e)
      | done c ↦ (w2, done nb)
    ] in
    if left == 0 then sent else (kfree_skb n w, done left)

-- `ttpoe_noc_debug_write` of `nbytes` bytes of the user to the target.
unfoldable pub noc_debug_write : HostInfo → Bytes → ℕ → ℕ → World → World × Result
noc_debug_write tg user nbytes left w =
    let nb = if ltb noc_dat_size nbytes then noc_dat_size else nbytes in
    let (w1, buf) = skb_aloc nb w in
    let written : World × Result = elim buf [
      | none ↦ (w1, error enomem)
      | some n ↦ write_to tg user nb left n w1
    ] in
    if nbytes == 0
    then (w, error efault)
    else if w.config.shutdown
    then (w, error enetdown)
    else if not tg.ve
    then (w, error ehostdown)
    else if w.config.ipv4_encap
    then if tg.ipa == 0 then (w, error eaddrnotavail) else written
    else if is_valid_ether_addr tg.mac
    then written
    else (w, error eaddrnotavail)

-- `n` bytes of a page from a place on.
abbrev pub chunk : Bytes → ℕ → ℕ → List ℕ
chunk page pos zero = []
chunk page pos (suc n) = page pos ∷ chunk page (suc pos) n

-- `ttpoe_noc_debug_read`: the bytes given to the user and the new position.
unfoldable pub noc_debug_read : ℕ → ℕ → World → List ℕ × ℕ
noc_debug_read pos nbytes w =
    let kc = if ltb nbytes (w.noc_len - pos) then nbytes else w.noc_len - pos in
    let bytes : List ℕ = elim w.noc_page [ none ↦ [] | some page ↦ chunk page pos kc ] in
    if leb w.noc_len pos then ([], pos) else (bytes, pos + kc)

-- `ttpoe_noc_debug_release`: a file that was neither read nor written erases the page.
unfoldable pub noc_debug_release : Bool → World → World
noc_debug_release used w =
    let erased : Option Bytes = elim w.noc_page [ none ↦ none | some page ↦ some (λ j. 0) ] in
    if used then w else record w { noc_len = 0; noc_page = erased }
