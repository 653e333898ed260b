-- ===== src/Respond/Window.antt =====
-- The receive window of a link: which payloads reach the page, and what is answered.
pub mod Stream
use ttpoe.Common.{
  ℕ, ◌+◌, ◌-◌, ◌%◌, ◌^◌, ◌≤◌, ◌<◌, ◌≡◌, ◌≢◌, ◌⊎◌, inl, inr, refl, sym, subst, ◌∙◌, ap, Option, none,
  some, arith, Bool, true, false, inc32, Bool-cases, ltb, leb, ◌==◌,
}
use native.Mathlib.Decide.{ℕ_discrete, dec_le}
use ttpoe.Fsm.{Opcode, ttp_ack, ttp_nack, ttp_nack_full, State}
use ttpoe.World.{World, noc_payload_rx, noc_payload_dup, noc_payload_drop}
use ttpoe.World.Access.{with_tag, with_stats, bug_on}
use ttpoe.Frame.{Bytes}
use ttpoe.Tag.{evlog_add}
use ttpoe.Tag.Log.{evlog_add-SameButLog}
use ttpoe.Noc.{noc_debug_rx, page_with, noc_page_size}
use ttpoe.Respond.{receive_payload, accept_payload, takes_payload, count_drop}

-- What the receiver of a link keeps: the page, its length, the number received last, the state.
pub record Kept (s : ℕ) (w v : World) : Type 0 where
  pub page : v.noc_page ≡ w.noc_page
  pub len : v.noc_len ≡ w.noc_len
  pub rx : (v.tags s).rx_seq_id ≡ (w.tags s).rx_seq_id
  pub state : (v.tags s).state ≡ (w.tags s).state

-- The payload was added to the page, and its number is the last one now.
pub record Added (s : ℕ) (src : Bytes) (nl : ℕ) (page : Bytes) (w v : World) : Type 0 where
  pub page_is : v.noc_page ≡ some (page_with page w.noc_len src nl)
  pub len : v.noc_len ≡ w.noc_len + nl
  pub rx : (v.tags s).rx_seq_id ≡ inc32 (w.tags s).rx_seq_id
  pub state : (v.tags s).state ≡ (w.tags s).state

logged :
    (i s : ℕ) (e : ttpoe.World.LogEvent) (o : Opcode) (w : World)
    → Kept s w (count_drop (evlog_add i e o w))
logged i s e o w =
    let g = evlog_add-SameButLog i e o w in
    let f = ap (λ t. t s) g.tags in
    record {
      page = g.noc_page;
      len = g.noc_len;
      rx = ap (λ t. t.rx_seq_id) f;
      state = ap (λ t. t.state) f;
    }

abbrev count_payload : World → World
count_payload w = with_stats (λ c. record c { pld_ct = inc32 c.pld_ct }) w

module _ (i s : ℕ) (src : Bytes) (nl txi : ℕ) (w : World) (page : Bytes)
    (there : w.noc_page ≡ some page) (room : w.noc_len ≤ noc_page_size)
    (open_link : takes_payload (w.tags s).state ≡ true) (some_bytes : 0 < nl) where
  abbrev pub answer : Opcode × World
  answer = receive_payload i s src nl txi w

  late : inc32 (w.tags s).rx_seq_id ≢ txi → Kept s w answer.1
  unfolding receive_payload
  late h =
      ground (arith, logged i s noc_payload_dup ttp_ack w, logged i s noc_payload_drop ttp_nack w)

  late_op :
      inc32 (w.tags s).rx_seq_id ≢ txi
      → ((answer.0 ≡ ttp_ack) × (0 < txi) × (txi < inc32 (w.tags s).rx_seq_id))
        ⊎ ((answer.0 ≡ ttp_nack) × ((txi ≡ 0) ⊎ (inc32 (w.tags s).rx_seq_id < txi)))
  unfolding receive_payload
  late_op h = ground arith

  full_page :
      inc32 (w.tags s).rx_seq_id ≡ txi
      → noc_page_size < w.noc_len + nl
      → Kept s w answer.1 × (answer.0 ≡ ttp_nack_full)
  unfolding receive_payload noc_debug_rx
  full_page h f = ground arith

  stored : World
  stored = record (bug_on (nl == 0) w) {
    noc_page = some (page_with page w.noc_len src nl);
    noc_len = w.noc_len + nl;
  }

  fits : w.noc_len + nl ≤ noc_page_size → noc_debug_rx src nl w ≡ (stored, true)
  unfolding noc_debug_rx stored
  fits f = ground arith

  counted : World
  counted = with_tag s (λ t. record t { rx_seq_id = inc32 t.rx_seq_id }) stored

  counted-Added : Added s src nl page w (evlog_add i noc_payload_rx ttp_ack counted)
  counted-Added =
      let g = evlog_add-SameButLog i noc_payload_rx ttp_ack counted in
      let f = ap (λ t. t s) g.tags in
      record {
        page_is = g.noc_page ∙ (unfold counted stored in refl);
        len = g.noc_len ∙ (unfold counted stored in refl);
        rx = ap (λ t. t.rx_seq_id) f ∙ (unfold counted stored in ground arith);
        state = ap (λ t. t.state) f ∙ (unfold counted stored in ground arith);
      }

  accepted :
      w.noc_len + nl ≤ noc_page_size
      → accept_payload i s src nl w
        ≡ (ttp_ack, count_payload (evlog_add i noc_payload_rx ttp_ack counted))
  accepted f = unfold accept_payload counted in rw (fits f, accept_payload) refl

  turned : inc32 (w.tags s).rx_seq_id ≡ txi → answer ≡ accept_payload i s src nl w
  unfolding receive_payload
  turned h = ground arith

  added :
      inc32 (w.tags s).rx_seq_id ≡ txi
      → w.noc_len + nl ≤ noc_page_size
      → Added s src nl page w answer.1 × (answer.0 ≡ ttp_ack)
  added h f =
      subst (λ (x : Opcode × World). Added s src nl page w x.1 × (x.0 ≡ ttp_ack))
        (sym (turned h ∙ accepted f))
        (
          record {
            page_is = counted-Added.page_is;
            len = counted-Added.len;
            rx = counted-Added.rx;
            state = counted-Added.state;
          },
          refl,
        )

  -- There is a page, its length within its size. A payload, not empty, of a link that takes payloads is added to
  -- the page and answered by ACK if it is the next one and fits; the next one is refused by NACK_FULL if it does
  -- not fit; any other changes nothing that the receiver keeps and is answered by ACK if it is an old one, else
  -- by NACK.
  pub receive_payload_outcome :
      ((inc32 (w.tags s).rx_seq_id ≡ txi)
        × (w.noc_len + nl ≤ noc_page_size)
        × Added s src nl page w answer.1
        × (answer.0 ≡ ttp_ack))
      ⊎ ((inc32 (w.tags s).rx_seq_id ≡ txi)
          × (noc_page_size < w.noc_len + nl)
          × Kept s w answer.1
          × (answer.0 ≡ ttp_nack_full))
      ⊎ ((inc32 (w.tags s).rx_seq_id ≢ txi)
          × Kept s w answer.1
          × (((answer.0 ≡ ttp_ack) × (0 < txi) × (txi < inc32 (w.tags s).rx_seq_id))
              ⊎ ((answer.0 ≡ ttp_nack) × ((txi ≡ 0) ⊎ (inc32 (w.tags s).rx_seq_id < txi)))))
  receive_payload_outcome = elim (ℕ_discrete (inc32 (w.tags s).rx_seq_id) txi) [
    | no h ↦ inr (inr (h, late h, late_op h))
    | yes h ↦ elim (dec_le (w.noc_len + nl) noc_page_size) [
      | yes f ↦ let a = added h f in inl (h, f, a.0, a.1)
      | no f ↦ let a = full_page h (omega arith) in inr (inl (h, omega arith, a.0, a.1))
    ]
  ]
