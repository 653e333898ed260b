-- ===== src/Tests/Payloads.antt =====
-- Payloads that come and go on one open link.
use ttpoe.Common.{
  none, ℕ, ◌+◌, ◌*◌, ◌≤◌, ◌<◌, ◌≡◌, ◌≢◌, ◌⊎◌, refl, true, false, some, List, [], ◌∷◌, arith, inc32,
}
use ttpoe.Index.Order.{All}
use ttpoe.Fsm.{txq_ttp_payload, Opcode, ttp_ack, ttp_nack, ttp_nack_full}
use ttpoe.World.{World}
use ttpoe.Tag.{tag_get}
use ttpoe.Noc.{noc_page_size, noc_debug_rx}
use ttpoe.Noc.Page.{noc_debug_rx_bounds, HasRoom}
use ttpoe.Queue.{noc_enqu, noc_requ}
use ttpoe.Queue.Payloads.{SamePayloads, noc_requ-SamePayloads}
use ttpoe.Queue.Numbers.{Numbered, noc_enqu-Numbered}
use ttpoe.Enter.{drain}
use ttpoe.Enter.Drain.{Drained, drain-Drained}
use ttpoe.Handle.{handle_ack, retire_first}
use ttpoe.Handle.Numbers.{retire_first-Numbered}
use ttpoe.Handle.Retire.{Retired, handle_ack_outcome}
use ttpoe.Respond.{receive_payload}
use ttpoe.Respond.Window.{Kept, Added, receive_payload_outcome}
use ttpoe.Respond.Window.Stream.{
  Received, AreNumbers, Progress, deliver, deliver_all, deliver-Progress, page_in_order,
}
use ttpoe.Device.{HostInfo, done, noc_debug_tx}
use ttpoe.Device.Short.{Lost, control_key, two_bytes-Lost}
use ttpoe.Device.Read.{read_all, read_all_page}
use ttpoe.Init.Scene.{talking, mac_of}

abbrev size : ℕ → ℕ
size t = 2

abbrev payload : ℕ → ℕ → ℕ
payload t j = t * 10 + j

abbrev arrivals : List ℕ
arrivals = 3 ∷ 2 ∷ 2 ∷ 3 ∷ []

start : Received 0 size payload 1 0 0 talking
start = record {
  page = λ a. 0;
  there = refl;
  rx = refl;
  small = omega arith;
  len = refl;
  room = omega arith;
  open_link = refl;
  bytes = λ m j h l. absurd (omega arith);
}

numbers_ok : AreNumbers arrivals
numbers_ok = (
  omega arith,
  omega arith,
  (omega arith, omega arith, (omega arith, omega arith, (omega arith, omega arith, tt))),
)

page_in_order_example :
    (k' : ℕ) × (0 ≤ k')
    × Received 0 size payload 1 0 k' (deliver_all 1 0 size payload arrivals talking)
page_in_order_example =
    page_in_order 1 0 size payload (λ t. omega arith) 1 0 arrivals 0 talking start numbers_ok

deliver-Progress_example :
    Progress 1 0 size payload
      (λ t. omega arith)
      1
      0
      0
      2
      talking
      (deliver 1 0 size payload 2 talking)
deliver-Progress_example =
    deliver-Progress 1 0 size payload (λ t. omega arith) 1 0 0 2 talking start (omega arith)
      (omega arith)

abbrev got : Opcode × World
got = receive_payload 1 0 (payload 2) 2 2 talking

abbrev txi : ℕ
txi = 2

abbrev next : ℕ
next = inc32 (talking.tags 0).rx_seq_id

receive_payload_outcome_example :
    ((next ≡ 2)
      × (0 + 2 ≤ noc_page_size)
      × Added 0 (payload 2) 2 (λ a. 0) talking got.1
      × (got.0 ≡ ttp_ack))
    ⊎ ((next ≡ 2) × (noc_page_size < 0 + 2) × Kept 0 talking got.1 × (got.0 ≡ ttp_nack_full))
    ⊎ ((next ≢ 2)
        × Kept 0 talking got.1
        × (((got.0 ≡ ttp_ack) × (0 < 2) × (2 < next))
            ⊎ ((got.0 ≡ ttp_nack) × ((txi ≡ 0) ⊎ (next < 2)))))
receive_payload_outcome_example =
    receive_payload_outcome 1 0 (payload 2) 2 2 talking (λ a. 0) refl (omega arith) refl
      (omega arith)

noc_debug_rx_bounds_example :
    ((noc_debug_rx (payload 2) 2 talking).0.noc_len ≤ noc_page_size)
    × ((((noc_debug_rx (payload 2) 2 talking).1 ≡ true) × HasRoom 2 talking)
        ⊎ (((noc_debug_rx (payload 2) 2 talking).1 ≡ false)
            × (¬ (HasRoom 2 talking))
            × ((noc_debug_rx (payload 2) 2 talking).0.stats.drp_ct ≡ 1)
            × ((noc_debug_rx (payload 2) 2 talking).0.noc_page ≡ talking.noc_page)))
noc_debug_rx_bounds_example = noc_debug_rx_bounds (payload 2) 2 talking (omega arith)

found : tag_get talking 7 ≡ some 0
unfolding tag_get ttpoe.Index.tag_get
found = refl

handle_ack_outcome_example :
    (((talking.events 3).psi.txi_seq ≡ (talking.events 1).psi.rxi_seq)
      × Retired 0 3 [] talking (handle_ack 1 talking).0)
    ⊎ (((talking.events 3).psi.txi_seq ≢ (talking.events 1).psi.rxi_seq)
        × SamePayloads 0 talking (handle_ack 1 talking).0)
handle_ack_outcome_example = handle_ack_outcome 1 0 3 [] talking found refl (omega arith)

noc_requ-SamePayloads_example : SamePayloads 0 talking (noc_requ 0 talking)
noc_requ-SamePayloads_example = noc_requ-SamePayloads 0 talking (omega arith)

numbers : Numbered 0 5 talking
numbers = record { run = (refl, tt); next = refl }

not_waiting : All (λ t. t ≢ 4) (3 ∷ [])
not_waiting = (λ e. omega (arith, e), tt)

noc_enqu-Numbered_example :
    Numbered 0 5 (noc_enqu 4 talking) × (((noc_enqu 4 talking).tags 0).ncq ≡ 3 ∷ 4 ∷ [])
noc_enqu-Numbered_example = noc_enqu-Numbered 4 0 5 talking found not_waiting numbers

drain-Drained_example : Drained 0 (3 ∷ []) talking (drain 0 talking)
drain-Drained_example = drain-Drained 0 talking (omega arith)

-- A page of three bytes, read two at a time.
abbrev filled_page : World
filled_page = record talking { noc_page = some (payload 4); noc_len = 3 }

read_all_page_example : read_all 4 2 0 filled_page ≡ 40 ∷ 41 ∷ 42 ∷ []
read_all_page_example = read_all_page 2 filled_page (payload 4) refl (omega arith)

abbrev target : HostInfo
target = record { ve = true; mac = mac_of 7; ipa = 0; vc = 0; gw = false }

no_control_link : tag_get talking control_key ≡ none
unfolding tag_get ttpoe.Index.tag_get
no_control_link = refl

two_bytes-Lost_example :
    Lost 8 (9 ∷ []) talking (noc_debug_tx 38 (some 5) 2 txq_ttp_payload target talking).0
    × ((noc_debug_tx 38 (some 5) 2 txq_ttp_payload target talking).1 ≡ done 2)
two_bytes-Lost_example = two_bytes-Lost 38 5 8 (9 ∷ []) target talking refl no_control_link

retire_first-Numbered_example : Numbered 0 6 (retire_first 0 3 [] talking)
retire_first-Numbered_example = retire_first-Numbered 0 3 5 [] talking refl tt numbers
