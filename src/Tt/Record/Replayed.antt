-- ===== src/Tt/Record/Replayed.antt =====
-- What the hooks record is what a replay injects.
use lecerf.Base.{
  ℕ, ◌<◌, Bool, true, false, if◌then◌else◌, u8, bit_and, Option, some, List, [], ◌∷◌, ◌++◌, length,
  take, get_elem?-append_last, ltb_of_lt, leb_of_lt, ==_of_ne, ◌≡◌, refl, ap, ◌∙◌, arith,
}
use lecerf.Base.Bits.Laws.{bit_and_mask}
use lecerf.Nvic.{nvic_set_pending}
use lecerf.Periph.Uart.{uart_inject_rx}
use lecerf.Periph.Eth.{eth_inject_rx}
use lecerf.Tt.Log.{Event, tt_log_max}
use lecerf.Tt.Log.Append.{IsValid, ev_log_append_lem}
use lecerf.Tt.Snapshot.{Board}
use lecerf.Tt.Index.{Tt}
use lecerf.Tt.Record.{
  append_event, tt_record_irq, tt_record_uart_rx, tt_record_eth_rx, uart_record_rx, tt_eth_max,
  tt_eth_mtu,
}
use lecerf.Tt.Replay.{Replayer, tt_inject_event}

-- What can come from outside: a line of the NVIC, a byte of the UART, a frame.
pub data Input : Type 0 where
  line_in : (irq : ℕ) → irq < 256 → Input
  byte_in : (byte : ℕ) → byte < 256 → Input
  frame_in : (x : ℕ) (xs : List ℕ) → Input

-- The session after the input.
abbrev pub recorded : (ℕ → Bool) → ℕ → Input → Tt → Option Tt
recorded alloc cycle (line_in irq h) t = tt_record_irq alloc false cycle (u8 irq) (some t)
recorded alloc cycle (byte_in byte h) t = uart_record_rx alloc false byte cycle (some t)
recorded alloc cycle (frame_in x xs) t = (tt_record_eth_rx alloc false cycle (x ∷ xs) (some t)).1

-- The board after the input, of a frame its first TT_ETH_MTU bytes.
abbrev pub received : {T N G : Type 0} → Replayer T N G → Input → Board T N G → Board T N G
received rp (line_in irq h) m = record m {
  periph = record (m.periph) { nv = nvic_set_pending irq m.periph.nv };
}
received rp (byte_in byte h) m = record m {
  periph = record (m.periph) { uart = uart_inject_rx byte m.periph.uart };
}
received rp (frame_in x xs) m = eth_inject_rx rp.eth (take tt_eth_mtu (x ∷ xs)) m

-- There is one event more, at the cycle, and its injection does `g`.
pub record IsRecorded {T N G : Type 0} (rp : Replayer T N G) (t t' : Tt) (cycle : ℕ)
    (g : Board T N G → Board T N G) : Type 0 where
  pub event : Event
  pub appended : t'.log.buf ≡ t.log.buf ++ event ∷ []
  pub at_cycle : event.cycle ≡ cycle
  pub injected : (m : Board T N G) → tt_inject_event rp (some t'.frames) event m ≡ g m

append_event-room :
    (alloc : ℕ → Bool) (e : Event) (t : Tt)
    → IsValid t.log
    → ((n : ℕ) → alloc n ≡ true)
    → length t.log.buf < tt_log_max
    → ((append_event alloc e t).0 ≡ true)
      × ((append_event alloc e t).1.log.buf ≡ t.log.buf ++ e ∷ [])
unfolding append_event
append_event-room alloc e t v ok room =
    let (done, grows, at) = ev_log_append_lem alloc e t.log v ok in
    let yes_done = done ∙ ltb_of_lt _ _ room in
    (yes_done, grows ∙ ap (λ b. if b then t.log.buf ++ e ∷ [] else t.log.buf) yes_done)

u8-of : (n : ℕ) → n < 256 → bit_and n 0xFF ≡ n
u8-of n h = omega (arith, bit_and_mask 8 n)

module _ {T N G : Type 0} (rp : Replayer T N G) (alloc : ℕ → Bool) where
  -- With memory at hand, a valid log of fewer than 65536 events and fewer than 256 frames, each
  -- input from outside leaves one event more in the session, at its cycle, and the injection of
  -- that event does to every board what the input does, of a frame its first 1600 bytes. The number
  -- of the line and the byte are below 256, and the frame is not empty.
  pub recorded-IsRecorded :
      (cycle : ℕ) (i : Input) (t : Tt)
      → IsValid t.log
      → ((n : ℕ) → alloc n ≡ true)
      → length t.log.buf < tt_log_max
      → length t.frames < tt_eth_max
      → (t' : Tt) × (recorded alloc cycle i t ≡ some t') × IsRecorded rp t t' cycle (received rp i)
  unfolding append_event tt_record_irq tt_record_uart_rx uart_record_rx tt_record_eth_rx
      tt_inject_event
  recorded-IsRecorded cycle (line_in irq h) t v ok room frames =
      let e : Event = record { cycle = cycle; kind = 2; payload = u8 irq } in
      let same : u8 irq ≡ irq = omega arith in
      (
        (append_event alloc e t).1,
        refl,
        record {
          event = e;
          appended = (append_event-room alloc e t v ok room).1;
          at_cycle = refl;
          injected = λ m. rw same refl;
        },
      )
  recorded-IsRecorded cycle (byte_in byte h) t v ok room frames =
      let e : Event = record { cycle = cycle; kind = 1; payload = byte } in
      (
        (append_event alloc e t).1,
        refl,
        record {
          event = e;
          appended = (append_event-room alloc e t v ok room).1;
          at_cycle = refl;
          injected = λ m. rw (u8-of byte h) refl;
        },
      )
  recorded-IsRecorded cycle (frame_in x xs) t v ok room frames =
      let e : Event = record { cycle = cycle; kind = 3; payload = length t.frames } in
      let t1 : Tt = record t { frames = t.frames ++ take tt_eth_mtu (x ∷ xs) ∷ [] } in
      let (yes_done, grows) = append_event-room alloc e t1 v ok room in
      (
        (append_event alloc e t1).1,
        rw
            (
              recorded,
              tt_record_eth_rx,
              ==_of_ne (length (x ∷ xs)) 0 (λ e. absurd (omega (arith, e))),
              leb_of_lt tt_eth_max (length t.frames) frames,
              yes_done,
            )
            refl,
        record {
          event = e;
          appended = grows;
          at_cycle = refl;
          injected = λ m.
              rw
                (
                  append_event,
                  tt_inject_event,
                  get_elem?-append_last t.frames (take tt_eth_mtu (x ∷ xs)),
                )
                refl;
        },
      )
