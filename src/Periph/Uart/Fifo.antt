-- ===== src/Periph/Uart/Fifo.antt =====
-- The receive queue of the UART behaves as a queue of bytes while fewer than 64 wait in it.
use lecerf.Base.{
  ℕ, zero, suc, ◌+◌, ◌-◌, ◌%◌, ◌≤◌, ◌<◌, bit_and, true, false, not, ◌==◌, update, u8, IsU8, List,
  [], ◌∷◌, ◌++◌, ◌≡◌, refl, ap, ap₂, ◌∙◌, arith,
}
use lecerf.Base.Bits.{bit_and_mask}
use lecerf.Periph.Uart.{Uart, rx_ready, uart_read, uart_inject_rx}

-- The `n` bytes from index `h` on.
pub window : (ℕ → ℕ) → ℕ → ℕ → List ℕ
window q h zero = []
window q h (suc n) = q (h % 64) ∷ window q ((h + 1) % 256) n

unfoldable pub count : Uart → ℕ
count u = (u.rx_tail + 256 - u.rx_head) % 256

-- The bytes that wait, oldest first.
pub waiting : Uart → List ℕ
waiting u = window u.rx_q u.rx_head (count u)

-- Both indices are bytes and no more bytes wait than there are places.
pub record IsValid (u : Uart) : Type 0 where
  pub head_byte : IsU8 u.rx_head
  pub tail_byte : IsU8 u.rx_tail
  pub room : count u ≤ 64

-- A queue read: the oldest byte and the rest.
abbrev pub pop : List ℕ → ℕ × List ℕ
pop [] = (0, [])
pop (x ∷ xs) = (x, xs)

mask_63 : (x : ℕ) → bit_and x 63 ≡ x % 64
mask_63 x = bit_and_mask 6 x

window-update :
    (q : ℕ → ℕ) (v n h i : ℕ)
    → h < 256
    → n < 64
    → i ≡ (h + n) % 64
    → window (update q i v) h (suc n) ≡ window q h n ++ v ∷ []
unfolding window
window-update q v zero h i hh hn e = ap (λ (x : ℕ). x ∷ []) (ground arith)
window-update q v (suc n) h i hh hn e =
    ap₂ {A = ℕ} ◌∷◌ (ground arith)
      (window-update q v n ((h + 1) % 256) i (omega arith) (omega arith) (omega arith))

count-inject :
    (byte : ℕ) (u : Uart) → IsValid u → count u < 64 → count (uart_inject_rx byte u) ≡ suc (count u)
unfolding count uart_inject_rx
count-inject byte u v h = omega arith

-- While fewer than 64 bytes wait, an injected byte joins the end of the queue and the UART stays
-- valid.
pub uart_inject_rx_lem :
    (byte : ℕ) (u : Uart)
    → IsValid u
    → count u < 64
    → IsValid (uart_inject_rx byte u) × (waiting (uart_inject_rx byte u) ≡ waiting u ++ byte ∷ [])
unfolding waiting
uart_inject_rx_lem byte u v h = (
  record {
    head_byte = unfold uart_inject_rx in v.head_byte;
    tail_byte = unfold uart_inject_rx in omega arith;
    room = omega (arith, count-inject byte u v h);
  },
  ap (window (uart_inject_rx byte u).rx_q (uart_inject_rx byte u).rx_head) (count-inject byte u v h)
      ∙ unfold uart_inject_rx in
        window-update u.rx_q byte (count u) u.rx_head (bit_and u.rx_tail 63) v.head_byte h place,
)
  where
    place : bit_and u.rx_tail 63 ≡ (u.rx_head + count u) % 64
    place = mask_63 u.rx_tail ∙ unfold count in omega arith

rx_ready_lem : (u : Uart) → IsValid u → u.replay_mode ≡ true → rx_ready u ≡ not (count u == 0)
unfolding rx_ready count
rx_ready_lem u v on = ground arith

-- The state after a read that found a byte.
abbrev taken : Uart → Uart
taken u = record u { rx_head = u8 (u.rx_head + 1) }

count-taken : (u : Uart) (n : ℕ) → IsValid u → count u ≡ suc n → count (taken u) ≡ n
unfolding count
count-taken u n v e = omega arith

uart_read-ready :
    (u : Uart) → rx_ready u ≡ true → uart_read 0 u ≡ (u.rx_q (u.rx_head % 64), taken u)
unfolding uart_read
uart_read-ready u r = rw (r, mask_63 u.rx_head)

uart_read-empty : (u : Uart) → rx_ready u ≡ false → uart_read 0 u ≡ (0, u)
unfolding uart_read
uart_read-empty u r = rw r

-- What a read of the data register does, by the number of bytes that wait.
read_by_count :
    (n : ℕ) (u : Uart)
    → IsValid u
    → u.replay_mode ≡ true
    → count u ≡ n
    → IsValid (uart_read 0 u).1
      × ◌≡◌ {A = ℕ × List ℕ} ((uart_read 0 u).0, waiting (uart_read 0 u).1) (pop (waiting u))
unfolding waiting window
read_by_count zero u v on e =
    rw (uart_read-empty u (rx_ready_lem u v on ∙ ap (λ (k : ℕ). not (k == 0)) e), e) (v, refl)
read_by_count (suc n) u v on e =
    let ready : rx_ready u ≡ true = ground (arith, rx_ready_lem u v on) in
    rw (uart_read-ready u ready, e, count-taken u n v e)
      (
        record {
          head_byte = omega arith;
          tail_byte = v.tail_byte;
          room = omega (arith, count-taken u n v e);
        },
        refl,
      )

-- In replay mode a read of the data register takes the oldest byte off the queue, or returns 0
-- from an empty one, and the UART stays valid.
pub uart_read_refines :
    (u : Uart)
    → IsValid u
    → u.replay_mode ≡ true
    → IsValid (uart_read 0 u).1
      × ◌≡◌ {A = ℕ × List ℕ} ((uart_read 0 u).0, waiting (uart_read 0 u).1) (pop (waiting u))
uart_read_refines u v on = read_by_count (count u) u v on refl
