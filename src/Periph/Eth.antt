-- ===== src/Periph/Eth.antt =====
-- include/periph/eth.h and src/periph/eth.c: a MAC that answers what is sent, by copies through
-- the bus, and takes frames from outside.
pub mod Checksum
use lecerf.Base.{
  ℕ, zero, suc, ◌+◌, ◌-◌, ◌*◌, ◌/◌, ◌%◌, ◌^◌, bit_and, bit_or, Bool, true, false, not, ◌==◌, ◌&&◌,
  ◌||◌, ltb, if◌then◌else◌, update, u8, u32, add32, not32, ◌>>>◌, List, [], ◌∷◌, length, min,
}

-- `eth_t`; `attached` tells that the back-pointer `bus` is set.
pub record Eth : Type 0 where
  pub ctrl : ℕ
  pub tx_addr : ℕ
  pub tx_len : ℕ
  pub rx_addr : ℕ
  pub rx_len : ℕ
  pub status : ℕ
  pub attached : Bool

-- `eth_attach`
unfoldable pub eth_attach : Eth
eth_attach = record {
  ctrl = 0;
  tx_addr = 0;
  tx_len = 0;
  rx_addr = 0;
  rx_len = 0;
  status = 0;
  attached = true;
}

-- `eth_read`
unfoldable pub eth_read : ℕ → Eth → ℕ
eth_read off e =
    if off == 0x00
    then e.ctrl
    else if off == 0x04
    then e.tx_addr
    else if off == 0x08
    then e.tx_len
    else if off == 0x0C
    then e.rx_addr
    else if off == 0x10
    then e.rx_len
    else if off == 0x14
    then e.status
    else 0

-- `tmp[i] = buf[x+i]; buf[x+i] = buf[y+i]; buf[y+i] = tmp[i]`, for `n` bytes.
unfoldable pub swap_bytes : ℕ → ℕ → ℕ → (ℕ → ℕ) → ℕ → ℕ
swap_bytes zero x y buf = buf
swap_bytes (suc n) x y buf = swap_bytes n (x + 1) (y + 1) (update (update buf x (buf y)) y (buf x))

-- The sum of the big-endian words at `i`, `i + 2`, ... while `i + 1 < n`; the fuel is the number
-- of words that are left at most. The sum of 783 words fits 32 bits.
unfoldable pub sum_words : ℕ → ℕ → ℕ → (ℕ → ℕ) → ℕ
sum_words zero i n buf = 0
sum_words (suc fuel) i n buf =
    let rest = sum_words fuel (i + 2) n buf in
    if ltb (i + 1) n then buf i * 256 + buf (i + 1) + rest else 0

-- `while (sum >> 16) sum = (sum & 0xFFFF) + (sum >> 16);`
unfoldable pub fold_sum : ℕ → ℕ → ℕ
fold_sum zero sum = sum
fold_sum (suc fuel) sum =
    let rest = fold_sum fuel (bit_and sum 0xFFFF + (sum >>> 16)) in
    if (sum >>> 16) == 0 then sum else rest

-- Three rounds are enough for a 32-bit sum.
abbrev pub fold_fuel : ℕ
fold_fuel = 3

abbrev pub max_frame : ℕ
max_frame = 1600

-- The buffer of `make_echo_reply` before the checksum: the addresses are swapped, the ICMP type
-- and checksum are 0.
unfoldable pub turned : (ℕ → ℕ) → ℕ → ℕ
unfolding swap_bytes
turned buf = update (update (update (swap_bytes 4 26 30 (swap_bytes 6 0 6 buf)) 34 0) 36 0) 37 0

-- The checksum that `make_echo_reply` computes over the bytes from 34 to `n`.
unfoldable pub checksum : ℕ → (ℕ → ℕ) → ℕ
unfolding sum_words fold_sum
checksum n buf = bit_and (not32 (fold_sum fold_fuel (sum_words n 34 n buf))) 0xFFFF

-- The buffer with the checksum in its place.
unfoldable pub echo_reply : ℕ → (ℕ → ℕ) → ℕ → ℕ
unfolding turned checksum
echo_reply n buf =
    let t = turned buf in
    let sum = checksum n t in update (update t 36 (u8 (sum >>> 8))) 37 (u8 sum)

-- What the device needs of the state around it: one byte over the bus (0 where the read faults),
-- and its own registers.
pub record EthHost (S : Type 0) : Type 0 where
  pub read_byte : ℕ → S → ℕ × S
  pub write_byte : ℕ → ℕ → S → S
  pub get_eth : S → Eth
  pub put_eth : Eth → S → S

module _ {S : Type 0} (host : EthHost S) where
  open host use {read_byte, write_byte, get_eth, put_eth}

  -- The copy of a frame that is too short for ICMP, byte by byte.
  copy_frame : ℕ → ℕ → ℕ → ℕ → S → S
  copy_frame zero i src dst s = s
  copy_frame (suc n) i src dst s =
      let (v, s') = read_byte (add32 src i) s in
      copy_frame n (i + 1) src dst (write_byte (add32 dst i) v s')

  read_frame : ℕ → ℕ → ℕ → (ℕ → ℕ) → S → (ℕ → ℕ) × S
  read_frame zero i src buf s = (buf, s)
  read_frame (suc n) i src buf s =
      let (v, s') = read_byte (add32 src i) s in read_frame n (i + 1) src (update buf i (u8 v)) s'

  write_frame : ℕ → ℕ → ℕ → (ℕ → ℕ) → S → S
  write_frame zero i dst buf s = s
  write_frame (suc n) i dst buf s =
      write_frame n (i + 1) dst buf (write_byte (add32 dst i) (buf i) s)

  -- `make_echo_reply`
  unfoldable pub make_echo_reply : ℕ → ℕ → ℕ → S → S
  unfolding copy_frame read_frame write_frame echo_reply
  make_echo_reply src dst len s =
      if ltb len 42
      then copy_frame len 0 src dst s
      else (let n = if ltb len max_frame then len else max_frame in
          let (buf, s') = read_frame n 0 src (λ j. 0) s in
          write_frame n 0 dst (echo_reply n buf) s')

  -- The answer to a write of TX_LEN, whose register is already set.
  transmit : ℕ → S → S
  transmit v s =
      let e = get_eth s in
      if e.attached && not (e.rx_addr == 0)
      then (let s' = make_echo_reply e.tx_addr e.rx_addr v s in
          let e' = get_eth s' in
          put_eth (record e' { rx_len = v; status = bit_or e'.status 0x3 }) s')
      else s

  -- `eth_write`
  unfoldable pub eth_write : ℕ → ℕ → S → S
  unfolding transmit make_echo_reply
  eth_write off v s =
      let e = get_eth s in
      if off == 0x00
      then put_eth (record e { ctrl = v }) s
      else if off == 0x04
      then put_eth (record e { tx_addr = v }) s
      else if off == 0x08
      then transmit v (put_eth (record e { tx_len = v }) s)
      else if off == 0x0C
      then put_eth (record e { rx_addr = v }) s
      else if off == 0x10
      then put_eth (record e { rx_len = v }) s
      else if off == 0x14
      then put_eth (record e { status = bit_and e.status (not32 v) }) s
      else s

  -- The bytes of a frame from outside, one by one; `e->rx_addr` is read again for each.
  unfoldable pub deliver : ℕ → List ℕ → S → S
  deliver i [] s = s
  deliver i (x ∷ xs) s = deliver (i + 1) xs (write_byte (add32 (get_eth s).rx_addr i) x s)

  -- `eth_inject_rx`, of a frame that is given by its bytes.
  unfoldable pub eth_inject_rx : List ℕ → S → S
  unfolding deliver
  eth_inject_rx frame s =
      let e = get_eth s in
      if not e.attached || (e.rx_addr == 0) || (length frame == 0)
      then s
      else (let s' = deliver 0 frame s in
          let e' = get_eth s' in
          put_eth (record e' { rx_len = length frame; status = bit_or e'.status 0x3 }) s')
