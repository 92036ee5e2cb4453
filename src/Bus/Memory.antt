-- ===== src/Bus/Memory.antt =====
-- Flat memory behind the bus: what is written is read back, and a write changes nothing else.
use lecerf.Base.{
  ℕ, zero, suc, ◌+◌, ◌-◌, ◌*◌, ◌/◌, ◌%◌, ◌^◌, ◌≤◌, ◌<◌, true, add32, sub32, Option, some, ◌≡◌, ◌≢◌,
  refl, ap, ap₂, sym, ◌∙◌, arith, IsU32, ◌⊎◌,
}
use native.Mathlib.Nat.{div-add-mod, div-div-eq-div-mul, pow-suc, mul_comm}
use lecerf.Bus.{
  Region, Bus, flat, covers, find_region, put_region, load_bytes, store_bytes, Mmio, bus_read,
  bus_write, read_region, write_region,
}
use lecerf.Bus.Find.{first-set, first-set_ne, first-IsFirst, IsFirst, find_region-IsFirst, base-le}
use native.Mathlib.Decide.{ℕ_discrete}

mod-mul : (a c m : ℕ) → a % (c * m) ≡ a % c + c * (a / c % m)
mod-mul a c m = omega (
  arith,
  div-add-mod a (c * m),
  div-add-mod a c,
  ap (λ (t : ℕ). c * t) (div-add-mod (a / c) m),
  ap (λ (t : ℕ). c * m * t) (div-div-eq-div-mul a c m),
)

store_bytes-add :
    (n j off v : ℕ) (buf : ℕ → ℕ) → j < n → store_bytes n off v buf (off + j) ≡ v / 256 ^ j % 256
unfolding store_bytes
store_bytes-add n j off v buf h =
    let back : off + j - off ≡ j = omega arith in
    ground (arith, ap (λ (t : ℕ). v / 256 ^ t % 256) back)

shift_byte : (v j : ℕ) → v / 256 ^ suc j ≡ v / 256 ^ j / 256
shift_byte v j = rw (pow-suc 256 j) (sym (div-div-eq-div-mul v (256 ^ j) 256))

load_bytes-store_bytes :
    (k n j off v : ℕ) (buf : ℕ → ℕ)
    → j + k ≤ n
    → load_bytes k (store_bytes n off v buf) (off + j) ≡ v / 256 ^ j % 256 ^ k
unfolding load_bytes store_bytes
load_bytes-store_bytes zero n j off v buf h = omega arith
load_bytes-store_bytes (suc k) n j off v buf h =
    let w = v / 256 ^ j in
    let rest = load_bytes-store_bytes k n (suc j) off v buf (omega arith) in
    let next : off + j + 1 ≡ off + suc j = omega arith in
    rw (store_bytes-add n j off v buf (omega arith), next, rest, shift_byte v j)
      (rw (pow-suc 256 k, mul_comm (256 ^ k) 256) (sym (mod-mul w 256 (256 ^ k))))

load_bytes_disjoint :
    (k n o off v : ℕ) (buf : ℕ → ℕ)
    → (o + k ≤ off) ⊎ (off + n ≤ o)
    → load_bytes k (store_bytes n off v buf) o ≡ load_bytes k buf o
unfolding load_bytes store_bytes
load_bytes_disjoint zero n o off v buf h = refl
load_bytes_disjoint (suc k) n o off v buf h =
    let rest : load_bytes k (store_bytes n off v buf) (o + 1) ≡ load_bytes k buf (o + 1) =
      load_bytes_disjoint k n (o + 1) off v buf (ground arith) in
    ap₂ (λ (x y : ℕ). x + 256 * y) (ground arith) rest

-- The bus as a part of a state, and an access that falls into flat memory.
module _ {T S : Type 0} (m : Mmio T S)
    (bus_of-put_bus : (b : Bus T) (s : S) → m.bus_of (m.put_bus b s) ≡ b) where
  -- The access of `size` bytes at `a` lies inside the flat region `i`, which is `r`.
  pub record IsFlat (s : S) (a size i : ℕ) (r : Region T) : Type 0 where
    pub found : find_region (m.bus_of s) a ≡ some (i, r)
    pub is_ram : r.kind ≡ flat
    pub fits : add32 (sub32 a r.base) size ≤ r.size

  bus_read-flat :
      (s : S) (a size i : ℕ) (r : Region T)
      → IsFlat s a size i r
      → bus_read m a size s ≡ (some (load_bytes size r.buf (sub32 a r.base)), s)
  unfolding bus_read read_region
  bus_read-flat s a size i r h = ground (arith, h.found, h.is_ram, h.fits)

  abbrev stored : S → ℕ → ℕ → ℕ → ℕ → Region T → S
  stored s a size v i r =
      m.put_bus
        (put_region (m.bus_of s) i (record r { buf = store_bytes size (sub32 a r.base) v r.buf })) s

  bus_write-flat :
      (s : S) (a size v i : ℕ) (r : Region T)
      → IsFlat s a size i r
      → r.writable ≡ true
      → bus_write m a size v s ≡ (true, stored s a size v i r)
  unfolding bus_write write_region
  bus_write-flat s a size v i r h may = ground (arith, h.found, h.is_ram, may, h.fits)

  -- An access to the same region finds it after the write, with the new bytes.
  find-stored :
      (s : S) (a size v i a' : ℕ) (r : Region T)
      → find_region (m.bus_of s) a' ≡ some (i, r)
      → find_region (m.bus_of (stored s a size v i r)) a'
        ≡ some (i, record r { buf = store_bytes size (sub32 a r.base) v r.buf })
  unfolding find_region covers
  find-stored s a size v i a' r e = rw bus_of-put_bus (
      first-set (covers a') (m.bus_of s).regs
        (record r { buf = store_bytes size (sub32 a r.base) v r.buf }) e
        (first-IsFirst (covers a') (m.bus_of s).regs e).holds)

  find-stored_ne :
      (s : S) (a size v i a' i' : ℕ) (r r' : Region T)
      → find_region (m.bus_of s) a ≡ some (i, r)
      → find_region (m.bus_of s) a' ≡ some (i', r')
      → i' ≢ i
      → find_region (m.bus_of (stored s a size v i r)) a' ≡ some (i', r')
  unfolding find_region covers
  find-stored_ne s a size v i a' i' r r' e e' ne = rw bus_of-put_bus (
      first-set_ne (covers a') (m.bus_of s).regs i e'
        (first-IsFirst (covers a) (m.bus_of s).regs e).there refl ne)

  -- A write of `size` bytes into writable flat memory succeeds, and a read of as many bytes at the
  -- same address then returns the value cut to that size, and changes nothing.
  pub bus_read-bus_write :
      (s : S) (a size v i : ℕ) (r : Region T)
      → IsFlat s a size i r
      → r.writable ≡ true
      → let (done, s') = bus_write m a size v s in
        (done ≡ true) × (bus_read m a size s' ≡ (some (v % 256 ^ size), s'))
  bus_read-bus_write s a size v i r h may =
      rw (bus_write-flat s a size v i r h may)
        (refl, bus_read-flat s' a size i r' again ∙ ap (λ (x : ℕ). (some x, s')) back)
    where
      off : ℕ
      off = sub32 a r.base

      s' : S
      s' = stored s a size v i r

      r' : Region T
      r' = record r { buf = store_bytes size off v r.buf }

      again : IsFlat s' a size i r'
      again = record {
        found = find-stored s a size v i a r h.found;
        is_ram = h.is_ram;
        fits = h.fits;
      }

      back : load_bytes size (store_bytes size off v r.buf) off ≡ v % 256 ^ size
      back =
          let here : off + 0 ≡ off = omega arith in
          let whole : v / 1 ≡ v = omega arith in
          rw (here, whole) at (load_bytes-store_bytes size size 0 off v r.buf (omega arith))

  -- A write into writable flat memory leaves what a read of flat memory returns, where the read is
  -- of another region or of bytes outside those written.
  pub bus_read-bus_write_ne :
      (s : S) (a size v i : ℕ) (r : Region T) (a' size' i' : ℕ) (r' : Region T)
      → IsFlat s a size i r
      → r.writable ≡ true
      → IsFlat s a' size' i' r'
      → (i' ≢ i) ⊎ (a' + size' ≤ a) ⊎ (a + size ≤ a')
      → IsU32 a
      → IsU32 a'
      → (bus_read m a' size' (bus_write m a size v s).1).0 ≡ (bus_read m a' size' s).0
  bus_read-bus_write_ne s a size v i r a' size' i' r' h may h' apart ha ha' =
      rw (bus_write-flat s a size v i r h may, bus_read-flat s a' size' i' r' h')
        (elim (ℕ_discrete i' i) [
          | yes e ↦ same_region e
          | no ne ↦
              ap (λ (x : Option ℕ × S). x.0)
                (bus_read-flat s' a' size' i' r' (record {
                  found = find-stored_ne s a size v i a' i' r r' h.found h'.found ne;
                  is_ram = h'.is_ram;
                  fits = h'.fits;
                }))
        ])
    where
      s' : S
      s' = stored s a size v i r

      first_a : IsFirst (covers a) (m.bus_of s).regs i r
      first_a = find_region-IsFirst (m.bus_of s) a h.found

      first_a' : IsFirst (covers a') (m.bus_of s).regs i' r'
      first_a' = find_region-IsFirst (m.bus_of s) a' h'.found

      same_region :
          i' ≡ i → (bus_read m a' size' s').0 ≡ some (load_bytes size' r'.buf (sub32 a' r'.base))
      same_region e =
          let same : r' ≡ r = cc (first_a'.there, first_a.there, e) in
          rw same (
            ap (λ (x : Option ℕ × S). x.0)
              (bus_read-flat s' a' size' i
                (record r { buf = store_bytes size (sub32 a r.base) v r.buf })
                (record {
                  found = find-stored s a size v i a' r (cc (h'.found, e, same));
                  is_ram = h.is_ram;
                  fits = rw same at h'.fits;
                }))
            ∙ ap (λ (x : ℕ). some x)
                (load_bytes_disjoint size' size (sub32 a' r.base) (sub32 a r.base) v r.buf (
                  ground
                    (arith, base-le r a first_a.holds, base-le r a' (rw (← same) first_a'.holds)))))
