-- ===== src/Tt/Snapshot/RoundTrip.antt =====
-- What a snapshot saves is what it restores, and a damaged snapshot is refused.
use lecerf.Base.{
  ℕ, ◌≤◌, ◌<◌, Bool, true, false, ◌==◌, ◌&&◌, ltb, none, some, List, length, set, get_or, IsU8, ◌≡◌,
  ◌≢◌, refl, sym, ap, ◌∙◌, arith, Bool-cases, inl, inr, ltb_of_lt, ltb_of_le, ==_refl, ==_of_ne,
}
use lecerf.Bus.{Region, bus_find_flat, is_flat}
use lecerf.Bus.Find.{first-IsFirst, first-set}
use lecerf.Tt.Checksum.{snap_xor32}
use lecerf.Tt.Checksum.Detects.{AreBytes, snap_xor32-set}
use lecerf.Tt.Snapshot.{
  Board, Snapshot, snap_save, snap_restore, accepted, put_back, snapshot_of, sum_of, copy,
  sram_base_addr, sram_size_bytes,
}

module _ {T N G : Type 0} where
  -- `m'` is the board `m` with its RAM region `sr`, as far as a snapshot goes; `i` is the region of
  -- the RAM in `m'`.
  pub record IsRestored (m m' : Board T N G) (sr : Region T) (i : ℕ) : Type 0 where
    pub same_cpu : m'.cpu ≡ m.cpu
    pub same_periph :
        m'.periph ≡ record (m.periph) { eth = record (m.periph.eth) { attached = true } }
    pub ram : Region T
    pub ram_found : bus_find_flat m'.bus sram_base_addr ≡ some (i, ram)
    pub same_ram : (k : ℕ) → k < sram_size_bytes → ram.buf k ≡ sr.buf k
    pub decoded_again : (k : ℕ) → m'.dcache k ≡ none

refused :
    (bytes_of : Snapshot → List ℕ) (b : Snapshot)
    → snap_xor32 (bytes_of (record b { checksum = 0 })) ≢ b.checksum
    → accepted bytes_of b ≡ false
unfolding accepted sum_of
refused bytes_of b h = ground (arith, ==_of_ne _ _ h)

module _ {T N G : Type 0} (bytes_of : Snapshot → List ℕ) (forget : G → G) where
  snap_save-some :
      (m : Board T N G) {i : ℕ} {sr : Region T} {b : Snapshot}
      → bus_find_flat m.bus sram_base_addr ≡ some (i, sr)
      → snap_save bytes_of m ≡ some b
      → b ≡ record (snapshot_of m sr) { checksum = sum_of bytes_of (snapshot_of m sr) }
  unfolding snap_save
  snap_save-some m {i} {sr} {b} found saved = elim (Bool-cases (ltb sr.size sram_size_bytes)) [
    | inl small ↦
        let e : none ≡ some b = sym (rw (found, small, snap_save) refl) ∙ saved in absurd (cc e)
    | inr large ↦
        let c = snapshot_of m sr in
        let e : some (record c { checksum = sum_of bytes_of c }) ≡ some b =
          sym (rw (found, large, snap_save) refl) ∙ saved in
        cc e
  ]

  -- What `snap_save` made is accepted.
  saved-accepted :
      (m : Board T N G) (sr : Region T)
      → accepted bytes_of
          (record (snapshot_of m sr) { checksum = sum_of bytes_of (snapshot_of m sr) })
        ≡ true
  unfolding accepted sum_of snapshot_of
  saved-accepted m sr = rw (==_refl (sum_of bytes_of (snapshot_of m sr))) refl

  put_back-IsRestored :
      (m m' : Board T N G) (sr sr' : Region T) (i : ℕ) (c : ℕ)
      → bus_find_flat m'.bus sram_base_addr ≡ some (i, sr')
      → IsRestored m (put_back forget (record (snapshot_of m sr) { checksum = c }) i sr' m') sr i
  unfolding put_back snapshot_of bus_find_flat
  put_back-IsRestored m m' sr sr' i c found =
      let is_ram : Region T → Bool = λ r. is_flat r.kind && (r.base == sram_base_addr) in
      let there = first-IsFirst is_ram m'.bus.regs found in
      record {
        same_cpu = refl;
        same_periph = refl;
        ram = record sr' {
          buf = copy sram_size_bytes (copy sram_size_bytes sr.buf (λ j. 0)) sr'.buf;
        };
        ram_found = first-set is_ram m'.bus.regs _ found there.holds;
        same_ram = λ k h. rw (ltb_of_lt k sram_size_bytes h) refl;
        decoded_again = λ k. refl;
      }

  snap_restore_lem :
      (m m' : Board T N G) (j c : ℕ) (sr sr' : Region T)
      → bus_find_flat m'.bus sram_base_addr ≡ some (j, sr')
      → sram_size_bytes ≤ sr'.size
      → accepted bytes_of (record (snapshot_of m sr) { checksum = c }) ≡ true
      → (m'' : Board T N G) × (snap_restore bytes_of forget
            (record (snapshot_of m sr) { checksum = c })
            m'
          ≡ some (true, m''))
        × IsRestored m m'' sr j
  unfolding snap_restore
  snap_restore_lem m m' j c sr sr' found' large right = (
    put_back forget (record (snapshot_of m sr) { checksum = c }) j sr' m',
    rw (right, found', ltb_of_le sr'.size sram_size_bytes large) refl,
    put_back-IsRestored m m' sr sr' j c found',
  )

  -- A snapshot that `snap_save` took of a board is accepted by `snap_restore` on every board that
  -- has a flat region of at least SRAM_SIZE bytes for the RAM. The CPU, the peripherals and the RAM
  -- are then those of the saved board, the back-pointer of the network device is set, and the decode
  -- cache is empty.
  pub snap_restore-snap_save :
      (m m' : Board T N G) (b : Snapshot) (i j : ℕ) (sr sr' : Region T)
      → bus_find_flat m.bus sram_base_addr ≡ some (i, sr)
      → bus_find_flat m'.bus sram_base_addr ≡ some (j, sr')
      → sram_size_bytes ≤ sr'.size
      → snap_save bytes_of m ≡ some b
      → (m'' : Board T N G) × (snap_restore bytes_of forget b m' ≡ some (true, m''))
        × IsRestored m m'' sr j
  snap_restore-snap_save m m' b i j sr sr' found found' large saved =
      rw (snap_save-some m found saved)
        (snap_restore_lem m m' j _ sr sr' found' large (saved-accepted m sr))

  saved_sum :
      (m : Board T N G) {i : ℕ} {sr : Region T} {b : Snapshot}
      → bus_find_flat m.bus sram_base_addr ≡ some (i, sr)
      → snap_save bytes_of m ≡ some b
      → b.checksum ≡ snap_xor32 (bytes_of (record b { checksum = 0 }))
  unfolding sum_of snapshot_of
  saved_sum m {i} {sr} {b} found saved = rw (snap_save-some m found saved) refl

  -- A snapshot with the checksum of a saved one, whose bytes differ from the saved one's in one
  -- byte, is refused by `snap_restore`, and the board stays as it was.
  pub snap_restore-damaged :
      (m m' : Board T N G) (b b' : Snapshot) (i : ℕ) (sr : Region T) (k v : ℕ)
      → bus_find_flat m.bus sram_base_addr ≡ some (i, sr)
      → snap_save bytes_of m ≡ some b
      → b'.checksum ≡ b.checksum
      → AreBytes (bytes_of (record b { checksum = 0 }))
      → k < length (bytes_of (record b { checksum = 0 }))
      → IsU8 v
      → v ≢ get_or (bytes_of (record b { checksum = 0 })) k 0
      → bytes_of (record b' { checksum = 0 }) ≡ set (bytes_of (record b { checksum = 0 })) k v
      → snap_restore bytes_of forget b' m' ≡ some (false, m')
  unfolding snap_restore
  snap_restore-damaged m m' b b' i sr k v found saved same bytes hk hv ne damage =
      rw
        (refused bytes_of b' (λ e.
          snap_xor32-set (bytes_of (record b { checksum = 0 })) k v bytes hk hv ne
            (sym (ap snap_xor32 damage) ∙ e ∙ same ∙ saved_sum m found saved)))
        refl
