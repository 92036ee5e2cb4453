-- ===== src/Jit/Cache.antt =====
-- The index of the block cache names only blocks of the cache, by their own address.
use lecerf.Base.{
  ℕ, zero, suc, ◌+◌, ◌≤◌, ◌<◌, Bool, true, false, ◌==◌, ltb, leb, ◌&&◌, if◌then◌else◌, update,
  add32, Option, none, some, List, [], ◌∷◌, length, ◌≡◌, refl, sym, ap, ◌∙◌, arith, Bool-cases, inl,
  inr, ◌≢◌,
}
use native.Mathlib.Decide.{ℕ_discrete}
use lecerf.Cpu.{reg_pc}
use lecerf.Decoder.Insn.{Insn}
use lecerf.Jit.{
  Block, Slot, free, counting, at, Jit, Engine, hash, lookup, install, jit_flush, is_terminator,
  decode_block, compile_block, set_pc, count_hit, run_block, interpret, jit_run,
}

abbrev index_or : Slot → ℕ → ℕ
index_or free d = d
index_or counting d = d
index_or (at i) d = i

abbrev is_at : Slot → Bool
is_at free = false
is_at counting = false
is_at (at i) = true

module _ {N G : Type 0} where
  -- A slot with a block: the block is in the cache, the slot has the block's address, and the
  -- address belongs to the slot.
  pub record IsNamed (j : Jit N G) (h i : ℕ) : Type 0 where
    pub in_cache : i < j.n_blocks
    pub own_pc : (j.blocks i).pc_start ≡ j.lookup_pc h
    pub own_slot : hash (j.lookup_pc h) ≡ h

  -- The cache fits its arrays, its blocks are not longer than theirs, and every slot with a block
  -- is right.
  pub record IsCache (j : Jit N G) : Type 0 where
    pub fits : j.n_blocks ≤ 1024
    pub short : (i : ℕ) → i < j.n_blocks → length (j.blocks i).ins ≤ 32
    pub named : (h i : ℕ) → j.lookup_idx h ≡ at i → IsNamed j h i

  flush-IsCache : (forget : G → G) (j : Jit N G) → IsCache (jit_flush forget j)
  unfolding jit_flush
  flush-IsCache forget j = record {
    fits = omega arith;
    short = λ i h. absurd (omega arith);
    named = λ h i e. absurd (ground (arith, ap is_at e));
  }

  install-IsCache :
      (j : Jit N G) (pc : ℕ) (slot : Slot)
      → IsCache j
      → ((i : ℕ) → slot ≡ at i → (i < j.n_blocks) × ((j.blocks i).pc_start ≡ pc))
      → IsCache (install j pc slot)
  unfolding install
  install-IsCache j pc slot c right = record {
    fits = c.fits;
    short = c.short;
    named = λ h i e. elim (ℕ_discrete h (hash pc)) [
      | yes here ↦
          let found = right i (sym (ground (arith, here)) ∙ e) in
          record {
            in_cache = found.0;
            own_pc = ground (arith, here, found.1);
            own_slot = ground (arith, here);
          }
      | no other ↦
          let old = c.named h i (sym (ground (arith, other)) ∙ e) in
          record {
            in_cache = old.in_cache;
            own_pc = ground (arith, other, old.own_pc);
            own_slot = ground (arith, other, old.own_slot);
          }
    ];
  }

  -- Where `lookup` finds a block, it is one of the cache and starts at the address looked up.
  pub lookup-own :
      (j : Jit N G) (pc i : ℕ)
      → IsCache j
      → lookup j pc ≡ some i
      → (i < j.n_blocks) × ((j.blocks i).pc_start ≡ pc)
  unfolding lookup
  lookup-own j pc i c e = from_slot (j.lookup_idx (hash pc)) refl e
    where
      from_slot :
          (slot : Slot)
          → j.lookup_idx (hash pc) ≡ slot
          → elim slot [
            | free ↦ none
            | counting ↦ none
            | at i ↦ if j.lookup_pc (hash pc) == pc then some i else none
          ]
            ≡ some i
          → (i < j.n_blocks) × ((j.blocks i).pc_start ≡ pc)
      from_slot free e0 e = absurd (cc e)
      from_slot counting e0 e = absurd (cc e)
      from_slot (at k) e0 e = elim (ℕ_discrete (j.lookup_pc (hash pc)) pc) [
        | yes same ↦
            let k_is_i : k ≡ i = ground (arith, e, same) in
            let old = c.named (hash pc) k e0 in
            (ground (arith, old.in_cache, k_is_i), ground (arith, old.own_pc, k_is_i, same))
        | no other ↦ absurd (ground (arith, e, other))
      ]

  put_block-IsCache :
      (j : Jit N G) (bk : Block N) (cg : G)
      → IsCache j
      → j.n_blocks < 1024
      → length bk.ins ≤ 32
      → IsCache
          (record j { blocks = update j.blocks j.n_blocks bk; n_blocks = j.n_blocks + 1; cg = cg })
  put_block-IsCache j bk cg c room len = record {
    fits = omega arith;
    short = λ i h. elim (ℕ_discrete i j.n_blocks) [
      | yes new ↦ ground (arith, new, len)
      | no old ↦ ground (arith, old, c.short i (omega (arith, old)))
    ];
    named = λ h i e.
        let old = c.named h i e in
        let ne : i ≢ j.n_blocks = λ same. absurd (omega (arith, old.in_cache, same)) in
        record {
          in_cache = omega (arith, old.in_cache);
          own_pc = ground (arith, ne, old.own_pc);
          own_slot = old.own_slot;
        };
  }

  -- A new block at the end of the cache, with the slot of its address.
  insert-IsCache :
      (j : Jit N G) (pc : ℕ) (bk : Block N) (cg : G)
      → IsCache j
      → j.n_blocks < 1024
      → length bk.ins ≤ 32
      → bk.pc_start ≡ pc
      → IsCache (
          install
            (record j {
              blocks = update j.blocks j.n_blocks bk;
              n_blocks = j.n_blocks + 1;
              cg = cg;
            })
            pc
            (at j.n_blocks))
  insert-IsCache j pc bk cg c room len start =
      install-IsCache
        (record j { blocks = update j.blocks j.n_blocks bk; n_blocks = j.n_blocks + 1; cg = cg }) pc
        (at j.n_blocks) (put_block-IsCache j bk cg c room len)
        (λ i e.
          let same : j.n_blocks ≡ i = cc e in (omega (arith, same), ground (arith, same, start)))

module _ {S N G : Type 0} (eng : Engine S N G) where
  open eng use {get_cpu, decode, execute, codegen_emit, run_native, forget}

  length-decode_block : (room cur : ℕ) (s : S) → length (decode_block eng room cur s).0 ≤ room
  unfolding decode_block
  length-decode_block zero cur s = omega arith
  length-decode_block (suc room) cur s = elim (Bool-cases (is_terminator (decode cur s).0.op)) [
    | inl e ↦ rw e (omega arith)
    | inr e ↦
        rw e (
          omega
            (arith, length-decode_block room (add32 cur (decode cur s).0.size) (decode cur s).1))
  ]

  -- The cache that `compile_block` puts the block in: there is room in it.
  ready-IsCache :
      (j : Jit N G)
      → IsCache j
      → IsCache (if leb 1024 j.n_blocks then jit_flush forget j else j)
        × ((if leb 1024 j.n_blocks then jit_flush forget j else j).n_blocks < 1024)
  unfolding jit_flush
  ready-IsCache j c = elim (Bool-cases (leb 1024 j.n_blocks)) [
    | inl e ↦ rw e (flush-IsCache forget j, omega arith)
    | inr e ↦ rw e (c, ground (arith, e))
  ]

  compile_block-IsCache :
      (j : Jit N G) (pc : ℕ) (s : S)
      → IsCache j
      → IsCache (compile_block eng j pc s).1 × (length (compile_block eng j pc s).0.ins ≤ 32)
  unfolding compile_block
  compile_block-IsCache j pc s c =
      let ready = ready-IsCache j c in
      let len = length-decode_block 32 pc s in
      (insert-IsCache _ pc _ _ ready.0 ready.1 len refl, len)

  interpret-le : (is : List Insn) (s : S) → (interpret eng is s).0 ≤ length is
  unfolding interpret
  interpret-le [] s = omega arith
  interpret-le (i ∷ is) s = ground (arith, interpret-le is (execute i (set_pc eng i.pc s)).1)

  -- The counters of steps and of hits are no part of the invariant.
  steps-IsCache :
      (j : Jit N G) (a b : ℕ) → IsCache j → IsCache (record j { native_steps = a; jit_steps = b })
  steps-IsCache j a b c = record {
    fits = c.fits;
    short = c.short;
    named = λ h i e. record {
      in_cache = (c.named h i e).in_cache;
      own_pc = (c.named h i e).own_pc;
      own_slot = (c.named h i e).own_slot;
    };
  }

  run_block-IsCache :
      (bk : Block N) (j : Jit N G) (s : S)
      → IsCache j
      → length bk.ins ≤ 32
      → ((run_block eng bk j s).0 ≤ 32) × IsCache (run_block eng bk j s).1
  unfolding run_block
  run_block-IsCache bk j s c len = by_native (bk.native) refl
    where
      by_native :
          (o : Option N)
          → bk.native ≡ o
          → ((run_block eng bk j s).0 ≤ 32) × IsCache (run_block eng bk j s).1
      by_native none e = rw e (omega (arith, interpret-le bk.ins s), steps-IsCache j _ _ c)
      by_native (some f) e = elim (Bool-cases ((run_native f s).0 && ltb 0 (length bk.ins))) [
        | inl e' ↦ rw (e, e') (len, steps-IsCache j _ _ c)
        | inr e' ↦
            rw (e, e')
              (omega (arith, interpret-le bk.ins (run_native f s).1), steps-IsCache j _ _ c)
      ]

  count_hit-IsCache : (j : Jit N G) (pc : ℕ) → IsCache j → IsCache (count_hit eng j pc)
  unfolding count_hit
  count_hit-IsCache j pc c =
      let marked = install-IsCache j pc counting c (λ i e. absurd (cc e)) in
      record {
        fits = marked.fits;
        short = marked.short;
        named = λ h i e. record {
          in_cache = (marked.named h i e).in_cache;
          own_pc = (marked.named h i e).own_pc;
          own_slot = (marked.named h i e).own_slot;
        };
      }

  -- From a correct cache, `jit_run` runs at most 32 instructions and leaves a correct cache: it
  -- fits its arrays, no block is longer than 32, and each slot with a block names a block of the
  -- cache that starts at the slot's own address.
  pub jit_run-IsCache :
      (j : Jit N G) (s : S) → IsCache j → ((jit_run eng j s).0 ≤ 32) × IsCache (jit_run eng j s).1
  unfolding jit_run
  jit_run-IsCache j s c = by_lookup (lookup j pc) refl
    where
      pc : ℕ
      pc = (get_cpu s).r reg_pc

      by_lookup :
          (o : Option ℕ)
          → lookup j pc ≡ o
          → ((jit_run eng j s).0 ≤ 32) × IsCache (jit_run eng j s).1
      by_lookup (some i) e =
          rw (e, jit_run)
            (run_block-IsCache (j.blocks i) j s c (c.short i (lookup-own j pc i c e).0))
      by_lookup none e =
          let hit = count_hit-IsCache j pc c in
          let made = compile_block-IsCache (count_hit eng j pc) pc s hit in
          elim (Bool-cases (ltb ((count_hit eng j pc).counters (hash pc)) 16)) [
            | inl cold ↦ rw (e, cold, jit_run, if◌then◌else◌) (omega arith, hit)
            | inr hot ↦
                rw (e, hot, jit_run, if◌then◌else◌)
                  (let b = compile_block eng (count_hit eng j pc) pc s in
                    run_block-IsCache b.0 b.1 b.2 made.0 made.1)
          ]
