-- ===== src/Emulator/Cmdq/Slots.antt =====
-- What a command leaves of the slots of its queue in emu_cmdq_process.
use risc_v_computer_zybo.Base.{
  ℕ, ◌+◌, ◌*◌, ◌%◌, ◌≤◌, ◌<◌, ◌≡◌, ◌≢◌, ◌∙◌, ◌⊎◌, inl, inr, refl, ap, sym, arith, Bool, false, ◌==◌,
  Bool-cases, ==_iff,
}
use risc_v_computer_zybo.Memory.{Mem, Desc, load32, load_desc, desc_bytes}
use risc_v_computer_zybo.Memory.Laws.{load32-congr}
use risc_v_computer_zybo.Queue.{slot_at}
use risc_v_computer_zybo.Emulator.{UmemState}
use risc_v_computer_zybo.Emulator.Cmdq.Runnable.{KeptWeights, IsRunnable, Kept}

-- Two descriptors with the same command: the upper bits of their flags may differ.
pub record SameDesc (d d' : Desc) : Type 0 where
  pub opcode : d'.opcode ≡ d.opcode
  model_bits : d'.flags % 256 ≡ d.flags % 256
  src0 : d'.src0 ≡ d.src0
  src1 : d'.src1 ≡ d.src1
  dst0 : d'.dst0 ≡ d.dst0

module _ (is_output : ℕ → Bool) (lo n s0 : ℕ) (m m' : Mem) (small : s0 < n)
    (queue_kept : (a : ℕ) → lo ≤ a → a < lo + n * desc_bytes → is_output a ≡ false)
    (k : Kept is_output lo (lo + n * desc_bytes) (slot_at lo s0) m m') where
  KeptWeights-Kept :
      (u : UmemState) (at : ℕ)
      → KeptWeights is_output lo (lo + n * desc_bytes) u m at
      → KeptWeights is_output lo (lo + n * desc_bytes) u m' at
  KeptWeights-Kept u at w = record {
    weights_in = w.weights_in;
    bias0 = rw (load32-congr m m' (at + 16) (same 16 (omega arith) (omega arith))) w.bias0;
    bias1 = rw (load32-congr m m' (at + 20) (same 20 (omega arith) (omega arith))) w.bias1;
    no_output = w.no_output;
    no_desc = w.no_desc;
  }
    where
      same : (o : ℕ) → 16 ≤ o → o + 4 ≤ 24 → (a : ℕ) → at + o ≤ a → a < at + o + 4 → m' a ≡ m a
      same o from to a h q =
          k.others a (w.no_output a (omega arith) (omega arith))
            (omega (arith, w.no_desc a (omega arith) (omega arith)))

  slot_word :
      (s o : ℕ)
      → s < n
      → o + 4 ≤ 32
      → (s ≢ s0) ⊎ (o ≢ 4)
      → o % 4 ≡ 0
      → load32 m' (slot_at lo s + o) ≡ load32 m (slot_at lo s + o)
  slot_word s o h q other four =
      load32-congr m m' (slot_at lo s + o)
        λ a from to. k.others a (queue_kept a (omega arith) (omega arith)) (ground arith)

  pub slot-SameDesc :
      (s : ℕ) → s < n → SameDesc (load_desc m (slot_at lo s)) (load_desc m' (slot_at lo s))
  unfolding load_desc
  slot-SameDesc s h = record {
    opcode = grind (arith, slot_word s 0 h (omega arith) (inr (λ e. omega arith)) refl);
    model_bits = elim (Bool-cases (s == s0)) [
      | inl here ↦ let same : s ≡ s0 = (==_iff s s0).0 here in rw same k.model_bits
      | inr away ↦ ap (λ v. v % 256) (slot_word s 4 h (omega arith) (inl (λ e. ground arith)) refl)
    ];
    src0 = slot_word s 8 h (omega arith) (inr (λ e. omega arith)) refl;
    src1 = slot_word s 12 h (omega arith) (inr (λ e. omega arith)) refl;
    dst0 = slot_word s 20 h (omega arith) (inr (λ e. omega arith)) refl;
  }

  -- Another slot keeps its whole descriptor.
  pub other_slot :
      (s : ℕ) → s < n → s ≢ s0 → load_desc m' (slot_at lo s) ≡ load_desc m (slot_at lo s)
  unfolding load_desc
  other_slot s h ne = ground (
    arith,
    slot_word s 0 h (omega arith) (inl ne) refl,
    slot_word s 4 h (omega arith) (inl ne) refl,
    slot_word s 8 h (omega arith) (inl ne) refl,
    slot_word s 12 h (omega arith) (inl ne) refl,
    slot_word s 16 h (omega arith) (inl ne) refl,
    slot_word s 20 h (omega arith) (inl ne) refl,
    slot_word s 24 h (omega arith) (inl ne) refl,
    slot_word s 28 h (omega arith) (inl ne) refl,
  )

  pub IsRunnable-Kept :
      (u : UmemState) (model : ℕ) (d d' : Desc)
      → SameDesc d d'
      → IsRunnable is_output lo (lo + n * desc_bytes) u model m d
      → IsRunnable is_output lo (lo + n * desc_bytes) u model m' d'
  IsRunnable-Kept u model d d' q r = record {
    infer = λ h.
        let f = r.infer (sym q.opcode ∙ h) in
        record {
          input_in = rw q.src0 f.input_in;
          output_in = rw q.dst0 f.output_in;
          output_at = rw q.dst0 f.output_at;
          weights = rw (q.model_bits, q.src1) (λ g. KeptWeights-Kept u d.src1 (f.weights g));
        };
    clear = λ h.
        let f = r.clear (sym q.opcode ∙ h) in
        record { frame_in = rw q.dst0 f.frame_in; frame_at = rw q.dst0 f.frame_at };
    draw = λ h.
        let f = r.draw (sym q.opcode ∙ h) in
        record { frame_in = rw q.dst0 f.frame_in; frame_at = rw q.dst0 f.frame_at };
  }
