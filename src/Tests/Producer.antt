-- ===== src/Tests/Producer.antt =====
-- The theorems on the producer at the demo's queue, and at a queue whose end wraps.
use risc_v_computer_zybo.Base.{
  ℕ, ◌+◌, ◌/◌, ◌%◌, ◌≡◌, ◌≢◌, ◌⊎◌, ◌<◌, ◌≤◌, refl, arith, true, none, some, ok, undefined, update,
  Returns,
}
use risc_v_computer_zybo.Memory.{Desc, IsDesc, desc_bytes}
use risc_v_computer_zybo.Commands.{npu_infer_desc}
use risc_v_computer_zybo.Host.{
  World, Host, success, erange, enospc, entry_count, limit_bytes, sync, reset,
}
use risc_v_computer_zybo.Host.Device.{Regs, attached}
use risc_v_computer_zybo.Host.Push.{push, push_ready, submit}
use risc_v_computer_zybo.Host.Push.Refine.{IsReady, Enqueued, push_refines}
use risc_v_computer_zybo.Host.Push.Frame.{push_atomic, push_wraps}
use risc_v_computer_zybo.Host.Reset.{configured, emptied, WasReset, reset_lem, reset_wraps}
use risc_v_computer_zybo.Host.Submit.{sync-submit}

abbrev host_at : ℕ → ℕ → ℕ → ℕ → Host Regs
host_at base size head tail = attached record {
  reg_read = none;
  reg_write = none;
  umem = true;
  umem_bytes = 0x10000;
  cmdq_base_offset = base;
  cmdq_size_bytes = size;
  cached_head = head;
  cached_tail = tail;
}

abbrev world_at : ℕ → ℕ → World Regs
world_at base size = record { ctx = update (update (λ _. 0) 40 base) 41 size; umem = λ a. a % 256 }

abbrev demo_host : Host Regs
demo_host = host_at 0x2000 0x100 0 0

abbrev full_host : Host Regs
full_host = host_at 0x2000 0x100 7 0

abbrev wrapping_host : Host Regs
wrapping_host = host_at 0xFFFFFFE0 0x40 0 0

abbrev demo_world : World Regs
demo_world = world_at 0x2000 0x100

abbrev wrapping_world : World Regs
wrapping_world = world_at 0xFFFFFFE0 0x40

abbrev infer : Desc
infer = npu_infer_desc 0x80 8 0x400 0x420 0x480

infer-IsDesc : IsDesc infer
infer-IsDesc = record {
  opcode_word = omega arith;
  flags_word = omega arith;
  src0_word = omega arith;
  src1_word = omega arith;
  src2_word = omega arith;
  dst0_word = omega arith;
  arg0_word = omega arith;
  arg1_word = omega arith;
}

demo_host-IsReady : IsReady demo_host
unfolding entry_count
demo_host-IsReady = record {
  has_callbacks = λ e. cc;
  in_memory = omega arith;
  memory_word = omega arith;
  one_entry = omega arith;
  head_in = omega arith;
  tail_in = omega arith;
}

push_refines_example :
    Returns (Enqueued demo_host infer demo_world) (push (some demo_host) (some infer) demo_world)
push_refines_example = push_refines demo_host infer demo_world demo_host-IsReady infer-IsDesc

full : push (some full_host) (some infer) demo_world ≡ ok (enospc, some full_host, demo_world)
unfolding push push_ready entry_count
full = refl

push_atomic_example : (some full_host ≡ some full_host) × (demo_world ≡ demo_world)
push_atomic_example = push_atomic (some full_host) (some infer) demo_world full (λ e. cc)

wrapping_hypotheses :
    (0 < entry_count wrapping_host)
    × ((0 + 1) % entry_count wrapping_host ≢ 0)
    × (desc_bytes ≤ limit_bytes wrapping_host)
unfolding entry_count limit_bytes
wrapping_hypotheses = (omega arith, λ e. omega arith, omega arith)

push_wraps_example : push (some wrapping_host) (some infer) wrapping_world ≡ undefined
push_wraps_example =
    push_wraps wrapping_host infer wrapping_world (λ e. cc) (omega arith) wrapping_hypotheses.0
      wrapping_hypotheses.1 (omega arith) (omega arith) wrapping_hypotheses.2 (omega arith)

reset_lem_example :
    ((w' : World Regs) × (reset (some (attached demo_host)) demo_world
        ≡ ok (success, some (emptied demo_host demo_world), w'))
      × (0x2000 + 0x100 ≤ 0x10000)
      × WasReset (configured demo_host demo_world) demo_world w'
      × IsReady (emptied demo_host demo_world))
    ⊎ ((reset (some (attached demo_host)) demo_world
          ≡ ok (erange, some (configured demo_host demo_world), demo_world))
        × (0x10000 < 0x2000 + 0x100))
reset_lem_example = reset_lem demo_host demo_world (omega arith) (omega arith) (omega arith)

reset_wraps_example : reset (some (attached wrapping_host)) wrapping_world ≡ undefined
reset_wraps_example =
    reset_wraps wrapping_host wrapping_world (omega arith) (omega arith) (omega arith)

sync-submit_example :
    let (code, host, w') = submit (some (attached demo_host)) 1 demo_world in
    (code ≡ success)
    × (w'.ctx (0xa8 / 4) ≡ 0)
    × (w'.ctx (0xb0 / 4) ≡ 1)
    × (w'.umem ≡ demo_world.umem)
    × ((i : ℕ) → i ≢ 0xa8 / 4 → i ≢ 0xb0 / 4 → w'.ctx i ≡ demo_world.ctx i)
    × (sync host w' ≡ (success, some (attached demo_host), w'))
sync-submit_example =
    sync-submit demo_host 1 demo_world (record { base = refl; size = refl; tail = refl })
