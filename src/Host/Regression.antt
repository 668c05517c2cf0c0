-- ===== src/Host/Regression.antt =====
-- `main` of linux/uio/accel_cmdq_host_test.c: the producer on the register file.
use risc_v_computer_zybo.Base.{
  ℕ, ◌/◌, Bool, ◌&&◌, Option, none, some, Outcome, ok, ◌>>=◌, ◌==◌, if◌then◌else◌, true, update,
}
use risc_v_computer_zybo.Memory.{Desc, load_desc}
use risc_v_computer_zybo.Commands.{cmd_npu_infer, cmd_gpu_clear, cmd_gpu_draw_tri}
use risc_v_computer_zybo.Registers.{Reg, offset}
use risc_v_computer_zybo.Host.{World, Host, success, Ret, init, reset, desc}
use risc_v_computer_zybo.Host.Device.{Regs, fake_reg_read, fake_reg_write}
use risc_v_computer_zybo.Host.Push.{push_gpu_clear, push_gpu_draw_tri, push_npu_infer, submit}

-- `if (call != 0) return 1;` and what comes after it.
abbrev unless_failed : Ret Regs → (Option (Host Regs) → World Regs → Outcome ℕ) → Outcome ℕ
unless_failed (success, host, w) after = after host w
unless_failed (_, _, _) after = ok 1

-- The platform: zero but for the ring's base and size.
abbrev pub fake_platform : World Regs
unfolding offset
fake_platform = record {
  ctx =
      update (update (λ _. 0) (offset Reg.umem_cmdq_base / 4) 0x2000)
        (offset Reg.umem_cmdq_size / 4) 0x0100;
  umem = λ _. 0;
}

-- The tests of the three descriptors.
abbrev is_clear : Desc → Bool
is_clear d = d.opcode == cmd_gpu_clear && d.dst0 == 0x1200

abbrev is_draw : Desc → Bool
is_draw d = d.opcode == cmd_gpu_draw_tri && d.src1 == 0x020A

abbrev is_infer : Desc → Bool
is_infer d =
    d.opcode == cmd_npu_infer
    && d.flags == 0x80
    && d.src0 == 0x400
    && d.src1 == 0x420
    && d.dst0 == 0x480

-- What is looked at once the commands were submitted.
unfoldable pub check_submitted : Host Regs → World Regs → Outcome ℕ
check_submitted h w = elim (desc h 0) [
  | none ↦ ok 1
  | some at0 ↦ elim (desc h 1) [
    | none ↦ ok 1
    | some at1 ↦ elim (desc h 2) [
      | none ↦ ok 1
      | some at2 ↦ ok (
          if (w.ctx (offset Reg.umem_cmdq_head / 4) == 3
              && w.ctx (offset Reg.umem_cmdq_doorbell / 4) == 3)
            && is_clear (load_desc w.umem at0)
            && is_draw (load_desc w.umem at1)
            && is_infer (load_desc w.umem at2)
          then 0
          else 1)
    ]
  ]
]

abbrev check_host : Option (Host Regs) → World Regs → Outcome ℕ
check_host none w = ok 1
check_host (some h) w = check_submitted h w

-- `main`, its exit code. `h` is the struct on the stack, which is not initialised.
unfoldable pub host_test : Host Regs → Outcome ℕ
host_test h =
    unless_failed
      (init (some h) (some fake_reg_read) (some fake_reg_write) true 0x10000 fake_platform)
      λ h0 w0. do
        r1 ← reset h0 w0
        unless_failed r1 λ h1 w1. do
          r2 ← push_gpu_clear h1 0x1200 0 w1
          unless_failed r2 λ h2 w2. do
            r3 ← push_gpu_draw_tri h2 0x0202 0x020A 0x0A02 0x1200 w2
            unless_failed r3 λ h3 w3. do
              r4 ← push_npu_infer h3 0x80 8 0x400 0x420 0x480 w3
              unless_failed r4 λ h4 w4. unless_failed (submit h4 3 w4) check_host
