-- ===== src/Tests/Linked.antt =====
-- The producer and the device together at the demo's queue, and the producer's regression.
use risc_v_computer_zybo.Base.{ok, ◌≡◌, refl, arith, true, none, some, Returns}
use risc_v_computer_zybo.Memory.{load32, load_desc, store_desc, store32, clear}
use risc_v_computer_zybo.Registers.{offset}
use risc_v_computer_zybo.Host.{
  World, Host, success, entry_count, limit_bytes as host_limit, desc_mut, desc, sync, init, reset,
}
use risc_v_computer_zybo.Host.Device.{Regs, fake_reg_read, fake_reg_write}
use risc_v_computer_zybo.Host.Push.{
  push, push_ready, push_gpu_clear, push_gpu_draw_tri, push_npu_infer, submit,
}
use risc_v_computer_zybo.Host.Push.Refine.{IsReady}
use risc_v_computer_zybo.Host.Regression.{check_submitted, host_test}
use risc_v_computer_zybo.Link.{Device, linked}
use risc_v_computer_zybo.Link.Drained.{Holds, Consumed, submit-Consumed}
use risc_v_computer_zybo.Tests.Demo.{demo_device, demo_memory}
use risc_v_computer_zybo.Tests.Service.{is_output, demo_device-IsServiceable}

-- The producer after three pushes to the device of the demo.
abbrev pushed_host : Host Device
pushed_host = linked record {
  reg_read = none;
  reg_write = none;
  umem = true;
  umem_bytes = 0x10000;
  cmdq_base_offset = 0x2000;
  cmdq_size_bytes = 0x100;
  cached_head = 3;
  cached_tail = 0;
}

abbrev linked_world : World Device
linked_world = record { ctx = ok demo_device; umem = demo_memory }

pushed_host-IsReady : IsReady pushed_host
unfolding entry_count
pushed_host-IsReady = record {
  has_callbacks = λ e. ground arith;
  in_memory = omega arith;
  memory_word = omega arith;
  one_entry = omega arith;
  head_in = omega arith;
  tail_in = omega arith;
}

pushed_host-Holds : Holds pushed_host linked_world demo_device
pushed_host-Holds = record {
  device = refl;
  base = refl;
  size = refl;
  tail = refl;
  enabled = refl;
  counting = record { processed_word = omega arith; errors_word = omega arith };
}

submit-Consumed_example :
    let (code, _, w') = submit (some (linked pushed_host)) 3 linked_world in
    (code ≡ success) × Returns (Consumed pushed_host 3 linked_world demo_device) w'.ctx
submit-Consumed_example =
    submit-Consumed is_output pushed_host 3 linked_world demo_device pushed_host-IsReady
      pushed_host-Holds demo_device-IsServiceable (λ e. omega arith)

-- The regression passes, whatever the struct held before.
host_test_lem : (h : Host Regs) → host_test h ≡ ok 0
unfolding host_test check_submitted init sync reset push push_ready push_gpu_clear push_gpu_draw_tri
    push_npu_infer submit desc desc_mut entry_count host_limit fake_reg_read fake_reg_write offset
    load_desc load32 store_desc store32 clear
host_test_lem h = refl
