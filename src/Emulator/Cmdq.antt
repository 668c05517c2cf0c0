-- ===== src/Emulator/Cmdq.antt =====
-- The emulated command processor: `emu_cmdq_entry_count`, `emu_cmdq_desc_ptr`,
-- `emu_cmdq_refresh_status`, `emu_pack_npu_exec_status`, `emu_cmdq_execute_desc` and
-- `emu_cmdq_process` of linux/uio/accel_mmio_demo.c.
pub mod Restore
pub mod Process
pub mod Runnable
pub mod Tally
pub mod Bounds
pub mod Slots
pub mod Total
pub mod Served
pub mod Executes
use risc_v_computer_zybo.Base.{
  ℕ, zero, suc, ◌+◌, ◌-◌, ◌*◌, ◌/◌, ◌%◌, ◌^◌, ◌<◌, Bool, true, false, not, ◌&&◌, ◌||◌, Outcome, ok,
  exited, undefined, ◌>>=◌, ltb, ◌==◌, if◌then◌else◌,
}
use risc_v_computer_zybo.Word.{word, add32, sub32, mul32, set_bit}
use risc_v_computer_zybo.Memory.{Mem, Desc, load_desc, store32, desc_bytes}
use risc_v_computer_zybo.Commands.{cmd_nop, cmd_npu_infer, cmd_gpu_clear, cmd_gpu_draw_tri}
use risc_v_computer_zybo.Emulator.{
  Emu, NpuState, UmemState, CmdqState, GpuState, umem_bytes, gpu_cmd_clear, gpu_cmd_draw_tri,
  status_busy, status_error, status_idle,
}
use risc_v_computer_zybo.Emulator.Umem.{limit_bytes, bit_enable, bit_npu_use_buf, bit_gpu_use_buf}
use risc_v_computer_zybo.Emulator.Npu.{run_npu}
use risc_v_computer_zybo.Emulator.Gpu.{run_gpu_clear, run_gpu_draw}

unfoldable pub entry_count : CmdqState → ℕ
entry_count q =
    let bytes = if ltb q.size_bytes desc_bytes then desc_bytes else q.size_bytes in
    let whole = bytes - bytes % desc_bytes in
    let used = if whole == 0 then desc_bytes else whole in used / desc_bytes

-- The offset of the pointer. The sum of the bound test is a uint32_t and wraps; a pointer past the
-- array is undefined.
unfoldable pub desc_ptr : Emu → ℕ → Outcome ℕ
desc_ptr e slot =
    let at = add32 e.cmdq.base_offset (mul32 (slot % entry_count e.cmdq) desc_bytes) in
    if ltb (limit_bytes e) (add32 at desc_bytes)
    then exited
    else if ltb umem_bytes (at + desc_bytes)
    then undefined
    else ok at

-- The bits of the status word are disjoint, so `|=` is a sum.
unfoldable pub refresh_status : Bool → CmdqState → CmdqState
refresh_status error_seen q = record q {
  status =
      (if error_seen then status_error else 0)
      + (if q.head == q.tail then status_idle else 0)
      + q.processed % 2 ^ 16 * 2 ^ 16;
}

unfoldable pub pack_npu_exec_status : CmdqState → Bool → ℕ
pack_npu_exec_status q busy =
    q.npu_exec_count * 2 ^ 16
    + q.npu_exec_last_model_id * 2 ^ 8
    + ((if busy then status_busy else 0)
        + (if q.npu_exec_error then status_error else 0)
        + (if busy then 0 else status_idle))

abbrev pub set_cmdq : Emu → CmdqState → Emu
set_cmdq e q = record e { cmdq = q }

-- case ACCEL_UMEM_CMD_NPU_INFER: the state in which the inference runs.
abbrev pub npu_prepared : Desc → Emu → Emu
npu_prepared d e =
    let model = d.flags % 256 in
    let model_id = if model == 0 then e.npu.model_id else model in
    let started = record (e.cmdq) {
      npu_exec_input_offset = d.src0;
      npu_exec_output_offset = d.dst0;
      npu_exec_last_model_id = model_id;
    } in
    record e {
      umem = record (e.umem) {
        ctrl = set_bit (set_bit e.umem.ctrl bit_enable) bit_npu_use_buf;
        npu_input_offset = d.src0;
        npu_weight_offset = d.src1;
        npu_output_offset = d.dst0;
      };
      npu = record (e.npu) {
        model_id = model_id;
        seq_length = if d.arg0 == 0 then 8 else d.arg0 % 2 ^ 16;
      };
      cmdq = record started {
        npu_exec_status = pack_npu_exec_status started true;
        npu_exec_count = (started.npu_exec_count + 1) % 2 ^ 16;
      };
    }

unfoldable pub execute_npu_infer : Desc → Emu → Outcome Emu
execute_npu_infer d e = do
  ran ← run_npu (npu_prepared d e)
  ok (
      set_cmdq ran (record (ran.cmdq) {
        npu_exec_status = pack_npu_exec_status ran.cmdq false;
        dispatch_npu_count = add32 ran.cmdq.dispatch_npu_count 1;
        dispatch_status = status_idle;
      }))

-- What both GPU commands set up and count.
abbrev pub gpu_target : Desc → UmemState → UmemState
gpu_target d u = record u {
  ctrl = set_bit (set_bit u.ctrl bit_enable) bit_gpu_use_buf;
  gpu_fb_offset = if d.dst0 == 0 then u.gpu_fb_offset else d.dst0;
}

abbrev pub gpu_counted : Emu → Emu
gpu_counted e = set_cmdq e (record (e.cmdq) {
  dispatch_gpu_count = add32 e.cmdq.dispatch_gpu_count 1;
  dispatch_status = status_idle;
})

-- case ACCEL_UMEM_CMD_GPU_CLEAR
abbrev pub clear_prepared : Desc → Emu → Emu
clear_prepared d e = record e {
  umem = gpu_target d e.umem;
  gpu = record (e.gpu) { cmd_opcode = gpu_cmd_clear; clear_value = d.arg0 % 256 };
}

unfoldable pub execute_gpu_clear : Desc → Emu → Outcome Emu
execute_gpu_clear d e = do ran ← run_gpu_clear (clear_prepared d e); ok (gpu_counted ran)

-- case ACCEL_UMEM_CMD_GPU_DRAW_TRI
abbrev pub draw_prepared : Desc → Emu → Emu
draw_prepared d e = record e {
  umem = gpu_target d e.umem;
  gpu = record (e.gpu) {
    cmd_opcode = gpu_cmd_draw_tri;
    vertex0 = d.src0 % 2 ^ 16;
    vertex1 = d.src1 % 2 ^ 16;
    vertex2 = d.src2 % 2 ^ 16;
  };
}

unfoldable pub execute_gpu_draw_tri : Desc → Emu → Outcome Emu
execute_gpu_draw_tri d e = do ran ← run_gpu_draw (draw_prepared d e); ok (gpu_counted ran)

abbrev pub succeed : Outcome Emu → Outcome (Emu × Bool)
succeed m = m >>= λ ran. ok (ran, true)

-- The `switch` on the opcode; the Boolean is `ok`.
unfoldable pub dispatch : Desc → Emu → Outcome (Emu × Bool)
dispatch d e =
    if d.opcode == cmd_nop
    then ok (set_cmdq e (record (e.cmdq) { dispatch_status = status_idle }), true)
    else if d.opcode == cmd_npu_infer
    then succeed (execute_npu_infer d e)
    else if d.opcode == cmd_gpu_clear
    then succeed (execute_gpu_clear d e)
    else if d.opcode == cmd_gpu_draw_tri
    then succeed (execute_gpu_draw_tri d e)
    else ok (
      set_cmdq e (record (e.cmdq) {
        dispatch_error_count = add32 e.cmdq.dispatch_error_count 1;
        dispatch_status = status_error;
      }),
      false,
    )

-- `desc->flags` once the command has run: the model bits, DONE and, on failure, ERROR.
abbrev pub done_flags : ℕ → Bool → ℕ
done_flags flags good = flags % 256 + 2 ^ 31 + (if good then 0 else 2 ^ 30)

-- What the command changed of the configuration is put back as it was in `old`.
abbrev pub restore : Emu → Emu → Emu
restore old e = record e {
  umem = record (e.umem) {
    ctrl = old.umem.ctrl;
    npu_input_offset = old.umem.npu_input_offset;
    npu_weight_offset = old.umem.npu_weight_offset;
    npu_output_offset = old.umem.npu_output_offset;
    gpu_fb_offset = old.umem.gpu_fb_offset;
  };
  npu = record (e.npu) { model_id = old.npu.model_id; seq_length = old.npu.seq_length };
  gpu = record (e.gpu) {
    cmd_opcode = old.gpu.cmd_opcode;
    vertex0 = old.gpu.vertex0;
    vertex1 = old.gpu.vertex1;
    vertex2 = old.gpu.vertex2;
    clear_value = old.gpu.clear_value;
  };
}

abbrev pub dispatching : Desc → Emu → Emu
dispatching d e =
    set_cmdq e (record (e.cmdq) { dispatch_status = status_busy; dispatch_opcode = d.opcode })

-- The descriptor at `p` is read before the command runs: the code reads no field of it afterwards.
unfoldable pub execute_desc : Emu → ℕ → Outcome (Emu × Bool)
execute_desc e p = do
  let d = load_desc e.unified_mem p
  (ran, good) ← dispatch d (dispatching d e)
  let flagged = store32 ran.unified_mem (p + 4) (done_flags d.flags good)
  ok (restore e (record ran { unified_mem = flagged }), good)

-- The bookkeeping of one round of `emu_cmdq_process` before the command runs.
abbrev pub fetch : ℕ → ℕ → Emu → Emu
fetch n p e =
    let slot = e.cmdq.tail % n % 2 ^ 16 in
    let at = add32 e.cmdq.base_offset (mul32 slot desc_bytes) in
    set_cmdq e (record (e.cmdq) {
      last_slot = slot;
      last_offset = at;
      last_sequence = e.cmdq.processed;
      last_araddr = add32 e.umem.base_addr at;
      last_desc_word0 = (load_desc e.unified_mem p).opcode;
      last_beat_count = 8;
    })

-- And after it.
abbrev pub retire : ℕ → Bool → Emu → Emu
retire n good e = set_cmdq e (record (e.cmdq) {
  fetch_status = if good then status_idle else status_error;
  tail = add32 e.cmdq.tail 1 % n;
  processed = add32 e.cmdq.processed 1;
})

unfoldable pub process_one : ℕ → Bool → Emu → Outcome (Emu × Bool)
process_one n error_seen e = do
  p ← desc_ptr e e.cmdq.tail
  (ran, good) ← execute_desc (fetch n p e) p
  ok (retire n good ran, error_seen || not good)

-- `while (tail != head && safety != 0)`, on `safety`; the Boolean is `error_seen`.
unfoldable pub process_loop : ℕ → ℕ → Bool → Emu → Outcome (Emu × Bool)
process_loop zero n error_seen e = ok (e, error_seen)
process_loop (suc safety) n error_seen e =
    let rest = process_one n error_seen e >>= λ (e', seen). process_loop safety n seen e' in
    if e.cmdq.tail == e.cmdq.head then ok (e, error_seen) else rest

abbrev pub start_processing : Emu → Emu
start_processing e = set_cmdq e (record (e.cmdq) {
  status = e.cmdq.processed % 2 ^ 16 * 2 ^ 16 + status_busy;
  fetch_status = if e.cmdq.head == e.cmdq.tail then status_idle else status_busy;
  last_beat_count = 0;
})

unfoldable pub finish_processing : Emu → Bool → Emu
finish_processing e error_seen =
    if e.cmdq.tail == e.cmdq.head
    then set_cmdq e (refresh_status error_seen e.cmdq)
    else set_cmdq e (refresh_status true (record (e.cmdq) { fetch_status = status_error }))

unfoldable pub process : Emu → Outcome Emu
process e = do
  let n = entry_count e.cmdq
  (e', error_seen) ← process_loop n n false (start_processing e)
  ok (finish_processing e' error_seen)
