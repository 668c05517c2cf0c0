-- ===== src/Emulator.antt =====
-- The accelerator emulator of linux/uio/accel_mmio_demo.c: its state and `emu_init`.
-- `accel_emulator_t` is grouped by unit, so `umem_cmdq_head` is the field `head` of `cmdq`. An array
-- is a function of the index.
pub mod Umem
pub mod Npu
pub mod Gpu
pub mod Cmdq
pub mod Regs
pub mod Typed
use risc_v_computer_zybo.Base.{ℕ, ◌^◌, Bool, true, false}
use risc_v_computer_zybo.Base.Int.{ℤ, pos}
use risc_v_computer_zybo.Memory.{Mem}

pub record NpuState : Type 0 where
  pub model_id : ℕ
  pub seq_length : ℕ
  pub input0 : ℕ
  pub input1 : ℕ
  pub weight0_a : ℕ
  pub weight0_b : ℕ
  pub weight1_a : ℕ
  pub weight1_b : ℕ
  pub bias0 : ℕ
  pub bias1 : ℕ
  pub busy : Bool
  pub done_sticky : Bool
  pub status_word : ℕ
  pub logit0 : ℤ
  pub logit1 : ℤ
  pub hidden0 : ℤ
  pub hidden1 : ℤ
  pub class_id : ℕ

pub record UmemState : Type 0 where
  pub ctrl : ℕ
  pub base_addr : ℕ
  pub size_bytes : ℕ
  pub npu_input_offset : ℕ
  pub npu_weight_offset : ℕ
  pub npu_output_offset : ℕ
  pub gpu_fb_offset : ℕ
  pub gpu_fb_pitch : ℕ

pub record CmdqState : Type 0 where
  pub base_offset : ℕ
  pub size_bytes : ℕ
  pub head : ℕ
  pub tail : ℕ
  pub doorbell : ℕ
  pub status : ℕ
  pub processed : ℕ
  pub last_offset : ℕ
  pub last_sequence : ℕ
  pub last_slot : ℕ
  pub fetch_status : ℕ
  pub last_araddr : ℕ
  pub last_beat_count : ℕ
  pub last_desc_word0 : ℕ
  pub dispatch_status : ℕ
  pub dispatch_opcode : ℕ
  pub dispatch_npu_count : ℕ
  pub dispatch_gpu_count : ℕ
  pub dispatch_error_count : ℕ
  pub npu_exec_count : ℕ
  pub npu_exec_last_model_id : ℕ
  pub npu_exec_error : Bool
  pub npu_exec_status : ℕ
  pub npu_exec_input_offset : ℕ
  pub npu_exec_output_offset : ℕ

pub record GpuState : Type 0 where
  pub cmd_opcode : ℕ
  pub vertex0 : ℕ
  pub vertex1 : ℕ
  pub vertex2 : ℕ
  pub clear_value : ℕ
  pub fb_row_select : ℕ
  pub busy : Bool
  pub done_sticky : Bool
  pub triangles : ℕ
  pub frame_count : ℕ
  pub raster_pixels : ℕ
  pub last_area2 : ℤ
  pub last_bbox : ℕ
  pub framebuffer : ℕ → ℕ

-- `accel_emulator_t`
pub record Emu : Type 0 where
  pub control_shadow : ℕ
  pub irq_enable : ℕ
  pub npu : NpuState
  pub umem : UmemState
  pub cmdq : CmdqState
  pub gpu : GpuState
  pub unified_mem : Mem

-- ACCEL_UMEM_BYTES
abbrev pub umem_bytes : ℕ
umem_bytes = 0x10000

-- GPU_FB_ROWS and GPU_FB_COLS
abbrev pub fb_rows : ℕ
fb_rows = 32

abbrev pub fb_cols : ℕ
fb_cols = 32

-- NPU_MODEL_*
abbrev pub npu_model_builtin_1 : ℕ
npu_model_builtin_1 = 0x01

abbrev pub npu_model_builtin_2 : ℕ
npu_model_builtin_2 = 0x02

abbrev pub npu_model_runtime : ℕ
npu_model_runtime = 0x80

abbrev pub npu_model_runtime_mlp : ℕ
npu_model_runtime_mlp = 0x81

-- GPU_CMD_*
abbrev pub gpu_cmd_clear : ℕ
gpu_cmd_clear = 1

abbrev pub gpu_cmd_draw_tri : ℕ
gpu_cmd_draw_tri = 2

-- Bit 0, 1 and 2 of CMDQ_STATUS_*, EMU_FETCH_STATUS_*, EMU_DISPATCH_STATUS_* and NPU_CMD_EXEC_*.
-- CMDQ_STATUS_EMPTY has the value of the others' IDLE.
abbrev pub status_busy : ℕ
status_busy = 1

abbrev pub status_error : ℕ
status_error = 2

abbrev pub status_idle : ℕ
status_idle = 4

-- `memset(emu, 0, sizeof(*emu))`
abbrev pub zeroed : Emu
zeroed = record {
  control_shadow = 0;
  irq_enable = 0;
  npu = record {
    model_id = 0;
    seq_length = 0;
    input0 = 0;
    input1 = 0;
    weight0_a = 0;
    weight0_b = 0;
    weight1_a = 0;
    weight1_b = 0;
    bias0 = 0;
    bias1 = 0;
    busy = false;
    done_sticky = false;
    status_word = 0;
    logit0 = pos 0;
    logit1 = pos 0;
    hidden0 = pos 0;
    hidden1 = pos 0;
    class_id = 0;
  };
  umem = record {
    ctrl = 0;
    base_addr = 0;
    size_bytes = 0;
    npu_input_offset = 0;
    npu_weight_offset = 0;
    npu_output_offset = 0;
    gpu_fb_offset = 0;
    gpu_fb_pitch = 0;
  };
  cmdq = record {
    base_offset = 0;
    size_bytes = 0;
    head = 0;
    tail = 0;
    doorbell = 0;
    status = 0;
    processed = 0;
    last_offset = 0;
    last_sequence = 0;
    last_slot = 0;
    fetch_status = 0;
    last_araddr = 0;
    last_beat_count = 0;
    last_desc_word0 = 0;
    dispatch_status = 0;
    dispatch_opcode = 0;
    dispatch_npu_count = 0;
    dispatch_gpu_count = 0;
    dispatch_error_count = 0;
    npu_exec_count = 0;
    npu_exec_last_model_id = 0;
    npu_exec_error = false;
    npu_exec_status = 0;
    npu_exec_input_offset = 0;
    npu_exec_output_offset = 0;
  };
  gpu = record {
    cmd_opcode = 0;
    vertex0 = 0;
    vertex1 = 0;
    vertex2 = 0;
    clear_value = 0;
    fb_row_select = 0;
    busy = false;
    done_sticky = false;
    triangles = 0;
    frame_count = 0;
    raster_pixels = 0;
    last_area2 = pos 0;
    last_bbox = 0;
    framebuffer = λ _. 0;
  };
  unified_mem = λ _. 0;
}

-- `emu_init`
abbrev pub init : Emu
init = record zeroed {
  npu = record (zeroed.npu) {
    model_id = npu_model_builtin_1;
    seq_length = 8;
    input0 = 0x04030201;
    input1 = 0x00000000;
    weight0_a = 0x01010101;
    weight0_b = 0xFFFFFFFF;
    weight1_a = 0xFFFFFFFF;
    weight1_b = 0x01010101;
    bias0 = 0;
    bias1 = 0;
  };
  umem = record (zeroed.umem) {
    base_addr = 0x10000000;
    size_bytes = umem_bytes;
    npu_input_offset = 0x0000;
    npu_weight_offset = 0x0100;
    npu_output_offset = 0x0200;
    gpu_fb_offset = 0x1000;
    gpu_fb_pitch = 4;
  };
  cmdq = record (zeroed.cmdq) {
    base_offset = 0x2000;
    size_bytes = 0x0100;
    status = status_idle;
    fetch_status = status_idle;
    dispatch_status = status_idle;
    npu_exec_status = status_idle;
  };
  gpu = record (zeroed.gpu) {
    cmd_opcode = gpu_cmd_draw_tri;
    vertex0 = 0x0202;
    vertex1 = 0x020A;
    vertex2 = 0x0A02;
    clear_value = 0;
  };
}
