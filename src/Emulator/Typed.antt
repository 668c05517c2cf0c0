-- ===== src/Emulator/Typed.antt =====
-- The integer fields of `accel_emulator_t` of linux/uio/accel_mmio_demo.c, each in its C type,
-- and the row that is selected, the interrupt enables and the class in the narrower ranges that the
-- code keeps them in.
pub mod Npu
pub mod Gpu
pub mod Cmdq
pub mod Regs
pub mod Reached
use risc_v_computer_zybo.Base.{ℕ, ◌+◌, ◌*◌, ◌^◌, ◌<◌, arith, Ensures, >>=-Ensures}
use risc_v_computer_zybo.Word.{word, set_bit, IsInt32}
use risc_v_computer_zybo.Memory.{Mem, load32, store32, load_desc, IsDesc}
use risc_v_computer_zybo.Emulator.{Emu, NpuState, UmemState, CmdqState, GpuState, fb_rows, init}
use risc_v_computer_zybo.Emulator.Umem.{read32, write32}

pub record NpuTyped (n : NpuState) : Type 0 where
  pub model_id_byte : n.model_id < 2 ^ 8
  pub seq_length_half : n.seq_length < 2 ^ 16
  pub input0_word : n.input0 < word
  pub input1_word : n.input1 < word
  pub weight0_a_word : n.weight0_a < word
  pub weight0_b_word : n.weight0_b < word
  pub weight1_a_word : n.weight1_a < word
  pub weight1_b_word : n.weight1_b < word
  pub bias0_word : n.bias0 < word
  pub bias1_word : n.bias1 < word
  pub status_word_word : n.status_word < word
  pub logit0_int32 : IsInt32 n.logit0
  pub logit1_int32 : IsInt32 n.logit1
  pub hidden0_int32 : IsInt32 n.hidden0
  pub hidden1_int32 : IsInt32 n.hidden1
  pub class_id_bit : n.class_id < 2

pub record UmemTyped (u : UmemState) : Type 0 where
  pub ctrl_word : u.ctrl < word
  pub base_addr_word : u.base_addr < word
  pub size_bytes_word : u.size_bytes < word
  pub npu_input_offset_word : u.npu_input_offset < word
  pub npu_weight_offset_word : u.npu_weight_offset < word
  pub npu_output_offset_word : u.npu_output_offset < word
  pub gpu_fb_offset_word : u.gpu_fb_offset < word
  pub gpu_fb_pitch_word : u.gpu_fb_pitch < word

pub record CmdqTyped (q : CmdqState) : Type 0 where
  pub base_offset_word : q.base_offset < word
  pub size_bytes_word : q.size_bytes < word
  pub head_word : q.head < word
  pub tail_word : q.tail < word
  pub doorbell_word : q.doorbell < word
  pub status_word : q.status < word
  pub processed_word : q.processed < word
  pub last_offset_word : q.last_offset < word
  pub last_sequence_word : q.last_sequence < word
  pub last_slot_half : q.last_slot < 2 ^ 16
  pub fetch_status_word : q.fetch_status < word
  pub last_araddr_word : q.last_araddr < word
  pub last_beat_count_word : q.last_beat_count < word
  pub last_desc_word0_word : q.last_desc_word0 < word
  pub dispatch_status_word : q.dispatch_status < word
  pub dispatch_opcode_word : q.dispatch_opcode < word
  pub dispatch_npu_count_word : q.dispatch_npu_count < word
  pub dispatch_gpu_count_word : q.dispatch_gpu_count < word
  pub dispatch_error_count_word : q.dispatch_error_count < word
  pub npu_exec_count_half : q.npu_exec_count < 2 ^ 16
  pub npu_exec_last_model_id_byte : q.npu_exec_last_model_id < 2 ^ 8
  pub npu_exec_status_word : q.npu_exec_status < word
  pub npu_exec_input_offset_word : q.npu_exec_input_offset < word
  pub npu_exec_output_offset_word : q.npu_exec_output_offset < word

pub record GpuTyped (g : GpuState) : Type 0 where
  pub cmd_opcode_byte : g.cmd_opcode < 2 ^ 8
  pub vertex0_half : g.vertex0 < 2 ^ 16
  pub vertex1_half : g.vertex1 < 2 ^ 16
  pub vertex2_half : g.vertex2 < 2 ^ 16
  pub clear_value_byte : g.clear_value < 2 ^ 8
  pub fb_row_select_row : g.fb_row_select < fb_rows
  pub triangles_word : g.triangles < word
  pub frame_count_word : g.frame_count < word
  pub raster_pixels_word : g.raster_pixels < word
  pub last_area2_int32 : IsInt32 g.last_area2
  pub last_bbox_word : g.last_bbox < word
  pub rows_word : (row : ℕ) → g.framebuffer row < word

abbrev pub Bytes : Mem → Type 0
Bytes m = (a : ℕ) → m a < 2 ^ 8

pub record Typed (e : Emu) : Type 0 where
  pub control_shadow_word : e.control_shadow < word
  pub irq_enable_bits : e.irq_enable < 4
  pub npu : NpuTyped e.npu
  pub umem : UmemTyped e.umem
  pub cmdq : CmdqTyped e.cmdq
  pub gpu : GpuTyped e.gpu
  pub bytes : Bytes e.unified_mem

pub store32-Bytes : (m : Mem) (p v : ℕ) → Bytes m → Bytes (store32 m p v)
unfolding store32
store32-Bytes m p v b a = ground (arith, b a)

pub load32-lt : (m : Mem) (p : ℕ) → Bytes m → load32 m p < word
unfolding load32
load32-lt m p b = omega (arith, b p, b (p + 1), b (p + 2), b (p + 3))

pub load_desc-IsDesc : (m : Mem) (p : ℕ) → Bytes m → IsDesc (load_desc m p)
unfolding load_desc
load_desc-IsDesc m p b = record {
  opcode_word = load32-lt m p b;
  flags_word = load32-lt m _ b;
  src0_word = load32-lt m _ b;
  src1_word = load32-lt m _ b;
  src2_word = load32-lt m _ b;
  dst0_word = load32-lt m _ b;
  arg0_word = load32-lt m _ b;
  arg1_word = load32-lt m _ b;
}

pub read32-word : (e : Emu) (at : ℕ) → Typed e → Ensures (λ v. v < word) (read32 e at)
unfolding read32
read32-word e at t = ground (arith, load32-lt e.unified_mem at t.bytes)

pub write32-Typed : (e : Emu) (at v : ℕ) → Typed e → Ensures Typed (write32 e at v)
unfolding write32
write32-Typed e at v t = ground (arith, store32-Bytes e.unified_mem at v t.bytes)

-- `emu_init` leaves every integer field in its type.
pub init-Typed : Typed init
init-Typed = ground arith
