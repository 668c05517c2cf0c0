-- ===== src/Emulator/Typed/Cmdq.antt =====
-- A command, and the whole queue, keep every integer field in its type.
use native.Mathlib.Nat.{mod-le}
use risc_v_computer_zybo.Base.{
  ℕ, zero, suc, ◌+◌, ◌%◌, ◌<◌, arith, Bool, false, Ensures, Ensures-any, >>=-Ensures, if-both, ◌==◌,
}
use risc_v_computer_zybo.Word.{word}
use risc_v_computer_zybo.Word.Bits.{set_bit-lt}
use risc_v_computer_zybo.Memory.{Desc, IsDesc, load_desc}
use risc_v_computer_zybo.Emulator.{Emu, CmdqState}
use risc_v_computer_zybo.Emulator.Cmdq.{
  refresh_status, pack_npu_exec_status, npu_prepared, clear_prepared, draw_prepared,
  execute_npu_infer, execute_gpu_clear, execute_gpu_draw_tri, dispatch, dispatching, execute_desc,
  fetch, retire, desc_ptr, process_one, process_loop, start_processing, finish_processing, process,
  done_flags,
}
use risc_v_computer_zybo.Emulator.Typed.{
  Typed, CmdqTyped, load_desc-IsDesc, store32-Bytes, load32-lt,
}
use risc_v_computer_zybo.Emulator.Typed.Npu.{run_npu-Typed}
use risc_v_computer_zybo.Emulator.Typed.Gpu.{run_gpu_clear-Typed, run_gpu_draw-Typed}

-- A pair of a state and a flag.
abbrev TypedFirst : Emu × Bool → Type 0
TypedFirst r = Typed r.0

pub refresh_status-CmdqTyped :
    (seen : Bool) (q : CmdqState) → CmdqTyped q → CmdqTyped (refresh_status seen q)
unfolding refresh_status
refresh_status-CmdqTyped seen q t = ground arith

pack_npu_exec_status-lt :
    (q : CmdqState) (busy : Bool) → CmdqTyped q → pack_npu_exec_status q busy < word
unfolding pack_npu_exec_status
pack_npu_exec_status-lt q busy t = ground arith

npu_prepared-Typed : (d : Desc) (e : Emu) → IsDesc d → Typed e → Typed (npu_prepared d e)
unfolding pack_npu_exec_status
npu_prepared-Typed d e w t =
    ground (arith, set_bit-lt 32 e.umem.ctrl 0 t.umem.ctrl_word (omega arith))

clear_prepared-Typed : (d : Desc) (e : Emu) → IsDesc d → Typed e → Typed (clear_prepared d e)
clear_prepared-Typed d e w t = ground arith

draw_prepared-Typed : (d : Desc) (e : Emu) → IsDesc d → Typed e → Typed (draw_prepared d e)
draw_prepared-Typed d e w t = ground arith

module _ (d : Desc) (e : Emu) (w : IsDesc d) (t : Typed e) where
  execute_npu_infer-Typed : Ensures Typed (execute_npu_infer d e)
  unfolding execute_npu_infer
  execute_npu_infer-Typed =
      >>=-Ensures Typed Typed _ _ (run_npu-Typed _ (npu_prepared-Typed d e w t))
        λ ran r. ground (arith, pack_npu_exec_status-lt ran.cmdq false r.cmdq)

  execute_gpu_clear-Typed : Ensures Typed (execute_gpu_clear d e)
  unfolding execute_gpu_clear
  execute_gpu_clear-Typed =
      >>=-Ensures Typed Typed _ _ (run_gpu_clear-Typed _ (clear_prepared-Typed d e w t))
        λ ran r. ground arith

  execute_gpu_draw_tri-Typed : Ensures Typed (execute_gpu_draw_tri d e)
  unfolding execute_gpu_draw_tri
  execute_gpu_draw_tri-Typed =
      >>=-Ensures Typed Typed _ _ (run_gpu_draw-Typed _ (draw_prepared-Typed d e w t))
        λ ran r. ground arith

  dispatch-Typed : Ensures (TypedFirst) (dispatch d e)
  unfolding dispatch
  dispatch-Typed =
      ground (arith, execute_npu_infer-Typed, execute_gpu_clear-Typed, execute_gpu_draw_tri-Typed)

execute_desc-Typed : (e : Emu) (p : ℕ) → Typed e → Ensures (TypedFirst) (execute_desc e p)
unfolding execute_desc
execute_desc-Typed e p t =
    >>=-Ensures (TypedFirst) (TypedFirst) _ _
      (dispatch-Typed d (dispatching d e) w (ground (arith, w)))
      λ r h. ground (arith, store32-Bytes r.0.unified_mem (p + 4) (done_flags d.flags r.1) h.bytes)
  where
    d : Desc
    d = load_desc e.unified_mem p

    w : IsDesc d
    w = load_desc-IsDesc e.unified_mem p t.bytes

fetch-Typed : (n p : ℕ) (e : Emu) → Typed e → Typed (fetch n p e)
unfolding load_desc
fetch-Typed n p e t = ground (arith, load32-lt e.unified_mem p t.bytes)

retire-Typed : (n : ℕ) (good : Bool) (e : Emu) → Typed e → Typed (retire n good e)
retire-Typed n good e t = ground (arith, mod-le ((e.cmdq.tail + 1) % word) n)

process_one-Typed :
    (n : ℕ) (seen : Bool) (e : Emu) → Typed e → Ensures TypedFirst (process_one n seen e)
unfolding process_one
process_one-Typed n seen e t =
    >>=-Ensures (λ _. Unit {0}) TypedFirst (desc_ptr e e.cmdq.tail) _ (Ensures-any _)
      λ p _.
        >>=-Ensures TypedFirst TypedFirst _ _
          (execute_desc-Typed (fetch n p e) p (fetch-Typed n p e t)) λ r h. retire-Typed n r.1 r.0 h

process_loop-Typed :
    (safety n : ℕ) (seen : Bool) (e : Emu)
    → Typed e
    → Ensures TypedFirst (process_loop safety n seen e)
unfolding process_loop
process_loop-Typed zero n seen e t = t
process_loop-Typed (suc safety) n seen e t =
    if-both (Ensures TypedFirst) (e.cmdq.tail == e.cmdq.head) _ _ t (
      >>=-Ensures TypedFirst TypedFirst _ _ (process_one-Typed n seen e t)
        λ r h. process_loop-Typed safety n r.1 r.0 h)

start_processing-Typed : (e : Emu) → Typed e → Typed (start_processing e)
start_processing-Typed e t = ground arith

finish_processing-Typed : (e : Emu) (seen : Bool) → Typed e → Typed (finish_processing e seen)
unfolding finish_processing refresh_status
finish_processing-Typed e seen t = ground arith

pub process-Typed : (e : Emu) → Typed e → Ensures Typed (process e)
unfolding process
process-Typed e t =
    >>=-Ensures TypedFirst Typed _ _ (process_loop-Typed _ _ false _ (start_processing-Typed e t))
      λ r h. finish_processing-Typed r.0 r.1 h
