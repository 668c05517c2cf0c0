-- ===== src/Tests/Typed.antt =====
-- The types of the emulator's fields, in a state that register writes reach.
use risc_v_computer_zybo.Base.{◌<◌, ◌≡◌, refl, arith, Outcome, ok, Returns}
use risc_v_computer_zybo.Word.{word}
use risc_v_computer_zybo.Registers.{Reg, offset, decode}
use risc_v_computer_zybo.Emulator.{Emu, init}
use risc_v_computer_zybo.Emulator.Regs.{reg_read, emu_reg_read, reg_write, write_reg, write_control}
use risc_v_computer_zybo.Emulator.Gpu.{run_gpu_draw, sync_framebuffer_to_umem}
use risc_v_computer_zybo.Emulator.Typed.{Typed}
use risc_v_computer_zybo.Emulator.Typed.Reached.{Reached, start, wrote, reached_reads-Typed}

-- The state after a call, if it returns.
abbrev after : Outcome Emu → Emu
after (ok e) = e
after _ = init

abbrev vertex_set : Emu
vertex_set = after (reg_write init (offset Reg.gpu_vertex0) 0xFFFF0203)

-- A triangle is drawn with the vertex that is cut to 16 bits.
abbrev triangle_drawn : Emu
triangle_drawn = after (reg_write vertex_set (offset Reg.control) 2)

-- Row 0xE3 is asked for, which is row 3.
abbrev row_selected : Emu
row_selected = after (reg_write triangle_drawn (offset Reg.gpu_fb_rowsel) 0xE3)

vertex_set-Reached : Reached vertex_set
unfolding reg_write decode offset write_reg
vertex_set-Reached = wrote init _ (offset Reg.gpu_vertex0) 0xFFFF0203 start (omega arith) refl

triangle_drawn-Reached : Reached triangle_drawn
unfolding reg_write decode offset write_reg write_control run_gpu_draw sync_framebuffer_to_umem
triangle_drawn-Reached =
    wrote vertex_set _ (offset Reg.control) 2 vertex_set-Reached (omega arith) refl

row_selected-Reached : Reached row_selected
unfolding reg_write decode offset write_reg write_control run_gpu_draw sync_framebuffer_to_umem
row_selected-Reached =
    wrote triangle_drawn _ (offset Reg.gpu_fb_rowsel) 0xE3 triangle_drawn-Reached (omega arith) refl

reached_reads-Typed_example :
    Typed row_selected
    × Returns
        (λ v. (v ≡ reg_read row_selected (offset Reg.gpu_fb_rowdata)) × (v < word))
        (emu_reg_read row_selected (offset Reg.gpu_fb_rowdata))
reached_reads-Typed_example =
    reached_reads-Typed row_selected (offset Reg.gpu_fb_rowdata) row_selected-Reached
