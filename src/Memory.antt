-- ===== src/Memory.antt =====
-- Byte-addressed shared memory, the little-endian words in it, and the command descriptors of
-- linux/include/accel_unified_queue.h that the producer and the emulator read and write there.
pub mod Laws
use risc_v_computer_zybo.Base.{
  ℕ, ◌+◌, ◌-◌, ◌*◌, ◌/◌, ◌%◌, ◌^◌, ◌<◌, Bool, ◌&&◌, ltb, leb, ◌==◌, if◌then◌else◌,
}
use risc_v_computer_zybo.Word.{word, byte_of}

-- An array of bytes, by address. Its length is kept beside it, where the code keeps it.
abbrev pub Mem : Type 0
Mem = ℕ → ℕ

unfoldable pub load32 : Mem → ℕ → ℕ
load32 m p = m p + 2 ^ 8 * m (p + 1) + 2 ^ 16 * m (p + 2) + 2 ^ 24 * m (p + 3)

unfoldable pub store32 : Mem → ℕ → ℕ → Mem
store32 m p v a =
    if a == p
    then byte_of v 0
    else if a == p + 1
    then byte_of v 8
    else if a == p + 2
    then byte_of v 16
    else if a == p + 3
    then byte_of v 24
    else m a

-- `memset(p, 0, n)`
unfoldable pub clear : Mem → ℕ → ℕ → Mem
clear m p n a = if leb p a && ltb a (p + n) then 0 else m a

-- `accel_umem_cmd_desc_t`
pub record Desc : Type 0 where
  pub opcode : ℕ
  pub flags : ℕ
  pub src0 : ℕ
  pub src1 : ℕ
  pub src2 : ℕ
  pub dst0 : ℕ
  pub arg0 : ℕ
  pub arg1 : ℕ

-- ACCEL_UMEM_CMDQ_DESC_BYTES
abbrev pub desc_bytes : ℕ
desc_bytes = 32

unfoldable pub load_desc : Mem → ℕ → Desc
load_desc m p = record {
  opcode = load32 m p;
  flags = load32 m (p + 4);
  src0 = load32 m (p + 8);
  src1 = load32 m (p + 12);
  src2 = load32 m (p + 16);
  dst0 = load32 m (p + 20);
  arg0 = load32 m (p + 24);
  arg1 = load32 m (p + 28);
}

-- `*slot = *desc`
unfoldable pub store_desc : Mem → ℕ → Desc → Mem
store_desc m p d =
    let m1 = store32 m p d.opcode in
    let m2 = store32 m1 (p + 4) d.flags in
    let m3 = store32 m2 (p + 8) d.src0 in
    let m4 = store32 m3 (p + 12) d.src1 in
    let m5 = store32 m4 (p + 16) d.src2 in
    let m6 = store32 m5 (p + 20) d.dst0 in
    let m7 = store32 m6 (p + 24) d.arg0 in store32 m7 (p + 28) d.arg1

-- Every field is a uint32_t.
pub record IsDesc (d : Desc) : Type 0 where
  pub opcode_word : d.opcode < word
  pub flags_word : d.flags < word
  pub src0_word : d.src0 < word
  pub src1_word : d.src1 < word
  pub src2_word : d.src2 < word
  pub dst0_word : d.dst0 < word
  pub arg0_word : d.arg0 < word
  pub arg1_word : d.arg1 < word
