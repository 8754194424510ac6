-- ===== src/Sound.antt =====
-- The sound driver of student-distrib/sb16.c. What the card answers to `inb` is a list of bytes, read
-- from the front; a wait that outlasts the list gives `none`.
pub mod Blocks
pub mod Play
pub mod Ends
use ece391_mp3_illinix.Filesystem.{Fs, read_data}
use ece391_mp3_illinix.Memory.{Mem, store8}
use Prim.Native.Nat.{bit_and, bit_or}
use ece391_mp3_illinix.Prelude.{
  ℕ, zero, suc, ◌+◌, ◌-◌, ◌*◌, ◌/◌, ◌%◌, ◌^◌, ◌≤◌, ◌<◌, min, max, ◌≡◌, refl, sym, ap, ap₂, ◌∙◌,
  fun_ext, subst, ◌≡⟨◌⟩◌, ◌∎, ◌≢◌, ◌↔◌, ◌⊎◌, inl, inr, Bool, true, false, not, ◌&&◌, ◌||◌, Option,
  none, some, List, [], ◌∷◌, ◌++◌, map, arith, dec_lt, dec_le, ℕ_discrete, ltb, leb, ◌==◌,
  if◌then◌else◌, Bool-cases, Option-cases, length, get_elem?, set, get_or, take, drop, replicate,
  length-set, get_or-set_self, get_or-set_ne, ◌>>=◌, ==_iff, every_below, every_below_use, same,
  same_sound,
}
use ece391_mp3_illinix.Word.{u8, u16, u32, sub32, minus_one, is_neg, slt, sle, sdiv, smod, sext8}

-- The globals of sb16.c, the two buffers by their addresses. `upper` is the upper byte of the port
-- register where the port comes from an int8_t.
pub record Sound : Type 0 where
  pub dma_buffer : ℕ
  pub audio_filename : ℕ
  pub upper : ℕ
  pub cur_block : ℕ
  pub current_offset : ℕ
  pub is_playing : ℕ
  pub audio_file_inode : ℕ
  pub inputs : List ℕ
  pub ports : List (ℕ × ℕ)

abbrev pub block_bytes : ℕ
block_bytes = 32768

abbrev pub io_base : ℕ
io_base = 0x220

abbrev pub outb : Sound → ℕ → ℕ → Sound
outb s value port = record s { ports = (port, u8 value) ∷ s.ports }

-- `DSP_outb` and `DSP_inb`.
unfoldable pub dsp_outb : Sound → ℕ → ℕ → Sound
dsp_outb s value port_offset = outb s value (io_base + port_offset)

unfoldable pub dsp_inb : Sound → Option (ℕ × Sound)
dsp_inb s = elim s.inputs [ [] ↦ none | v ∷ vs ↦ some (v, record s { inputs = vs }) ]

abbrev pub bit7 : ℕ → Bool
bit7 v = v / 128 % 2 == 1

-- The loop that reads a port until its bytes pass a test: the bytes that are left.
unfoldable pub poll : (ℕ → Bool) → List ℕ → Option (List ℕ)
poll ready [] = none
poll ready (v ∷ vs) = if ready v then some vs else poll ready vs

unfoldable pub wait_for : (ℕ → Bool) → Sound → Option Sound
unfolding poll
wait_for ready s = poll ready s.inputs >>= λ vs. some (record s { inputs = vs })

-- `Reset_DSP`; the second loop takes any byte that shares a bit with 0xAA.
unfoldable pub reset_dsp : Sound → Option Sound
unfolding dsp_outb wait_for
reset_dsp s = wait_for bit7 (dsp_outb (dsp_outb s 1 0x6) 0 0x6) >>= λ s₁.
    wait_for (λ v. not (bit_and v 0xAA == 0)) s₁

-- `Write_DSP`.
unfoldable pub write_dsp : Sound → ℕ → Option Sound
unfolding dsp_outb wait_for
write_dsp s value = wait_for (λ v. not (bit7 v)) s >>= λ s₁. some (dsp_outb s₁ value 0xC)

-- `Read_From_DSP`.
unfoldable pub read_from_dsp : Sound → Option (ℕ × Sound)
unfolding dsp_inb wait_for
read_from_dsp s = wait_for (λ v. not (bit7 v)) s >>= dsp_inb

-- `page_ports[]`.
abbrev pub page_port : Sound → ℕ → ℕ
page_port s channel =
    get_or (0x87 ∷ 0x83 ∷ 0x81 ∷ 0x82 ∷ 0x00 ∷ 0x8B ∷ 0x89 ∷ 0x8A ∷ []) channel 0 + 256 * s.upper

-- The branches of `Transfer_Sound_DMA` for an 8-bit channel, and for a 16-bit one.
unfoldable pub transfer_8 : Sound → ℕ → ℕ → ℕ → ℕ → Sound
transfer_8 s channel mode addr count =
    let s₁ = outb s (bit_or channel 4) 0x0A in
    let s₂ = outb s₁ 0 0x0C in
    let s₃ = outb s₂ (bit_or mode channel) 0x0B in
    let s₄ = outb s₃ (addr / 2 ^ 16) (page_port s channel) in
    let s₅ = outb s₄ (u8 addr) (2 * channel) in
    let s₆ = outb s₅ (u8 (addr / 2 ^ 8)) (2 * channel) in
    let s₇ = outb s₆ (u8 count) (2 * channel + 1) in
    let s₈ = outb s₇ (u8 (count / 2 ^ 8)) (2 * channel + 1) in outb s₈ channel 0x0A

unfoldable pub transfer_16 : Sound → ℕ → ℕ → ℕ → ℕ → Sound
transfer_16 s channel mode addr count =
    let base = 0xC0 + 4 * channel in
    let s₁ = outb s (bit_or (channel % 4) 4) 0xD4 in
    let s₂ = outb s₁ 0 0xD8 in
    let s₃ = outb s₂ (bit_or mode (channel % 4)) 0xD6 in
    let s₄ = outb s₃ (bit_and (addr / 2 ^ 16) 0xFE) (page_port s channel) in
    let s₅ = outb s₄ (u8 (addr / 2)) base in
    let s₆ = outb s₅ (u8 (addr / 2 / 2 ^ 8)) base in
    let s₇ = outb s₆ (u8 (count / 2)) (base + 2) in
    let s₈ = outb s₇ (u8 (count / 2 / 2 ^ 8)) (base + 2) in outb s₈ (channel % 4) 0xD4

-- `Transfer_Sound_DMA`.
unfoldable pub transfer_sound_dma : Sound → ℕ → ℕ → ℕ → ℕ → Sound
unfolding transfer_8 transfer_16
transfer_sound_dma s channel mode addr size =
    let count = sub32 size 1 in
    if leb channel 3
    then transfer_8 s channel mode addr count
    else transfer_16 s channel mode addr count

-- `Set_Sample_Rate`.
unfoldable pub set_sample_rate : Sound → ℕ → Option Sound
unfolding write_dsp
set_sample_rate s frequency = write_dsp s 0x41 >>= λ s₁.
    write_dsp s₁ (u8 (frequency / 2 ^ 8)) >>= λ s₂. write_dsp s₂ (u8 frequency)

-- `start_play`.
unfoldable pub start_play : Sound → ℕ → Option Sound
start_play s block_size =
    let blksize = u16 (u16 block_size + 2 ^ 16 - 1) in
    write_dsp s 0xC6 >>= λ s₁.
    write_dsp s₁ 0 >>= λ s₂. write_dsp s₂ (u8 blksize) >>= λ s₃. write_dsp s₃ (u8 (blksize / 2 ^ 8))

-- `stop`, with the loop that clears the name.
unfoldable pub clear_filename : Mem → ℕ → ℕ → ℕ → Mem
clear_filename m audio_filename i zero = m
clear_filename m audio_filename i (suc k) =
    clear_filename (store8 m (u32 (audio_filename + i)) 0) audio_filename (i + 1) k

unfoldable pub stop : Mem → Sound → Option (Mem × Sound)
unfolding clear_filename
stop m s = write_dsp s 0xD0 >>= λ s₁. some (
  clear_filename m s.audio_filename 0 33,
  record s₁ { is_playing = 0; audio_file_inode = 0; current_offset = 0; cur_block = s.dma_buffer },
)

-- `sb16_handler` once the block is read, `bytes_read` of it.
unfoldable pub next_block : Mem → Sound → ℕ → Option (Mem × Sound)
next_block m s bytes_read =
    let other =
      if s.cur_block == s.dma_buffer then u32 (s.dma_buffer + block_bytes) else s.dma_buffer in
    let more = start_play (record s { cur_block = other }) bytes_read >>= λ s₁. some (m, s₁) in
    if bytes_read == block_bytes then more else if bytes_read == 0 then stop m s else some (m, s)

-- `sb16_handler`; its call of `send_eoi` is the interrupt controller's.
unfoldable pub sb16_handler : Mem → Fs → Sound → Option (Mem × Sound)
sb16_handler m fs s = dsp_inb s >>= λ i.
    read_data m fs s.audio_file_inode s.current_offset s.cur_block block_bytes >>= λ r.
    next_block r.1 (record i.1 { current_offset = u32 (s.current_offset + r.0) }) r.0
