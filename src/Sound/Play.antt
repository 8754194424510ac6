-- ===== src/Sound/Play.antt =====
-- The start of a file of music: `play_music` of student-distrib/sb16.c, and the call `play` of
-- student-distrib/syscall.c.
use ece391_mp3_illinix.Print.{printf, text}
use ece391_mp3_illinix.Text.{strlen, strncpy, codes}
use ece391_mp3_illinix.Filesystem.{read_dentry_by_name}
use ece391_mp3_illinix.Syscall.Small.{not_user}
use ece391_mp3_illinix.Sound.{
  Sound, read_data, reset_dsp, set_sample_rate, transfer_sound_dma, start_play, block_bytes,
}
use ece391_mp3_illinix.Syscall.{returns, waits, divide_error, Call, open_file}
use ece391_mp3_illinix.Kernel.{Kernel, mem, with_mem}
use ece391_mp3_illinix.Memory.{Mem, load32}
use ece391_mp3_illinix.Prelude.{
  ℕ, zero, suc, ◌+◌, Option, none, some, List, [], ◌∷◌, ◌==◌, if◌then◌else◌, ◌>>=◌,
}
use ece391_mp3_illinix.Word.{u32, minus_one}

-- The locals `magic` and `audio_dentry` by their addresses, and what the call of `open` finds.
pub record PlayFrame : Type 0 where
  pub magic : ℕ
  pub audio_dentry : ℕ
  pub open_call : Call

abbrev pub riff : ℕ
riff = 0x46464952

-- The bytes of a string argument.
unfoldable pub bytes_at : Mem → ℕ → ℕ → List ℕ
bytes_at m p zero = []
bytes_at m p (suc n) = m p ∷ bytes_at m (u32 (p + 1)) n

-- `play_music` from the second read on.
unfoldable pub begin_music : Kernel → Sound → Option (ℕ × Kernel × Sound)
begin_music k s =
    read_data (mem k) k.fs s.audio_file_inode s.current_offset s.dma_buffer 0x10000 >>= λ r.
    set_sample_rate (transfer_sound_dma s 1 0x58 s.dma_buffer 0x10000) 8000 >>= λ s₁.
    start_play s₁ block_bytes >>= λ s₂.
    some (
      0,
      with_mem k r.1,
      record s₂ { is_playing = 1; current_offset = u32 (s.current_offset + r.0) },
    )

-- `play_music` from the reset of the card on; `open` takes a descriptor that is kept in `_fd`.
unfoldable pub open_music : Kernel → Sound → PlayFrame → ℕ → Option (ℕ × Kernel × Sound)
unfolding begin_music
open_music k s f filename = reset_dsp s >>= λ s₁. strlen (mem k) filename >>= λ len.
    elim (open_file (with_mem k (strncpy (mem k) s.audio_filename filename len)) f.open_call
      filename) [ returns fd k₁ ↦ begin_music k₁ s₁ | waits ↦ none | divide_error ↦ none ]

-- `play_music` with the file found.
unfoldable pub check_music : Kernel → Sound → PlayFrame → ℕ → Option (ℕ × Kernel × Sound)
unfolding open_music
check_music k s f filename =
    let i_node = load32 (mem k) (u32 (f.audio_dentry + 36)) in
    let s' = record s { audio_file_inode = i_node } in
    read_data (mem k) k.fs i_node 0 f.magic 4 >>= λ r.
    if load32 r.1 f.magic == riff
    then open_music (with_mem k r.1) s' f filename
    else (strlen r.1 f.magic >>= λ len.
        printf (with_mem k r.1).screen (codes "file cannot be played! %s\n")
          (text (bytes_at r.1 f.magic len) ∷ [])
        >>= λ p. some (0, record k { screen = p.1 }, s'))

unfoldable pub play_music : Kernel → Sound → PlayFrame → ℕ → Option (ℕ × Kernel × Sound)
unfolding check_music
play_music k s f filename =
    let find : Option (ℕ × Kernel × Sound) =
      read_dentry_by_name (mem k) k.fs filename f.audio_dentry >>= λ r.
      if r.0 == minus_one
      then (printf k.screen (codes "No Such File") [] >>= λ p.
          some (minus_one, record k { screen = p.1 }, s))
      else check_music (with_mem k r.1) s f filename in
    if s.is_playing == 1 then some (0, k, s) else find

-- `play(filename)`, which returns 0 whatever `play_music` returns.
unfoldable pub play : Kernel → Sound → PlayFrame → ℕ → Option (ℕ × Kernel × Sound)
unfolding play_music
play k s f filename =
    if not_user filename
    then some (minus_one, k, s)
    else (play_music k s f filename >>= λ r. some (0, r.1, r.2))
