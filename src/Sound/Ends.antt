-- ===== src/Sound/Ends.antt =====
-- The music of student-distrib/sb16.c ends.
use ece391_mp3_illinix.Filesystem.Data.{Outside}
use ece391_mp3_illinix.Filesystem.Read.{IsFile, index_at, inode_at}
use ece391_mp3_illinix.Filesystem.Kept.{SameImage, with_file-SameImage, size-kept, IsFile-kept}
use ece391_mp3_illinix.Sound.Blocks.{
  Playing, AllReady, file_size, Advances, loads, loaded, sb16_handler-Advances, wrote, read_on,
  write_dsp-wrote, AllReady-drop, length-drop_one, handler-next_block,
}
use ece391_mp3_illinix.Sound.{
  stop, Fs, Sound, sb16_handler, clear_filename, next_block, block_bytes,
}
use ece391_mp3_illinix.Memory.{Mem, load32}
use ece391_mp3_illinix.Prelude.{
  ℕ, zero, suc, ◌+◌, ◌*◌, ◌≤◌, ◌<◌, ◌≡◌, refl, sym, ap, ◌∙◌, subst, true, false, Option, some,
  arith, ℕ_discrete, ◌==◌, length, ◌>>=◌, if_false, if_true,
}

-- `n` interrupts of the sound card, one after the other.
unfoldable pub interrupts : ℕ → Mem → Fs → Sound → Option (Mem × Sound)
interrupts zero m fs s = some (m, s)
interrupts (suc n) m fs s = sb16_handler m fs s >>= λ r. interrupts n r.0 fs r.1

-- The driver and memory after `n` interrupts, with nothing left to play.
abbrev pub EndsAfter : ℕ → Mem → Fs → Sound → Type 0
EndsAfter n m fs s = (r : Mem × Sound) × (interrupts n m fs s ≡ some r) × (r.1.is_playing ≡ 0)

stop-stopped :
    (m : Mem) (s : Sound)
    → AllReady s.inputs
    → 0 < length s.inputs
    → (r : Mem × Sound) × (stop m s ≡ some r) × (r.1.is_playing ≡ 0)
unfolding stop
stop-stopped m s r h = (
  (
    clear_filename m s.audio_filename 0 33,
    record (wrote s 0xD0) {
      is_playing = 0;
      audio_file_inode = 0;
      current_offset = 0;
      cur_block = s.dma_buffer;
    },
  ),
  ap
      (λ o. o >>= λ s₁. some (
        clear_filename m s.audio_filename 0 33,
        record s₁ {
          is_playing = 0;
          audio_file_inode = 0;
          current_offset = 0;
          cur_block = s.dma_buffer;
        },
      ))
      (write_dsp-wrote s 0xD0 r h),
  refl,
)

module _ (m : Mem) (fs : Fs) (lo : ℕ) (s : Sound) (p : Playing m fs lo s) where
  -- The interrupt at the end of the file.
  ends_now : loads m fs s ≡ 0 → 2 ≤ length s.inputs → EndsAfter 1 m fs s
  unfolding next_block interrupts
  ends_now done enough =
      let s₁ = read_on m fs lo s p in
      let t : (loads m fs s == block_bytes) ≡ false = ground arith in
      let t0 : (loads m fs s == 0) ≡ true = ground arith in
      let r =
        stop-stopped (loaded m fs s) s₁ (AllReady-drop s.inputs p.ready)
          (omega (arith, length-drop_one s.inputs)) in
      let e : sb16_handler m fs s ≡ some r.0 =
        handler-next_block m fs lo s p (omega arith) ∙ if_false t _ _ ∙ if_true t0 _ _ ∙ r.1 in
      (r.0, ap (λ o. o >>= λ r. interrupts 0 r.0 fs r.1) e, r.2)

  same_image : SameImage fs lo m (loaded m fs s)
  same_image =
      with_file-SameImage m fs lo (index_at fs s.audio_file_inode) s.current_offset s.cur_block
        (loads m fs s)
        (record {
          fits = ground (arith, p.half, p.buffer.fits);
          apart = ground (arith, p.half, p.buffer.apart);
        })

  same_size : file_size (loaded m fs s) fs s ≡ file_size m fs s
  same_size = size-kept p.file (loaded m fs s) p.above same_image

  -- The driver still plays the same file.
  plays_on : (s' : Sound) → Advances m fs s s' → Playing (loaded m fs s) fs lo s'
  plays_on s' a = record {
    file =
        subst (IsFile (loaded m fs s) fs lo) (sym a.inode)
          (IsFile-kept p.file (loaded m fs s) p.above same_image);
    above = subst (λ i. lo ≤ inode_at fs i) (sym a.inode) p.above;
    buffer = subst (λ b. Outside fs lo b 0x10000) (sym a.buffers) p.buffer;
    half = ground (arith, p.half, a.block, a.buffers, p.buffer.fits);
    within =
        subst (λ i. s'.current_offset ≤ load32 (loaded m fs s) (inode_at fs i)) (sym a.inode)
          (omega (arith, a.offset, same_size, p.within));
    ready = a.still_ready;
  }

  size_next : (s' : Sound) → Advances m fs s s' → file_size (loaded m fs s) fs s' ≡ file_size m fs s
  size_next s' a = ap (λ i. load32 (loaded m fs s) (inode_at fs i)) a.inode ∙ same_size

-- For a file of a well-formed image, a buffer outside it, and a card that is always ready and answers
-- five bytes for each interrupt: with at most `blocks` blocks of 32 kB still to come, the music has
-- stopped after at most that many interrupts and one, and the driver is free for another file.
pub interrupts-stop :
    (blocks : ℕ) (m : Mem) (fs : Fs) (lo : ℕ) (s : Sound)
    → Playing m fs lo s
    → file_size m fs s ≤ s.current_offset + blocks * block_bytes
    → 5 * (blocks + 1) ≤ length s.inputs
    → (n : ℕ) × (n ≤ blocks + 1) × EndsAfter n m fs s
unfolding interrupts
interrupts-stop zero m fs lo s p h enough =
    (1, omega arith, ends_now m fs lo s p (omega arith) (omega arith))
interrupts-stop (suc blocks) m fs lo s p h enough = elim (ℕ_discrete (loads m fs s) 0) [
  | yes done ↦ (1, omega arith, ends_now m fs lo s p done (omega arith))
  | no more ↦
      let (s', a) = sb16_handler-Advances m fs lo s p (omega arith) (omega arith) in
      let size = size_next m fs lo s p s' a in
      let rest =
        interrupts-stop blocks (loaded m fs s) fs lo s' (plays_on m fs lo s p s' a)
          (omega (arith, size, a.offset)) (omega (arith, a.answers)) in
      (
        suc rest.0,
        omega (arith, rest.1),
        (
          rest.2.0,
          ap (λ o. o >>= λ r. interrupts rest.0 r.0 fs r.1) a.handled ∙ rest.2.1,
          rest.2.2,
        ),
      )
]
