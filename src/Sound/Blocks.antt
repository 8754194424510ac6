-- ===== src/Sound/Blocks.antt =====
-- The blocks of music that the interrupts of student-distrib/sb16.c load, one after the other.
use ece391_mp3_illinix.Filesystem.Read.{IsFile, inode_at, index_at, read_data-available}
use ece391_mp3_illinix.Filesystem.Data.{with_file, Outside}
use ece391_mp3_illinix.Memory.{Mem, load32}
use ece391_mp3_illinix.Sound.{
  start_play, Sound, poll, sb16_handler, write_dsp, bit7, wait_for, Fs, block_bytes, dsp_inb,
  dsp_outb, next_block, read_data,
}
use ece391_mp3_illinix.Prelude.{
  ℕ, suc, ◌+◌, ◌-◌, ◌/◌, ◌^◌, ◌≤◌, ◌<◌, min, ◌≡◌, refl, sym, ap, ◌∙◌, ◌⊎◌, true, false, not, Option,
  none, some, List, [], ◌∷◌, arith, ℕ_discrete, ◌==◌, if◌then◌else◌, length, get_or, drop, ◌>>=◌,
  if_true, if_false,
}
use ece391_mp3_illinix.Word.{u8, u16, u32}

-- Every byte that the card still answers has bit 7 clear.
abbrev pub AllReady : List ℕ → Type 0
AllReady vs = (i : ℕ) → bit7 (get_or vs i 0) ≡ false

-- The driver after a byte went to the card.
abbrev pub wrote : Sound → ℕ → Sound
wrote s v = record s { inputs = drop 1 s.inputs; ports = (0x22C, u8 v) ∷ s.ports }

poll-ready :
    (vs : List ℕ) → AllReady vs → 0 < length vs → poll (λ v. not (bit7 v)) vs ≡ some (drop 1 vs)
unfolding poll
poll-ready [] r h = absurd (omega arith)
poll-ready (v ∷ vs) r h = if_true (ap not (r 0)) _ _

pub AllReady-drop : (vs : List ℕ) → AllReady vs → AllReady (drop 1 vs)
AllReady-drop [] r i = r i
AllReady-drop (v ∷ vs) r i = r (suc i)

pub length-drop_one : (vs : List ℕ) → length vs ≤ length (drop 1 vs) + 1
length-drop_one [] = omega arith
length-drop_one (v ∷ vs) = omega arith

pub write_dsp-wrote :
    (s : Sound) (v : ℕ) → AllReady s.inputs → 0 < length s.inputs → write_dsp s v ≡ some (wrote s v)
unfolding write_dsp wait_for dsp_outb
write_dsp-wrote s v r h =
    ap (λ o. (o >>= λ vs. some (record s { inputs = vs })) >>= λ s₁. some (dsp_outb s₁ v 0xC))
      (poll-ready s.inputs r h)

-- The driver after the four bytes of `start_play`.
abbrev started : Sound → ℕ → Sound
started s block_size =
    let blksize = u16 (u16 block_size + 2 ^ 16 - 1) in
    wrote (wrote (wrote (wrote s 0xC6) 0) (u8 blksize)) (u8 (blksize / 2 ^ 8))

start_play-started :
    (s : Sound) (block_size : ℕ)
    → AllReady s.inputs
    → 4 ≤ length s.inputs
    → start_play s block_size ≡ some (started s block_size)
unfolding start_play
start_play-started s block_size r h =
    let blksize = u16 (u16 block_size + 2 ^ 16 - 1) in
    let s₁ = wrote s 0xC6 in
    let s₂ = wrote s₁ 0 in
    let s₃ = wrote s₂ (u8 blksize) in
    let r₁ = AllReady-drop s.inputs r in
    let r₂ = AllReady-drop s₁.inputs r₁ in
    let r₃ = AllReady-drop s₂.inputs r₂ in
    let l₁ = length-drop_one s.inputs in
    let l₂ = length-drop_one s₁.inputs in
    let l₃ = length-drop_one s₂.inputs in
    ap
      (λ o. o >>= λ s₁. write_dsp s₁ 0 >>= λ s₂.
        write_dsp s₂ (u8 blksize) >>= λ s₃. write_dsp s₃ (u8 (blksize / 2 ^ 8)))
      (write_dsp-wrote s 0xC6 r (omega arith))
    ∙ ap (λ o. o >>= λ s₂. write_dsp s₂ (u8 blksize) >>= λ s₃. write_dsp s₃ (u8 (blksize / 2 ^ 8)))
        (write_dsp-wrote s₁ 0 r₁ (omega arith))
    ∙ ap (λ o. o >>= λ s₃. write_dsp s₃ (u8 (blksize / 2 ^ 8)))
        (write_dsp-wrote s₂ (u8 blksize) r₂ (omega arith))
    ∙ write_dsp-wrote s₃ (u8 (blksize / 2 ^ 8)) r₃ (omega arith)

-- The driver plays a file of a well-formed image, with both halves of its buffer outside the image.
pub record Playing (m : Mem) (fs : Fs) (lo : ℕ) (s : Sound) : Type 0 where
  pub file : IsFile m fs lo s.audio_file_inode
  pub above : lo ≤ inode_at fs s.audio_file_inode
  pub buffer : Outside fs lo s.dma_buffer 0x10000
  pub half : (s.cur_block ≡ s.dma_buffer) ⊎ (s.cur_block ≡ s.dma_buffer + block_bytes)
  pub within : s.current_offset ≤ load32 m (inode_at fs s.audio_file_inode)
  pub ready : AllReady s.inputs

abbrev pub file_size : Mem → Fs → Sound → ℕ
file_size m fs s = load32 m (inode_at fs s.audio_file_inode)

-- How many bytes the next interrupt loads.
abbrev pub loads : Mem → Fs → Sound → ℕ
loads m fs s = min block_bytes (file_size m fs s - s.current_offset)

abbrev pub loaded : Mem → Fs → Sound → Mem
loaded m fs s =
    with_file m fs (index_at fs s.audio_file_inode) s.current_offset s.cur_block (loads m fs s)

abbrev pub other_half : Sound → ℕ
other_half s =
    if s.cur_block == s.dma_buffer then u32 (s.dma_buffer + block_bytes) else s.dma_buffer

dsp_inb-drop :
    (s : Sound)
    → 0 < length s.inputs
    → dsp_inb s ≡ some (get_or s.inputs 0 0, record s { inputs = drop 1 s.inputs })
unfolding dsp_inb
dsp_inb-drop s = first s.inputs
  where
    first :
        (vs : List ℕ)
        → 0 < length vs
        → (elim vs as (λ _. Option (ℕ × Sound)) [
          | [] ↦ none
          | v ∷ vs ↦ some (v, record s { inputs = vs })
        ])
          ≡ some (get_or vs 0 0, record s { inputs = drop 1 vs })
    first [] h = absurd (omega arith)
    first (v ∷ vs) h = refl

-- The interrupt, but for its answer to the card.
pub handler-next_block :
    (m : Mem) (fs : Fs) (lo : ℕ) (s : Sound)
    → Playing m fs lo s
    → 0 < length s.inputs
    → sb16_handler m fs s
      ≡ next_block
          (loaded m fs s)
          (record s { inputs = drop 1 s.inputs; current_offset = s.current_offset + loads m fs s })
          (loads m fs s)
unfolding sb16_handler
handler-next_block m fs lo s p h =
    let n = loads m fs s in
    let i = record s { inputs = drop 1 s.inputs } in
    let out : Outside fs lo s.cur_block n = record {
      fits = ground (arith, p.half, p.buffer.fits);
      apart = ground (arith, p.half, p.buffer.apart);
    } in
    let next = λ (o : ℕ) (r : ℕ × Mem). next_block r.1 (record i { current_offset = o }) r.0 in
    ap
      (λ o. o >>= λ i.
        read_data m fs s.audio_file_inode s.current_offset s.cur_block block_bytes >>= λ r.
        next_block r.1 (record i.1 { current_offset = u32 (s.current_offset + r.0) }) r.0)
      (dsp_inb-drop s h)
    ∙ ap (λ o. o >>= λ r. next (u32 (s.current_offset + r.0)) r)
        (read_data-available p.file s.current_offset s.cur_block block_bytes out)
    ∙ ap (λ o. next o (n, loaded m fs s)) (omega (arith, p.within, p.file.size_fits))

-- What an interrupt does before the end of the file: the next bytes of the file stand in the half of
-- the buffer that is free, and the halves change places after a full one.
pub record Advances (m : Mem) (fs : Fs) (s s' : Sound) : Type 0 where
  pub handled : sb16_handler m fs s ≡ some (loaded m fs s, s')
  pub offset : s'.current_offset ≡ s.current_offset + loads m fs s
  pub block : s'.cur_block ≡ (if loads m fs s == block_bytes then other_half s else s.cur_block)
  pub buffers : s'.dma_buffer ≡ s.dma_buffer
  pub inode : s'.audio_file_inode ≡ s.audio_file_inode
  pub playing : s'.is_playing ≡ s.is_playing
  pub still_ready : AllReady s'.inputs
  pub answers : length s.inputs ≤ length s'.inputs + 5

length-drop_four : (vs : List ℕ) → length vs ≤ length (drop 1 (drop 1 (drop 1 (drop 1 vs)))) + 4
length-drop_four [] = omega arith
length-drop_four (a ∷ []) = omega arith
length-drop_four (a ∷ (b ∷ [])) = omega arith
length-drop_four (a ∷ (b ∷ (c ∷ []))) = omega arith
length-drop_four (a ∷ (b ∷ (c ∷ (d ∷ vs)))) = omega arith

AllReady-drop_four : (vs : List ℕ) → AllReady vs → AllReady (drop 1 (drop 1 (drop 1 (drop 1 vs))))
AllReady-drop_four vs r =
    AllReady-drop (drop 1 (drop 1 (drop 1 vs)))
      (AllReady-drop (drop 1 (drop 1 vs)) (AllReady-drop (drop 1 vs) (AllReady-drop vs r)))

module _ (m : Mem) (fs : Fs) (lo : ℕ) (s : Sound) (p : Playing m fs lo s) where
  abbrev pub read_on : Sound
  read_on = record s { inputs = drop 1 s.inputs; current_offset = s.current_offset + loads m fs s }

  -- As long as bytes of the file are left, and the card is ready, an interrupt of the sound card loads
  -- the next of them, up to 32 kB, into the half of the buffer that is free, moves the offset past
  -- them, and changes the halves after a full block.
  pub sb16_handler-Advances :
      0 < loads m fs s → 5 ≤ length s.inputs → (s' : Sound) × Advances m fs s s'
  unfolding next_block
  sb16_handler-Advances some_left enough =
      let n = loads m fs s in
      let e = handler-next_block m fs lo s p (omega arith) in
      let l = length-drop_one s.inputs in
      let r = AllReady-drop s.inputs p.ready in
      elim (ℕ_discrete n block_bytes) [
        | yes full ↦
            let t : (n == block_bytes) ≡ true = ground arith in
            let s₁ = record read_on { cur_block = other_half s } in
            let q = start_play-started s₁ n r (omega arith) in
            (
              started s₁ n,
              record {
                handled = e ∙ if_true t _ _ ∙ ap (λ o. o >>= λ s₁. some (loaded m fs s, s₁)) q;
                offset = refl;
                block = sym (if_true t _ _);
                buffers = refl;
                inode = refl;
                playing = refl;
                still_ready = AllReady-drop_four (drop 1 s.inputs) r;
                answers = omega (arith, length-drop_four (drop 1 s.inputs));
              },
            )
        | no part ↦
            let t : (n == block_bytes) ≡ false = ground arith in
            let t0 : (n == 0) ≡ false = ground arith in
            (
              read_on,
              record {
                handled = e ∙ if_false t _ _ ∙ if_false t0 _ _;
                offset = refl;
                block = sym (if_false t _ _);
                buffers = refl;
                inode = refl;
                playing = refl;
                still_ready = r;
                answers = omega arith;
              },
            )
      ]
