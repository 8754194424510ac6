-- ===== src/Filesystem/Data.antt =====
-- `read_data` of student-distrib/filesystem.c against the bytes of a file.
use ece391_mp3_illinix.Prelude.{
  ℕ, zero, suc, ◌+◌, ◌-◌, ◌*◌, ◌/◌, ◌%◌, ◌^◌, ◌≤◌, ◌<◌, ◌≡◌, ap, ◌∙◌, ◌⊎◌, arith, fun_ext, ltb, leb,
  if◌then◌else◌, ◌&&◌, some, true, dec_lt,
}
use ece391_mp3_illinix.Word.{u32}
use ece391_mp3_illinix.Memory.{Mem, memcpy, moved}
use ece391_mp3_illinix.Memory.Block.{memcpy-moved}
use ece391_mp3_illinix.Filesystem.{Fs, block_index, read_blocks}

-- Where the image lies: `p` is the first block index of an inode, not below `lo`, and the data
-- blocks come after it. The code accepts block numbers up to `num_d_blocks`, that one included.
pub record Layout (fs : Fs) (p lo : ℕ) : Type 0 where
  pub above : lo ≤ p
  pub index_fits : p + 4 * 1023 ≤ fs.d_block_addr
  pub blocks_fit : fs.d_block_addr + (fs.num_d_blocks + 1) * 4096 < 2 ^ 32

-- A buffer outside the image.
pub record Outside (fs : Fs) (lo d n : ℕ) : Type 0 where
  pub fits : d + n < 2 ^ 32
  pub apart : (d + n ≤ lo) ⊎ (fs.d_block_addr + (fs.num_d_blocks + 1) * 4096 ≤ d)

-- Every block of the first `size` bytes has an index that the code accepts.
abbrev pub IndexOk : Mem → Fs → ℕ → ℕ → Type 0
IndexOk m fs p size = (k : ℕ) → k < 1023 → k * 4096 < size → block_index m p k ≤ fs.num_d_blocks

-- Byte `k` of the file whose block indices start at `p`.
unfoldable pub file_byte : Mem → Fs → ℕ → ℕ → ℕ
file_byte m fs p k = m (u32 (fs.d_block_addr + block_index m p (k / 4096) * 4096 + k % 4096))

-- Memory after `n` bytes of the file, from byte `o` on, went to `d`.
abbrev pub with_file : Mem → Fs → ℕ → ℕ → ℕ → ℕ → Mem
with_file m fs p o d n a = if leb d a && ltb a (d + n) then file_byte m fs p (o + a - d) else m a

module _ {fs : Fs} {p lo : ℕ} (l : Layout fs p lo) where
  block_index-moved :
      (m : Mem) (d s n i : ℕ)
      → Outside fs lo d n
      → i < 1023
      → block_index (moved m d s n) p i ≡ block_index m p i
  block_index-moved m d s n i o h = ground arith

  file_byte-moved :
      (m : Mem) (d s n k : ℕ)
      → Outside fs lo d n
      → k < 1023 * 4096
      → block_index m p (k / 4096) ≤ fs.num_d_blocks
      → file_byte (moved m d s n) fs p k ≡ file_byte m fs p k
  unfolding file_byte
  file_byte-moved m d s n k o h b =
      rw (block_index-moved m d s n (k / 4096) o (omega arith)) (ground arith)

  -- The address of byte `o` of the file.
  abbrev pub source : Mem → ℕ → ℕ
  source m o = u32 (fs.d_block_addr + block_index m p (o / 4096) * 4096 + o % 4096)

  -- A copy within one block takes the bytes of the file, and may be followed by the rest.
  pub moved-then-file :
      (m : Mem) (o d c n a : ℕ)
      → Outside fs lo d (c + n)
      → IndexOk m fs p (o + c + n)
      → o + c + n ≤ 1023 * 4096
      → 0 < c
      → o % 4096 + c ≤ 4096
      → with_file (moved m d (source m o) c) fs p (o + c) (d + c) n a
        ≡ with_file m fs p o d (c + n) a
  moved-then-file m o d c n a out ok size pos fits = elim (dec_lt a d) [
    | yes before ↦ ground arith
    | no ge ↦ elim (dec_lt a (d + c)) [
      | yes in_block ↦ ground (arith, same_block)
      | no past ↦ elim (dec_lt a (d + c + n)) [
        | yes inside ↦ ground (
          arith,
          file_byte-moved m d (source m o) c (o + c + a - (d + c)) (omega arith) (omega arith)
              (ok ((o + c + a - (d + c)) / 4096) (omega arith) (omega arith)),
        )
        | no after ↦ ground arith
      ]
    ]
  ]
    where
      same_block : d ≤ a → a < d + c → file_byte m fs p (o + a - d) ≡ m (source m o + a - d)
      same_block ge lt =
          let e : (o + a - d) / 4096 ≡ o / 4096 = omega arith in
          let b : block_index m p (o / 4096) ≤ fs.num_d_blocks =
            ok (o / 4096) (omega arith) (omega arith) in
          unfold file_byte in rw e (ap m (omega (arith, l.blocks_fit)))

  pub one_block :
      (m : Mem) (o d c a : ℕ)
      → Outside fs lo d c
      → IndexOk m fs p (o + c)
      → o + c ≤ 1023 * 4096
      → 0 < c
      → o % 4096 + c ≤ 4096
      → moved m d (source m o) c a ≡ with_file m fs p o d c a
  one_block m o d c a out ok size pos fits =
      nothing_left
      ∙ moved-then-file m o d c 0 a (ground arith) (λ k h q. ok k h (omega arith)) (omega arith) pos
          fits
      ∙ ap (λ n. with_file m fs p o d n a) (omega arith)
    where
      nothing_left :
          moved m d (source m o) c a ≡ with_file (moved m d (source m o) c) fs p (o + c) (d + c) 0 a
      nothing_left = ground arith

  pub memcpy-source :
      (m : Mem) (o d c : ℕ)
      → Outside fs lo d c
      → IndexOk m fs p (o + c)
      → o + c ≤ 1023 * 4096
      → 0 < c
      → o % 4096 + c ≤ 4096
      → memcpy m d (source m o) c ≡ moved m d (source m o) c
  memcpy-source m o d c out ok size pos fits = memcpy-moved m d (source m o) c (
      let b : block_index m p (o / 4096) ≤ fs.num_d_blocks =
        ok (o / 4096) (omega arith) (omega arith) in
      record {
        dest_fits = out.fits;
        src_fits = omega (arith, l.blocks_fit);
        apart = ground (arith, l.above, l.index_fits, l.blocks_fit, out.apart);
      })

  -- The bytes of one block, then the rest.
  pub IndexOk-moved :
      (m : Mem) (d s c size : ℕ)
      → Outside fs lo d c
      → IndexOk m fs p size
      → IndexOk (moved m d s c) fs p size
  IndexOk-moved m d s c size out ok k h q = rw (block_index-moved m d s c k out h) (ok k h q)

  source-block :
      (m : Mem) (k : ℕ) → source m (k * 4096) ≡ u32 (fs.d_block_addr + block_index m p k * 4096)
  source-block m k =
      let e : k * 4096 / 4096 ≡ k = omega arith in
      let z : k * 4096 % 4096 ≡ 0 = omega arith in rw (e, z) (omega arith)

  read_blocks-more :
      (fuel : ℕ) (m : Mem) (i d n : ℕ)
      → 4096 < n
      → i + 1 < 2 ^ 32
      → d + 4096 < 2 ^ 32
      → block_index m p (i + 1) ≤ fs.num_d_blocks
      → read_blocks (suc fuel) m fs p i d n
        ≡ read_blocks fuel
            (memcpy m d (source m ((i + 1) * 4096)) 4096)
            fs
            p
            (i + 1)
            (d + 4096)
            (n - 4096)
  unfolding read_blocks
  read_blocks-more fuel m i d n more hi hd ok =
      let e : u32 (i + 1) ≡ i + 1 = omega arith in
      let e' : u32 (d + 4096) ≡ d + 4096 = omega arith in
      rw source-block (rw e (rw e' (ground arith)))

  read_blocks-last :
      (fuel : ℕ) (m : Mem) (i d n : ℕ)
      → 0 < n
      → n ≤ 4096
      → i + 1 < 2 ^ 32
      → read_blocks (suc fuel) m fs p i d n ≡ some (true, memcpy m d (source m ((i + 1) * 4096)) n)
  unfolding read_blocks
  read_blocks-last fuel m i d n pos last hi =
      let e : u32 (i + 1) ≡ i + 1 = omega arith in rw source-block (rw e (ground arith))

  -- The loop over the blocks after the first, at block `i`.
  pub read_blocks_lem :
      (fuel : ℕ) (m : Mem) (i d n : ℕ)
      → n < fuel
      → 0 < n
      → Outside fs lo d n
      → IndexOk m fs p ((i + 1) * 4096 + n)
      → (i + 1) * 4096 + n ≤ 1023 * 4096
      → read_blocks fuel m fs p i d n ≡ some (true, with_file m fs p ((i + 1) * 4096) d n)
  read_blocks_lem zero m i d n f pos out ok size = absurd (omega arith)
  read_blocks_lem (suc fuel) m i d n f pos out ok size = elim (dec_lt 4096 n) [
    | yes more ↦
        let s = source m ((i + 1) * 4096) in
        let out₁ : Outside fs lo d 4096 = ground arith in
        read_blocks-more fuel m i d n more (omega arith) (omega (arith, out.fits))
          (ok (i + 1) (omega arith) (omega arith))
        ∙ ap (λ (m₁ : Mem). read_blocks fuel m₁ fs p (i + 1) (d + 4096) (n - 4096))
            (memcpy-source m ((i + 1) * 4096) d 4096 out₁ (λ k h q. ok k h (omega arith))
              (omega arith) (omega arith) (omega arith))
        ∙ read_blocks_lem fuel (moved m d s 4096) (i + 1) (d + 4096) (n - 4096) (omega arith)
            (omega arith) (ground arith)
            (IndexOk-moved m d s 4096 _ out₁ (λ k h q. ok k h (omega arith))) (omega arith)
        ∙ ap (λ (m₁ : Mem). some (true, m₁))
            (fun_ext λ a.
              ap (λ o. with_file (moved m d s 4096) fs p o (d + 4096) (n - 4096) a) (omega arith)
              ∙ moved-then-file m ((i + 1) * 4096) d 4096 (n - 4096) a (ground arith)
                  (λ k h q. ok k h (omega arith)) (omega arith) (omega arith) (omega arith)
              ∙ ap (λ c. with_file m fs p ((i + 1) * 4096) d c a) (omega arith))
    | no last ↦
        read_blocks-last fuel m i d n pos (omega arith) (omega arith)
        ∙ ap (λ (m₁ : Mem). some (true, m₁))
            (memcpy-source m ((i + 1) * 4096) d n out (λ k h q. ok k h (omega arith)) (omega arith)
                pos (omega arith)
              ∙ fun_ext (λ a.
                one_block m ((i + 1) * 4096) d n a out (λ k h q. ok k h (omega arith)) (omega arith)
                  pos (omega arith)))
  ]
