-- ===== src/Filesystem/Read.antt =====
-- What `read_data` of student-distrib/filesystem.c returns and writes.
use ece391_mp3_illinix.Prelude.{
  ℕ, zero, suc, ◌+◌, ◌-◌, ◌*◌, ◌/◌, ◌%◌, ◌^◌, ◌≤◌, ◌<◌, min, ◌≡◌, ap, ◌∙◌, fun_ext, true, false,
  some, arith, dec_lt, dec_le, ltb, leb, if◌then◌else◌, length,
}
use ece391_mp3_illinix.Word.{u32, sub32}
use ece391_mp3_illinix.Memory.{Mem, load32, memcpy, moved}
use ece391_mp3_illinix.Filesystem.{
  Fs, block_index, read_blocks, read_data, copy_blocks, read_span, read_extent,
}
use ece391_mp3_illinix.Filesystem.Data.{
  Layout, Outside, IndexOk, with_file, source, one_block, memcpy-source, IndexOk-moved,
  read_blocks_lem, moved-then-file,
}

-- The address of an inode, and of the first block index in it.
abbrev pub inode_at : Fs → ℕ → ℕ
inode_at fs inode = fs.inode_addr + 4096 * inode

abbrev pub index_at : Fs → ℕ → ℕ
index_at fs inode = inode_at fs inode + 4

-- An inode in the range that the code accepts, in an image that lies from `lo` on, whose size and
-- block indices are in range.
pub record IsFile (m : Mem) (fs : Fs) (lo inode : ℕ) : Type 0 where
  pub layout : Layout fs (index_at fs inode) lo
  pub in_range : inode + 1 < fs.num_inodes
  pub few : fs.num_inodes < 2 ^ 32
  pub size_fits : load32 m (inode_at fs inode) ≤ 1023 * 4096
  pub indices : IndexOk m fs (index_at fs inode) (load32 m (inode_at fs inode))

-- The bytes that a read of `length` bytes at `offset` gets.
abbrev pub available : Mem → Fs → ℕ → ℕ → ℕ → ℕ
available m fs inode offset length = min length (load32 m (inode_at fs inode) - offset)

module _ {m : Mem} {fs : Fs} {lo inode : ℕ} (f : IsFile m fs lo inode) where
  -- The rest of `read_data` after its checks, in one block and in several.
  one_block_read :
      (offset buf n : ℕ)
      → Outside fs lo buf n
      → offset + n ≤ load32 m (inode_at fs inode)
      → offset % 4096 + n ≤ 4096
      → memcpy m buf (source f.layout m offset) n ≡ with_file m fs (index_at fs inode) offset buf n
  one_block_read offset buf zero out le fits = unfold memcpy in fun_ext (λ a. ground arith)
  one_block_read offset buf (suc n) out le fits =
      memcpy-source f.layout m offset buf (suc n) out (λ k h q. f.indices k h (omega arith))
        (omega (arith, f.size_fits)) (omega arith) fits
      ∙ fun_ext (λ a.
        one_block f.layout m offset buf (suc n) a out (λ k h q. f.indices k h (omega arith))
          (omega (arith, f.size_fits)) (omega arith) fits)

  more_blocks_read :
      (offset buf n : ℕ)
      → Outside fs lo buf n
      → offset + n ≤ load32 m (inode_at fs inode)
      → 4096 < offset % 4096 + n
      → let first = 4096 - offset % 4096 in
        read_blocks
          (n - first + 1)
          (memcpy m buf (source f.layout m offset) first)
          fs
          (index_at fs inode)
          (offset / 4096)
          (buf + first)
          (n - first)
        ≡ some (true, with_file m fs (index_at fs inode) offset buf n)
  more_blocks_read offset buf n out le more =
      let p = index_at fs inode in
      let first = 4096 - offset % 4096 in
      let s = source f.layout m offset in
      let out₁ : Outside fs lo buf first = ground arith in
      let ok : IndexOk m fs p (offset + n) = λ k h q. f.indices k h (omega arith) in
      let size : offset + n ≤ 1023 * 4096 = omega (arith, f.size_fits) in
      ap
        (λ (m₁ : Mem).
          read_blocks (n - first + 1) m₁ fs p (offset / 4096) (buf + first) (n - first))
        (memcpy-source f.layout m offset buf first out₁ (λ k h q. ok k h (omega arith))
          (omega arith) (omega arith) (omega arith))
      ∙ read_blocks_lem f.layout (n - first + 1) (moved m buf s first) (offset / 4096) (buf + first)
          (n - first) (omega arith) (omega arith) (ground arith)
          (IndexOk-moved f.layout m buf s first _ out₁ (λ k h q. ok k h (omega arith)))
          (omega arith)
      ∙ ap (λ (m₁ : Mem). some (true, m₁))
          (fun_ext λ a.
            ap (λ o. with_file (moved m buf s first) fs p o (buf + first) (n - first) a)
              (omega arith)
            ∙ moved-then-file f.layout m offset buf first (n - first) a (ground arith)
                (λ k h q. ok k h (omega arith)) (omega arith) (omega arith) (omega arith)
            ∙ ap (λ c. with_file m fs p offset buf c a) (omega arith))

  copy_blocks_lem :
      (offset buf n : ℕ)
      → Outside fs lo buf n
      → offset + n ≤ load32 m (inode_at fs inode)
      → copy_blocks m fs
          (index_at fs inode)
          (offset / 4096)
          (offset % 4096)
          (source f.layout m offset)
          buf
          n
        ≡ some (n, with_file m fs (index_at fs inode) offset buf n)
  unfolding copy_blocks
  copy_blocks_lem offset buf n out le = elim (dec_le n (4096 - offset % 4096)) [
    | yes one ↦ rw (← one_block_read offset buf n out le (omega arith)) (ground arith)
    | no more ↦
        let e : u32 (buf + (4096 - offset % 4096)) ≡ buf + (4096 - offset % 4096) =
          omega (arith, out.fits) in
        rw (e, more_blocks_read offset buf n out le (omega arith)) (ground arith)
  ]

  read_span_lem :
      (offset buf n : ℕ)
      → Outside fs lo buf n
      → offset < load32 m (inode_at fs inode)
      → offset + n ≤ load32 m (inode_at fs inode)
      → read_span m fs (index_at fs inode) offset buf n
        ≡ some (n, with_file m fs (index_at fs inode) offset buf n)
  unfolding read_span
  read_span_lem offset buf n out lt le =
      let accepted : ltb fs.num_d_blocks (block_index m (index_at fs inode) (offset / 4096))
          ≡ false =
        ground (arith, f.indices (offset / 4096) (omega (arith, f.size_fits)) (omega arith)) in
      rw accepted (copy_blocks_lem offset buf n out le)

  read_extent_lem :
      (offset buf length : ℕ)
      → Outside fs lo buf (available m fs inode offset length)
      → read_extent m fs (load32 m (inode_at fs inode)) (index_at fs inode) offset buf length
        ≡ some (
          available m fs inode offset length,
          with_file m fs (index_at fs inode) offset buf (available m fs inode offset length),
        )
  unfolding read_extent
  read_extent_lem offset buf length out = elim (dec_lt offset (load32 m (inode_at fs inode))) [
    | yes lt ↦
        let open_file : leb (load32 m (inode_at fs inode)) offset ≡ false = ground arith in
        let e : (if ltb (load32 m (inode_at fs inode) - offset) length
              then load32 m (inode_at fs inode) - offset
              else length)
            ≡ available m fs inode offset length =
          ground arith in
        rw (open_file, e)
          (read_span_lem offset buf (available m fs inode offset length) out lt (omega arith))
    | no ge ↦
        let at_end : leb (load32 m (inode_at fs inode)) offset ≡ true = ground arith in
        let none_left : available m fs inode offset length ≡ 0 = omega arith in
        rw (at_end, none_left) (ap (λ (m₁ : Mem). some (0, m₁)) (fun_ext λ a. ground arith))
  ]

  -- For a file of a well-formed image and a buffer outside it, `read_data` returns how many bytes
  -- there are, up to `length`, puts exactly those bytes of the file into the buffer, and changes no
  -- other memory; at or past the end of the file that is no byte at all.
  pub read_data-available :
      (offset buf length : ℕ)
      → Outside fs lo buf (available m fs inode offset length)
      → read_data m fs inode offset buf length
        ≡ some (
          available m fs inode offset length,
          with_file m fs (index_at fs inode) offset buf (available m fs inode offset length),
        )
  unfolding read_data
  read_data-available offset buf length out =
      let n = available m fs inode offset length in
      let p = index_at fs inode in
      let e₁ : u32 (inode_at fs inode) ≡ inode_at fs inode =
        omega (arith, f.layout.index_fits, f.layout.blocks_fit) in
      let e₂ : u32 p ≡ p = omega (arith, f.layout.index_fits, f.layout.blocks_fit) in
      let accepted : leb (sub32 fs.num_inodes 1) inode ≡ false =
        ground (arith, f.in_range, f.few) in
      rw (e₁, e₂, accepted) (read_extent_lem offset buf length out)
