-- ===== src/Paging/Maps.antt =====
-- Where the page tables of student-distrib/paging.c put programs and screens.
use ece391_mp3_illinix.Prelude.{
  ℕ, zero, suc, ◌+◌, ◌*◌, ◌/◌, ◌%◌, max, ◌∙◌, ◌≤◌, ◌<◌, ◌≡◌, refl, ◌≢◌, inl, inr, true, arith, ◌==◌,
  if◌then◌else◌, Bool-cases, ==_iff, every_below, every_below_use,
}
use Prim.Native.Nat.{bit_or, digits, max, bit_or-bitwise}
use ece391_mp3_illinix.Console.Hidden.{saved_screen}
use ece391_mp3_illinix.Paging.{
  Paging, map_program, program_entry, map_user_video_to_buffer, user_page, vidmem_entry,
  write_entry,
}

-- The 4 MB frame of each pid.
abbrev pub frame : ℕ → ℕ
frame pid = 0x800000 + pid * 0x400000

program_entry-frame : (pid : ℕ) → pid < 6 → program_entry pid ≡ frame pid + 0x80 + 7
program_entry-frame pid h =
    (==_iff _ _).0 (every_below_use 6 (λ p. program_entry p == frame p + 0x80 + 7) pid table h)
  where
    table : every_below 6 (λ p. program_entry p == frame p + 0x80 + 7) ≡ true
    table = unfold every_below in refl

-- The program of each of the six pids gets 128 MB as one 4 MB page for the user at 8 MB + pid * 4 MB:
-- two programs never share a byte of memory, and every other entry of the directory is kept.
pub map_program-frame :
    (p : Paging) (pid : ℕ)
    → pid < 6
    → ((map_program p pid).page_directory 32 ≡ frame pid + 0x80 + 7)
      × ((i : ℕ) → i ≢ 32 → (map_program p pid).page_directory i ≡ p.page_directory i)
      × ((other : ℕ) → pid < other → frame pid + 0x400000 ≤ frame other)
unfolding map_program
map_program-frame p pid h =
    (program_entry-frame pid h, λ i ne. ground arith, λ other lt. omega arith)

saved_page : (t : ℕ) → t < 3 → user_page (0xB8000 + (t + 1) * 4096) ≡ saved_screen t + 7
saved_page zero h = refl
saved_page (suc zero) h = refl
saved_page (suc (suc zero)) h = refl
saved_page (suc (suc (suc t))) h = absurd (omega arith)

-- A bit that is clear in a number is added by `bit_or`.
or_none : (n a : ℕ) → a ≤ n → digits (λ b. b) max n a 0 ≡ a
or_none zero a h = omega arith
or_none (suc n) zero h = refl
or_none (suc n) (suc a) h = ground (arith, or_none n (suc a / 2) (omega arith))

or_one : (n a : ℕ) → a ≤ n → a % 2 ≡ 0 → digits (λ b. b) max n a 1 ≡ a + 1
or_one zero a h e = omega arith
or_one (suc n) zero h e = refl
or_one (suc n) (suc a) h e = ground (arith, or_none n (suc a / 2) (omega arith))

or_two : (n a : ℕ) → a ≤ n → a % 4 < 2 → digits (λ b. b) max n a 2 ≡ a + 2
or_two zero a h e = omega arith
or_two (suc n) zero h e = refl
or_two (suc n) (suc a) h e = ground (arith, or_one n (suc a / 2) (omega arith) (omega arith))

or_four : (n a : ℕ) → a ≤ n → a % 8 < 4 → digits (λ b. b) max n a 4 ≡ a + 4
or_four zero a h e = omega arith
or_four (suc n) zero h e = refl
or_four (suc n) (suc a) h e = ground (arith, or_two n (suc a / 2) (omega arith) (omega arith))

bit_or_lem : (a b : ℕ) → bit_or a b ≡ digits (λ b. b) max a a b
bit_or_lem a b = λ i. bit_or-bitwise a b i

-- The entry of the directory for a table at a whole page, with the flags for the user, for reading
-- and for writing.
vidmem_entry-aligned :
    (p : Paging)
    → p.page_table_vidmem_addr % 4096 ≡ 0
    → vidmem_entry p ≡ p.page_table_vidmem_addr + 7
vidmem_entry-aligned p h =
    let a = p.page_table_vidmem_addr in
    let first : bit_or 1 a ≡ a + 1 = bit_or_lem 1 a ∙ omega arith in
    let second : bit_or (a + 1) 2 ≡ a + 3 =
      bit_or_lem (a + 1) 2 ∙ or_two (a + 1) (a + 1) (omega arith) (omega arith) ∙ omega arith in
    rw (first, second)
      (bit_or_lem (a + 3) 4 ∙ or_four (a + 3) (a + 3) (omega arith) (omega arith) ∙ omega arith)

-- A table of pages with one entry changed.
set_entry : (table : ℕ → ℕ) (e entry i : ℕ) → i ≢ e → write_entry table e entry i ≡ table i
set_entry table e entry i ne = ground arith

-- For a terminal out of three, and `page_table_vidmem` at a whole page: the directory's entry for
-- 208 MB becomes the address of `page_table_vidmem` with the flags for the user, for reading and for
-- writing, and the first entry of that table becomes, with the same flags, the screen's address if the
-- terminal is shown and that of its saved screen if not. All other entries of both tables, and
-- `page_table`, are kept.
pub map_user_video_to_buffer-page :
    (p : Paging) (current t : ℕ)
    → t < 3
    → p.page_table_vidmem_addr % 4096 ≡ 0
    → ((map_user_video_to_buffer p current t).page_directory (0xD000000 / 0x400000)
        ≡ p.page_table_vidmem_addr + 7)
      × ((map_user_video_to_buffer p current t).page_table_vidmem 0
          ≡ (if t == current then 0xB8000 else saved_screen t) + 7)
      × ((i : ℕ)
          → i ≢ 0xD000000 / 0x400000
          → (map_user_video_to_buffer p current t).page_directory i ≡ p.page_directory i)
      × ((i : ℕ)
          → i ≢ 0
          → (map_user_video_to_buffer p current t).page_table_vidmem i ≡ p.page_table_vidmem i)
      × ((map_user_video_to_buffer p current t).page_table ≡ p.page_table)
unfolding map_user_video_to_buffer
map_user_video_to_buffer-page p current t h aligned = elim (Bool-cases (t == current)) [
  | inl e ↦ rw e (
    vidmem_entry-aligned p aligned,
    refl,
    λ i ne. set_entry p.page_directory 52 (vidmem_entry p) i ne,
    λ i ne. set_entry p.page_table_vidmem 0 _ i ne,
    refl,
  )
  | inr e ↦ rw e (
    vidmem_entry-aligned p aligned,
    saved_page t h,
    λ i ne. set_entry p.page_directory 52 (vidmem_entry p) i ne,
    λ i ne. set_entry p.page_table_vidmem 0 _ i ne,
    refl,
  )
]
