-- ===== src/Paging.antt =====
-- The page tables of student-distrib/paging.c. Loading them into the processor (cr0, cr3, cr4) and
-- flushing its buffer are left out.
pub mod Maps
use ece391_mp3_illinix.Prelude.{
  ℕ, zero, suc, ◌+◌, ◌-◌, ◌*◌, ◌/◌, ◌%◌, ◌^◌, ◌≤◌, ◌<◌, min, max, ◌≡◌, refl, sym, ap, ap₂, ◌∙◌,
  fun_ext, subst, ◌≡⟨◌⟩◌, ◌∎, ◌≢◌, ◌↔◌, ◌⊎◌, inl, inr, Bool, true, false, not, ◌&&◌, ◌||◌, Option,
  none, some, List, [], ◌∷◌, ◌++◌, map, arith, dec_lt, dec_le, ℕ_discrete, ltb, leb, ◌==◌,
  if◌then◌else◌, Bool-cases, Option-cases, length, get_elem?, set, get_or, take, drop, replicate,
  length-set, ◌>>=◌, ==_iff, every_below, every_below_use, same, same_sound,
}
use ece391_mp3_illinix.Word.{u8, u16, u32, sub32, minus_one, is_neg, slt, sle, sdiv, smod, sext8}
use Prim.Native.Nat.{bit_and, bit_or}
use ece391_mp3_illinix.Console.Hidden.{saved_screen}

-- The three tables by entry, and the addresses that the linker gave two of them.
pub record Paging : Type 0 where
  pub page_directory : ℕ → ℕ
  pub page_table : ℕ → ℕ
  pub page_table_vidmem : ℕ → ℕ
  pub page_table_addr : ℕ
  pub page_table_vidmem_addr : ℕ

abbrev pub write_entry : (ℕ → ℕ) → ℕ → ℕ → ℕ → ℕ
write_entry table i entry j = if i == j then entry else table j

abbrev pub present_mask : ℕ
present_mask = 0x1

abbrev pub r_w_mask : ℕ
r_w_mask = 0x2

abbrev pub u_s_mask : ℕ
u_s_mask = 0x4

abbrev pub ps_mask : ℕ
ps_mask = 0x80

abbrev pub video_offset : ℕ
video_offset = 0xB8000

abbrev pub kernel_offset : ℕ
kernel_offset = 0x400000

abbrev pub page_mask : ℕ
page_mask = 0xFFFFF000

-- 208 MB, and its place in the page directory.
abbrev pub user_video : ℕ
user_video = 0x8000000 + 0x800000 * 10

abbrev pub user_video_entry : ℕ
user_video_entry = user_video / 2 ^ 22

-- 128 MB / 4 MB.
abbrev pub program_virtual : ℕ
program_virtual = 32

unfoldable pub map_kernel : Paging → Paging
map_kernel p =
    let entry = bit_or (bit_or (bit_or 0 present_mask) ps_mask) (bit_and kernel_offset page_mask) in
    record p { page_directory = write_entry p.page_directory 1 entry }

unfoldable pub initialize_page_table : Paging → Paging
initialize_page_table p =
    let entry = bit_or (bit_or 0 present_mask) (bit_and p.page_table_addr page_mask) in
    record p { page_directory = write_entry p.page_directory 0 entry }

-- A page of the kernel at its own address.
abbrev pub own_page : (ℕ → ℕ) → ℕ → ℕ → ℕ
own_page table addr =
    write_entry table (addr / 2 ^ 12) (bit_or (bit_or (bit_or 0 present_mask) addr) r_w_mask)

unfoldable pub map_video : Paging → Paging
map_video p = record p {
  page_table =
      own_page
        (own_page (own_page (own_page p.page_table video_offset) (video_offset + 4096))
          (video_offset + 2 * 4096))
        (video_offset + 3 * 4096);
}

-- The directory entry for 208 MB, which points to `page_table_vidmem`.
abbrev pub vidmem_entry : Paging → ℕ
vidmem_entry p =
    bit_or (bit_or (bit_or (bit_or 0 present_mask) p.page_table_vidmem_addr) r_w_mask) u_s_mask

-- A page of the user at a physical address.
abbrev pub user_page : ℕ → ℕ
user_page addr = bit_or (bit_or (bit_or (bit_or 0 u_s_mask) r_w_mask) present_mask) addr

unfoldable pub map_user_video : Paging → Paging
map_user_video p = record p {
  page_directory = write_entry p.page_directory user_video_entry (vidmem_entry p);
  page_table_vidmem = write_entry p.page_table_vidmem 0 (user_page video_offset);
}

unfoldable pub map_terminal_video : Paging → ℕ → Paging
map_terminal_video p terminal_id = record p {
  page_directory = write_entry p.page_directory user_video_entry (vidmem_entry p);
  page_table_vidmem =
      write_entry p.page_table_vidmem 0 (user_page (video_offset + (terminal_id + 1) * 4096));
}

unfoldable pub map_user_video_to_buffer : Paging → ℕ → ℕ → Paging
unfolding map_user_video map_terminal_video
map_user_video_to_buffer p current_terminal terminal_id =
    if terminal_id == current_terminal then map_user_video p else map_terminal_video p terminal_id

-- A page of 4 MB for the program with a pid.
abbrev pub program_entry : ℕ → ℕ
program_entry pid =
    bit_or (bit_or (bit_or (bit_or (bit_or 0 present_mask) ps_mask) u_s_mask) r_w_mask)
      (u32 (pid * 0x400000 + 0x800000))

unfoldable pub map_program : Paging → ℕ → Paging
map_program p pid = record p {
  page_directory = write_entry p.page_directory program_virtual (program_entry pid);
}

-- The two loops of `init_page`, from entry `i` on with `k` entries left.
pub init_directory : (ℕ → ℕ) → ℕ → ℕ → ℕ → ℕ
init_directory table i zero = table
init_directory table i (suc k) = init_directory (write_entry table i (bit_or 0 r_w_mask)) (i + 1) k

pub init_table : (ℕ → ℕ) → ℕ → ℕ → ℕ → ℕ → ℕ
init_table table i base_add zero = table
init_table table i base_add (suc k) =
    init_table (write_entry table i (bit_or (bit_or 0 r_w_mask) base_add)) (i + 1)
      (u32 (base_add + 4096)) k

-- `init_page` up to the registers.
unfoldable pub init_page : Paging → Paging
unfolding init_directory init_table map_kernel initialize_page_table map_video
init_page p = map_video (
    initialize_page_table (
      map_kernel (record p {
        page_directory = init_directory p.page_directory 0 1024;
        page_table = init_table p.page_table 0 0 1024;
      })))
