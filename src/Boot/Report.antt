-- ===== src/Boot/Report.antt =====
-- What `entry` of student-distrib/kernel.c prints of the structures of student-distrib/multiboot.h,
-- which a boot loader has left in memory.
use ece391_mp3_illinix.Sound.Play.{bytes_at}
use ece391_mp3_illinix.Memory.{load32}
use ece391_mp3_illinix.Print.{Arg, printf, word, text}
use Prim.Native.Nat.{bit_and}
use ece391_mp3_illinix.Text.{codes, strlen}
use ece391_mp3_illinix.Console.{Screen}
use ece391_mp3_illinix.Prelude.{
  ℕ, zero, suc, ◌+◌, ◌^◌, Bool, not, Option, none, some, List, [], ◌∷◌, ltb, ◌==◌, if◌then◌else◌,
  ◌>>=◌,
}
use ece391_mp3_illinix.Word.{u32, sext8}

abbrev pub print : Screen → List ℕ → List Arg → Option Screen
print s fmt args = printf s fmt args >>= λ p. some p.1

-- The fields of `multiboot_info_t` at `mbi`.
abbrev pub info_field : Screen → ℕ → ℕ → ℕ
info_field s mbi offset = load32 s.mem (u32 (mbi + offset))

abbrev pub flags : Screen → ℕ → ℕ
flags s mbi = info_field s mbi 0

-- `CHECK_FLAG(mbi->flags, bit)` as a test.
abbrev pub check_flag : Screen → ℕ → ℕ → Bool
check_flag s mbi bit = not (bit_and (flags s mbi) (2 ^ bit) == 0)

-- A line that is printed where a flag is set.
abbrev pub under_flag : ℕ → ℕ → (Screen → Option Screen) → Screen → Option Screen
under_flag mbi bit f s = if check_flag s mbi bit then f s else some s

unfoldable pub report_flags : ℕ → Screen → Option Screen
report_flags mbi s =
    print s (codes "flags = 0x%#x\n") (word (flags s mbi) ∷ [])
    >>= under_flag mbi 0 (λ (s : Screen).
      print s (codes "mem_lower = %uKB, mem_upper = %uKB\n")
        (word (info_field s mbi 4) ∷ word (info_field s mbi 8) ∷ []))
    >>= under_flag mbi 1
        (λ (s : Screen). print s (codes "boot_device = 0x%#x\n") (word (info_field s mbi 12) ∷ []))
    >>= under_flag mbi 2 (λ (s : Screen). strlen s.mem (info_field s mbi 16) >>= λ len.
        print s (codes "cmdline = %s\n") (text (bytes_at s.mem (info_field s mbi 16) len) ∷ []))

-- The first bytes of a module, with `rest` of the 16 still to come; `char` is signed.
unfoldable pub report_bytes : ℕ → ℕ → ℕ → Screen → Option Screen
report_bytes mod_at i zero s = some s
report_bytes mod_at i (suc rest) s =
    print s (codes "0x%x ") (word (sext8 (s.mem (u32 (load32 s.mem mod_at + i)))) ∷ [])
    >>= report_bytes mod_at (i + 1) rest

-- The body of the loop over the modules; `mod_at` is the address of a `module_t`.
unfoldable pub report_module : ℕ → ℕ → Screen → Option Screen
unfolding report_bytes
report_module mod_count mod_at s =
    print s (codes "Module %d loaded at address: 0x%#x\n")
      (word mod_count ∷ word (load32 s.mem mod_at) ∷ [])
    >>= λ s₁.
        print s₁ (codes "Module %d ends at address: 0x%#x\n")
          (word mod_count ∷ word (load32 s₁.mem (u32 (mod_at + 4))) ∷ [])
        >>= λ s₂.
            print s₂ (codes "First few bytes of module:\n") []
            >>= report_bytes mod_at 0 16
            >>= λ s₃. print s₃ (codes "\n") []

-- The loop, which reads the number of modules each time; 2 ^ 32 rounds are all that a count has.
unfoldable pub report_modules : ℕ → ℕ → ℕ → ℕ → Screen → Option Screen
unfolding report_module
report_modules zero mbi mod_count mod_at s = none
report_modules (suc fuel) mbi mod_count mod_at s =
    let more =
      report_module mod_count mod_at s
      >>= report_modules fuel mbi (u32 (mod_count + 1)) (u32 (mod_at + 16)) in
    if ltb mod_count (info_field s mbi 20) then more else some s

-- The part under flag 3, which also sets `fs_start_addr`.
unfoldable pub find_modules : ℕ → ℕ → Screen → Option (ℕ × Screen)
find_modules mbi fs_start_addr s =
    let mod_at = info_field s mbi 24 in
    let found = report_modules (2 ^ 32) mbi 0 mod_at s >>= λ s₁. some (load32 s.mem mod_at, s₁) in
    if check_flag s mbi 3 then found else some (fs_start_addr, s)

abbrev map_format : List ℕ
map_format = codes "    size = 0x%x, base_addr = 0x%#x%#x\n    type = 0x%x,  length    = 0x%#x%#x\n"

-- The loop over the memory map, from the entry at `mmap` on, for at most `fuel` entries: an entry
-- whose size leads back keeps the code in the loop.
unfoldable pub report_map : ℕ → ℕ → ℕ → Screen → Option Screen
report_map zero mbi mmap s = none
report_map (suc fuel) mbi mmap s =
    let m = s.mem in
    let next =
      print s map_format (
        word (load32 m mmap)
        ∷ word (load32 m (u32 (mmap + 8)))
        ∷ word (load32 m (u32 (mmap + 4)))
        ∷ word (load32 m (u32 (mmap + 20)))
        ∷ word (load32 m (u32 (mmap + 16)))
        ∷ word (load32 m (u32 (mmap + 12)))
        ∷ [])
      >>= λ s₁. report_map fuel mbi (u32 (mmap + load32 s₁.mem mmap + 4)) s₁ in
    if ltb mmap (u32 (info_field s mbi 48 + info_field s mbi 44)) then next else some s

-- The parts under flags 5 and 6.
unfoldable pub report_maps : ℕ → ℕ → Screen → Option Screen
unfolding report_map
report_maps fuel mbi s =
    under_flag mbi 5
      (λ (s : Screen).
        print s (codes "elf_sec: num = %u, size = 0x%#x, addr = 0x%#x, shndx = 0x%#x\n") (
          word (info_field s mbi 28)
          ∷ word (info_field s mbi 32)
          ∷ word (info_field s mbi 36)
          ∷ word (info_field s mbi 40)
          ∷ []))
      s
    >>= under_flag mbi 6 (λ (s : Screen).
      print s (codes "mmap_addr = 0x%#x, mmap_length = 0x%x\n")
        (word (info_field s mbi 48) ∷ word (info_field s mbi 44) ∷ [])
      >>= λ s₁. report_map fuel mbi (info_field s₁ mbi 48) s₁)
