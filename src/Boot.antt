-- ===== src/Boot.antt =====
-- The start of the kernel: `entry` of student-distrib/kernel.c.
pub mod Descriptors
pub mod Report
pub mod Devices
pub mod Ready
use ece391_mp3_illinix.Print.{word}
use ece391_mp3_illinix.Text.{codes}
use ece391_mp3_illinix.Terminal.Switch.{init_terminal}
use ece391_mp3_illinix.Console.Paint.{clear}
use ece391_mp3_illinix.Execute.{execute, Frame, returned, enters}
use ece391_mp3_illinix.Boot.Report.{report_flags, find_modules, print, report_maps, check_flag}
use ece391_mp3_illinix.Boot.Devices.{Linked, Machine, init_devices, set_segments, on_screen}
use ece391_mp3_illinix.Sound.Play.{PlayFrame, play_music}
use ece391_mp3_illinix.Prelude.{
  ℕ, zero, suc, ◌+◌, ◌-◌, ◌*◌, ◌/◌, ◌%◌, ◌^◌, ◌≤◌, ◌<◌, min, max, ◌≡◌, refl, sym, ap, ap₂, ◌∙◌,
  fun_ext, subst, ◌≡⟨◌⟩◌, ◌∎, ◌≢◌, ◌↔◌, ◌⊎◌, inl, inr, Bool, true, false, not, ◌&&◌, ◌||◌, Option,
  none, some, List, [], ◌∷◌, ◌++◌, map, arith, dec_lt, dec_le, ℕ_discrete, ltb, leb, ◌==◌,
  if◌then◌else◌, Bool-cases, Option-cases, length, get_elem?, set, get_or, take, drop, replicate,
  length-set, get_or-set_self, get_or-set_ne, ◌>>=◌, ==_iff, every_below, every_below_use, same,
  same_sound,
}
use ece391_mp3_illinix.Word.{u8, u16, u32, sub32, minus_one, is_neg, slt, sle, sdiv, smod, sext8}

-- Where the linker put the array of the keys and the strings "testaudio" and "shell", and the locals
-- of `play_music`, and of `execute` as `init_terminal` and as `entry` call it.
pub record Shells : Type 0 where
  pub key_arr_all : ℕ
  pub testaudio : ℕ
  pub shell : ℕ
  pub play_frame : PlayFrame
  pub terminal_frame : Frame
  pub entry_frame : Frame

-- How `entry` ends: it returns, a program is entered, or it spins.
pub data Booted : Type 0 where
  stops : Machine → Booted
  runs : ℕ → Machine → Booted
  spins : Machine → Booted

-- The end of `entry`: the second call of `execute`, and the spin behind it.
unfoldable pub run_shell : Shells → Machine → Option Booted
run_shell h m = execute m.kernel h.entry_frame h.shell >>= λ e. elim e [
  | returned r k ↦ some (spins (record m { kernel = k }))
  | enters address k ↦ some (runs address (record m { kernel = k }))
]

-- From `play_music` on; the first call of `execute` is the one of `init_terminal`.
unfoldable pub start_terminals : Shells → Machine → Option Booted
unfolding run_shell
start_terminals h m = play_music m.kernel m.sound h.play_frame h.testaudio >>= λ r.
    (let m₁ = record m { kernel = init_terminal r.1 h.key_arr_all; sound = r.2 } in
      execute m₁.kernel h.terminal_frame h.shell >>= λ e. elim e [
        | returned status k ↦ run_shell h (record m₁ { kernel = k })
        | enters address k ↦ some (runs address (record m₁ { kernel = k }))
      ])

-- `entry` behind the report.
unfoldable pub start_kernel : Linked → Shells → Machine → Option Booted
unfolding start_terminals
start_kernel l h m = init_devices l (set_segments l m) >>= start_terminals h

-- `entry` on a structure at `addr`, for a memory map of at most `fuel` entries.
unfoldable pub report_and_start : ℕ → Linked → Shells → Machine → ℕ → Option Booted
unfolding start_kernel
report_and_start fuel l h m addr =
    report_flags addr m.kernel.screen >>= find_modules addr m.fs_start_addr >>= λ r.
    (let both = print r.1 (codes "Both bits 4 and 5 are set.\n") [] >>= λ s.
    some (stops (on_screen (record m { fs_start_addr = r.0 }) s)) in
      let start = report_maps fuel addr r.1 >>= λ s.
      start_kernel l h (on_screen (record m { fs_start_addr = r.0 }) s) in
      if check_flag r.1 addr 4 && check_flag r.1 addr 5 then both else start)

unfoldable pub entry : ℕ → Linked → Shells → Machine → ℕ → ℕ → Option Booted
unfolding report_and_start
entry fuel l h m magic addr =
    let s = clear m.kernel.screen in
    let invalid = print s (codes "Invalid magic number: 0x%#x\n") (word magic ∷ []) >>= λ s₁.
    some (stops (on_screen m s₁)) in
    if not (magic == 0x2BADB002) then invalid else report_and_start fuel l h (on_screen m s) addr
