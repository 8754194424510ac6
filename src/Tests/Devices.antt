-- ===== src/Tests/Devices.antt =====
-- The theorems on the devices and the page tables at concrete states.
use ece391_mp3_illinix.Prelude.{
  ℕ, ◌+◌, ◌*◌, ◌≤◌, ◌<◌, ◌≡◌, refl, ◌≢◌, true, false, some, [], ◌∷◌, arith, ◌==◌, if◌then◌else◌,
  ◌/◌,
}
use ece391_mp3_illinix.Rtc.{Channel, Rtc, divide_error, rtc_set_freq, rtc_read}
use ece391_mp3_illinix.Rtc.Virtual.{ticks, ticks_period, rtc_read_returns}
use ece391_mp3_illinix.Pic.{Pic, enable_irq, disable_irq}
use ece391_mp3_illinix.Pic.Lines.{masked, IsPic, irqs-masked}
use ece391_mp3_illinix.Paging.{Paging, map_program, map_user_video_to_buffer}
use ece391_mp3_illinix.Paging.Maps.{frame, map_program-frame, map_user_video_to_buffer-page}

-- Three interrupts before the second of the three terminals gets one.
abbrev channel : Channel
channel = record { itr_occur = 0; counter = 0; constant = 4 }

abbrev waiting : Channel
waiting = record { itr_occur = 0; counter = 1; constant = 4 }

abbrev rtc : Rtc
rtc = channel ∷ waiting ∷ channel ∷ []

at_zero : rtc_set_freq rtc 1 0 ≡ some divide_error
unfolding rtc_set_freq
at_zero = refl

ticks_period_example :
    ((n : ℕ) → n < 4 → (ticks n channel).itr_occur ≡ 0)
    × (ticks 4 channel ≡ record channel { counter = 0; itr_occur = 1 })
ticks_period_example = ticks_period channel refl (omega arith) (omega arith)

rtc_read_returns_example : (rtc' : Rtc) × (rtc_read 3 rtc 1 ≡ some (0, rtc'))
rtc_read_returns_example =
    rtc_read_returns 3 rtc 1 (omega arith) (omega arith) (omega arith) (omega arith)

abbrev pub pic : Pic
pic = record { master_mask = 0xFB; slave_mask = 0xFF; ports = [] }

pic-IsPic : IsPic pic
pic-IsPic = omega arith

irqs-masked_example :
    (masked (enable_irq pic 8) 8 ≡ (if 8 == 8 then false else masked pic 8))
    × IsPic (enable_irq pic 8)
    × (masked (disable_irq pic 8) 8 ≡ (if 8 == 8 then true else masked pic 8))
    × IsPic (disable_irq pic 8)
irqs-masked_example = irqs-masked pic 8 8 pic-IsPic (omega arith)

abbrev paging : Paging
paging = record {
  page_directory = λ i. 2;
  page_table = λ i. 2;
  page_table_vidmem = λ i. 2;
  page_table_addr = 0x420000;
  page_table_vidmem_addr = 0x421000;
}

map_program-frame_example :
    ((map_program paging 1).page_directory 32 ≡ frame 1 + 0x80 + 7)
    × ((i : ℕ) → i ≢ 32 → (map_program paging 1).page_directory i ≡ 2)
    × ((other : ℕ) → 1 < other → frame 1 + 0x400000 ≤ frame other)
map_program-frame_example = map_program-frame paging 1 (omega arith)

abbrev mapped : Paging
mapped = map_user_video_to_buffer paging 0 2

map_user_video_to_buffer-page_example :
    (mapped.page_directory (0xD000000 / 0x400000) ≡ 0x421000 + 7)
    × (mapped.page_table_vidmem 0 ≡ (if 2 == 0 then 0xB8000 else 0xB8000 + 3 * 4096) + 7)
    × ((i : ℕ) → i ≢ 0xD000000 / 0x400000 → mapped.page_directory i ≡ 2)
    × ((i : ℕ) → i ≢ 0 → mapped.page_table_vidmem i ≡ 2)
    × (mapped.page_table ≡ paging.page_table)
map_user_video_to_buffer-page_example =
    map_user_video_to_buffer-page paging 0 2 (omega arith) (omega arith)
