-- ===== src/Tests/Boots.antt =====
-- The start of the kernel on a machine of zeros.
use ece391_mp3_illinix.Boot.Descriptors.{ldt_entry, tss_entry}
use ece391_mp3_illinix.Boot.Ready.{Ready}
use ece391_mp3_illinix.Boot.Devices.{Machine, Linked}
use ece391_mp3_illinix.Tests.Calls.{kernel}
use ece391_mp3_illinix.Tests.Devices.{pic}
use ece391_mp3_illinix.Tests.Traps.{no_gate, linked, song}

abbrev machine : Machine
machine = record {
  kernel = kernel 2 0;
  pic = pic;
  idt = λ i. no_gate;
  sound = song;
  fs_start_addr = 0x500000;
  ldt_desc_ptr = ldt_entry 0 0;
  tss_desc_ptr = tss_entry 0 0;
  ldt_segment_selector = 0;
  ss0 = 0;
  lldt = 0;
  ltr = 0;
}

abbrev links : Linked
links = record {
  routine = linked;
  ldt = 0x402000;
  ldt_size = 79;
  tss = 0x403000;
  tss_size = 103;
  divisor = 0x7FFF00;
  register_b = 2;
  cursor_low = 0;
  cursor_high = 0;
}
