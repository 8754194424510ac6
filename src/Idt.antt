-- ===== src/Idt.antt =====
-- The interrupt table of student-distrib/idt.c, and the handlers of student-distrib/exception.c.
pub mod Gates
use ece391_mp3_illinix.Memory.{load32}
use ece391_mp3_illinix.Print.{printf, word}
use ece391_mp3_illinix.Console.{Screen}
use ece391_mp3_illinix.Text.{codes}
use ece391_mp3_illinix.Prelude.{
  ℕ, zero, suc, ◌+◌, ◌-◌, ◌*◌, ◌/◌, ◌%◌, ◌^◌, ◌≤◌, ◌<◌, min, max, ◌≡◌, refl, sym, ap, ap₂, ◌∙◌,
  fun_ext, subst, ◌≡⟨◌⟩◌, ◌∎, ◌≢◌, ◌↔◌, ◌⊎◌, inl, inr, Bool, true, false, not, ◌&&◌, ◌||◌, Option,
  none, some, List, [], ◌∷◌, ◌++◌, map, arith, dec_lt, dec_le, ℕ_discrete, ltb, leb, ◌==◌,
  if◌then◌else◌, Bool-cases, Option-cases, length, get_elem?, set, get_or, take, drop, replicate,
  length-set, get_or-set_self, get_or-set_ne, ◌>>=◌, ==_iff, every_below, every_below_use, same,
  same_sound,
}
use ece391_mp3_illinix.Word.{u8, u16, u32, sub32, minus_one, is_neg, slt, sle, sdiv, smod, sext8}

-- `idt_desc_t` of x86_desc.h.
pub record Gate : Type 0 where
  pub offset_15_00 : ℕ
  pub seg_selector : ℕ
  pub reserved4 : ℕ
  pub reserved3 : ℕ
  pub reserved2 : ℕ
  pub reserved1 : ℕ
  pub size : ℕ
  pub reserved0 : ℕ
  pub dpl : ℕ
  pub present : ℕ
  pub offset_31_16 : ℕ

-- The routines that the gates lead to; where the linker puts them is a parameter.
pub data Routine : Type 0 where
  divide_by_zero_exception debug_exception nmi_exception breakpoint_exception overflow_exception :
      Routine
  bound_range_exception invalid_opcode_exception device_not_available_exception : Routine
  double_fault_exception coprocessor_exception invalid_tss_exception : Routine
  segment_not_present_exception stack_fault_exception general_protection_exception : Routine
  page_fault_exception fpu_floating_point_exception alignment_check_exception : Routine
  machine_check_exception simd_floating_point_exception : Routine
  pit_assembly keyboard_assembly sb16_assembly rtc_assembly syscall_assembly : Routine

abbrev pub Idt : Type 0
Idt = ℕ → Gate

abbrev pub put_gate : Idt → ℕ → Gate → Idt
put_gate idt i g j = if i == j then g else idt j

-- `SET_IDT_ENTRY` for a handler at address `handler`.
abbrev pub set_idt_entry : Gate → ℕ → Gate
set_idt_entry g handler = record g {
  offset_31_16 = u32 handler / 2 ^ 16;
  offset_15_00 = handler % 2 ^ 16;
}

-- Whether a vector is one of the four devices.
abbrev pub is_device : ℕ → Bool
is_device i = i == 0x20 || i == 0x28 || i == 0x21 || i == 0x25

-- The body of the loop of `init_idt`: the exceptions, the system call and the devices are present.
unfoldable pub init_gate : ℕ → Gate → Gate
init_gate i g =
    let exception = ltb i 0x14 in
    let system_call = i == 0x80 in
    record g {
      seg_selector = 0x10;
      reserved4 = 0;
      reserved3 = if exception || system_call then 1 else 0;
      reserved2 = 1;
      reserved1 = 1;
      size = 1;
      reserved0 = 0;
      dpl = if system_call then 3 else 0;
      present = if exception || system_call || is_device i then 1 else 0;
    }

-- The loop from vector `i` on, with `k` vectors left.
unfoldable pub init_gates : Idt → ℕ → ℕ → Idt
init_gates idt i zero = idt
init_gates idt i (suc k) = init_gates (put_gate idt i (init_gate i (idt i))) (i + 1) k

-- The vectors that get a handler, in the order of the code.
abbrev pub entries : List (ℕ × Routine)
entries =
    (0x00, divide_by_zero_exception)
    ∷ (0x01, debug_exception)
    ∷ (0x02, nmi_exception)
    ∷ (0x03, breakpoint_exception)
    ∷ (0x04, overflow_exception)
    ∷ (0x05, bound_range_exception)
    ∷ (0x06, invalid_opcode_exception)
    ∷ (0x07, device_not_available_exception)
    ∷ (0x08, double_fault_exception)
    ∷ (0x09, coprocessor_exception)
    ∷ (0x0A, invalid_tss_exception)
    ∷ (0x0B, segment_not_present_exception)
    ∷ (0x0C, stack_fault_exception)
    ∷ (0x0D, general_protection_exception)
    ∷ (0x0E, page_fault_exception)
    ∷ (0x10, fpu_floating_point_exception)
    ∷ (0x11, alignment_check_exception)
    ∷ (0x12, machine_check_exception)
    ∷ (0x13, simd_floating_point_exception)
    ∷ (0x20, pit_assembly)
    ∷ (0x21, keyboard_assembly)
    ∷ (0x25, sb16_assembly)
    ∷ (0x28, rtc_assembly)
    ∷ (0x80, syscall_assembly)
    ∷ []

unfoldable pub set_entries : (Routine → ℕ) → Idt → List (ℕ × Routine) → Idt
set_entries address idt [] = idt
set_entries address idt ((i, r) ∷ rest) =
    set_entries address (put_gate idt i (set_idt_entry (idt i) (address r))) rest

-- `init_idt`, but for the load of the table's register.
unfoldable pub init_idt : (Routine → ℕ) → Idt → Idt
init_idt address idt = set_entries address (init_gates idt 0 256) entries

-- The message of an exception.
unfoldable pub message : Routine → List ℕ
message divide_by_zero_exception = codes "EXCEPTION: divide_by_zero_exception!\n"
message debug_exception = codes "EXCEPTION: debug_exception!\n"
message nmi_exception = codes "EXCEPTION: nmi_exception!\n"
message breakpoint_exception = codes "EXCEPTION: breakpoint_exception!\n"
message overflow_exception = codes "EXCEPTION: overflow_exception!\n"
message bound_range_exception = codes "EXCEPTION: bound_range_exception!\n"
message invalid_opcode_exception = codes "EXCEPTION: invalid_opcode_exception!\n"
message device_not_available_exception = codes "EXCEPTION: device_not_available_exception!\n"
message double_fault_exception = codes "EXCEPTION: double_fault_exception!\n"
message coprocessor_exception = codes "EXCEPTION: coprocessor_exception!\n"
message invalid_tss_exception = codes "EXCEPTION: invalid_tss_exception!\n"
message segment_not_present_exception = codes "EXCEPTION: segment_not_present_exception!\n"
message stack_fault_exception = codes "EXCEPTION: stack_fault_exception!\n"
message general_protection_exception = codes "EXCEPTION: general_protection_exception!\n"
message page_fault_exception = codes "EXCEPTION: page_fault_exception!\n"
message fpu_floating_point_exception = codes "EXCEPTION: fpu_floating_point_exception!\n"
message alignment_check_exception = codes "EXCEPTION: alignment_check_exception!\n"
message machine_check_exception = codes "EXCEPTION: machine_check_exception!\n"
message simd_floating_point_exception = codes "EXCEPTION: simd_floating_point_exception!\n"
message _ = []

-- `print_exception`: the screen on which the processor then stays, in `while(1)`.
unfoldable pub print_exception : Screen → List ℕ → Option Screen
print_exception s str = printf s str [] >>= λ p. some p.1

-- `page_fault_exception`, with `cr2` and the stack pointer at its entry.
unfoldable pub page_fault : Screen → ℕ → ℕ → Option Screen
unfolding print_exception
page_fault s cr2 esp =
    let val = load32 s.mem (sub32 esp 12) in
    printf s (codes "exception occur at address: 0x%x\n") (word cr2 ∷ []) >>= λ p.
    printf p.1 (codes "user esp at address: 0x%x\n") (word val ∷ []) >>= λ q.
    print_exception q.1 (message page_fault_exception)
