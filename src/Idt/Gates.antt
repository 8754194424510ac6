-- ===== src/Idt/Gates.antt =====
-- The gates that init_idt of student-distrib/idt.c leaves.
use ece391_mp3_illinix.Idt.{
  divide_by_zero_exception, debug_exception, nmi_exception, breakpoint_exception,
  overflow_exception, bound_range_exception, invalid_opcode_exception,
  device_not_available_exception, double_fault_exception, coprocessor_exception,
  invalid_tss_exception, segment_not_present_exception, stack_fault_exception,
  general_protection_exception, page_fault_exception, fpu_floating_point_exception,
  alignment_check_exception, machine_check_exception, simd_floating_point_exception, pit_assembly,
  keyboard_assembly, sb16_assembly, rtc_assembly, syscall_assembly, init_gates, Idt, init_gate,
  put_gate, Gate, set_entries, init_idt, Routine, set_idt_entry, entries, is_device,
}
use ece391_mp3_illinix.Prelude.{
  ℕ, zero, suc, ◌+◌, ◌*◌, ◌/◌, ◌%◌, ◌^◌, ◌<◌, ◌≡◌, refl, ap, ◌∙◌, subst, ◌↔◌, ◌⊎◌, true, false,
  ◌&&◌, List, [], ◌∷◌, arith, ℕ_discrete, ltb, leb, ◌==◌, if◌then◌else◌, if_true, if_false,
}
use ece391_mp3_illinix.Word.{u32}

init_gates_lem :
    (k : ℕ) (idt : Idt) (i j : ℕ)
    → init_gates idt i k j ≡ (if leb i j && ltb j (i + k) then init_gate j (idt j) else idt j)
unfolding init_gates
init_gates_lem zero idt i j = ground arith
init_gates_lem (suc k) idt i j =
    init_gates_lem k (put_gate idt i (init_gate i (idt i))) (i + 1) j ∙ one_more
  where
    one_more :
        (if leb (i + 1) j && ltb j (i + 1 + k)
          then init_gate j (put_gate idt i (init_gate i (idt i)) j)
          else put_gate idt i (init_gate i (idt i)) j)
        ≡ (if leb i j && ltb j (i + suc k) then init_gate j (idt j) else idt j)
    one_more = elim (ℕ_discrete i j) [
      | yes e ↦
          subst
            (λ j.
              (if leb (i + 1) j && ltb j (i + 1 + k)
                then init_gate j (put_gate idt i (init_gate i (idt i)) j)
                else put_gate idt i (init_gate i (idt i)) j)
              ≡ (if leb i j && ltb j (i + suc k) then init_gate j (idt j) else idt j))
            e (ground arith)
      | no ne ↦ ground arith
    ]

-- What the processor checks of a gate before it goes to its target: whether it is there, who may call
-- it, and whether interrupts stay on.
abbrev attributes : Gate → ℕ × ℕ × ℕ
attributes g = (g.present, g.dpl, g.reserved3)

set_entries-attributes :
    (address : Routine → ℕ) (es : List (ℕ × Routine)) (idt : Idt) (j : ℕ)
    → attributes (set_entries address idt es j) ≡ attributes (idt j)
unfolding set_entries
set_entries-attributes address [] idt j = refl
set_entries-attributes address ((i, r) ∷ rest) idt j =
    set_entries-attributes address rest (put_gate idt i (set_idt_entry (idt i) (address r))) j
    ∙ elim (ℕ_discrete i j) [
      | yes e ↦
          subst
            (λ j.
              attributes (put_gate idt i (set_idt_entry (idt i) (address r)) j)
              ≡ attributes (idt j))
            e (let t : (i == i) ≡ true = ground arith in ap attributes (if_true t _ _))
      | no ne ↦ let t : (i == j) ≡ false = ground arith in ap attributes (if_false t _ _)
    ]

init_idt-attributes :
    (address : Routine → ℕ) (idt : Idt) (i : ℕ)
    → i < 256
    → attributes (init_idt address idt i) ≡ attributes (init_gate i (idt i))
unfolding init_idt
init_idt-attributes address idt i h =
    let t : (leb 0 i && ltb i (0 + 256)) ≡ true = ground arith in
    set_entries-attributes address entries (init_gates idt 0 256) i
    ∙ ap attributes (init_gates_lem 256 idt 0 i ∙ if_true t _ _)

-- After `init_idt`, whatever the table held and wherever the handlers lie, user code can call the gate
-- of one vector only, 0x80; the gates that are there are the first 20, the four devices and 0x80; and
-- interrupts stay on across the first 20 and 0x80 only.
pub init_idt-protection :
    (address : Routine → ℕ) (idt : Idt) (i : ℕ)
    → i < 256
    → (((init_idt address idt i).dpl ≡ 3) ↔ (i ≡ 0x80))
      × (((init_idt address idt i).present ≡ 1) ↔ ((i < 20) ⊎ ((is_device i ≡ true) ⊎ (i ≡ 0x80))))
      × (((init_idt address idt i).reserved3 ≡ 1) ↔ ((i < 20) ⊎ (i ≡ 0x80)))
unfolding init_gate
init_idt-protection address idt i h =
    let e = init_idt-attributes address idt i h in
    let a : (init_idt address idt i).present ≡ (init_gate i (idt i)).present = ap (λ p. p.0) e in
    let b : (init_idt address idt i).dpl ≡ (init_gate i (idt i)).dpl = ap (λ p. p.1) e in
    let c : (init_idt address idt i).reserved3 ≡ (init_gate i (idt i)).reserved3 =
      ap (λ p. p.2) e in
    rw (a, b, c) (ground arith, ground arith, ground arith)

-- The vector of each routine, from the constants of idt.h.
unfoldable pub vector_of : Routine → ℕ
vector_of divide_by_zero_exception = 0x00
vector_of debug_exception = 0x01
vector_of nmi_exception = 0x02
vector_of breakpoint_exception = 0x03
vector_of overflow_exception = 0x04
vector_of bound_range_exception = 0x05
vector_of invalid_opcode_exception = 0x06
vector_of device_not_available_exception = 0x07
vector_of double_fault_exception = 0x08
vector_of coprocessor_exception = 0x09
vector_of invalid_tss_exception = 0x0A
vector_of segment_not_present_exception = 0x0B
vector_of stack_fault_exception = 0x0C
vector_of general_protection_exception = 0x0D
vector_of page_fault_exception = 0x0E
vector_of fpu_floating_point_exception = 0x10
vector_of alignment_check_exception = 0x11
vector_of machine_check_exception = 0x12
vector_of simd_floating_point_exception = 0x13
vector_of pit_assembly = 0x20
vector_of keyboard_assembly = 0x21
vector_of sb16_assembly = 0x25
vector_of rtc_assembly = 0x28
vector_of syscall_assembly = 0x80

-- Where the processor goes through a gate.
abbrev pub target : Gate → ℕ
target g = g.offset_31_16 * 2 ^ 16 + g.offset_15_00

joined : (a : ℕ) → a < 2 ^ 32 → u32 a / 2 ^ 16 * 2 ^ 16 + a % 2 ^ 16 ≡ a
joined a h = omega arith

-- After `init_idt` the gate of each of the 24 vectors leads to the routine that idt.h and exception.h
-- name for it, wherever below 4 GB the linker has put it.
pub init_idt-target :
    (address : Routine → ℕ) (idt : Idt) (r : Routine)
    → address r < 2 ^ 32
    → target (init_idt address idt (vector_of r)) ≡ address r
unfolding init_idt set_entries vector_of
init_idt-target address idt divide_by_zero_exception h = joined (address divide_by_zero_exception) h
init_idt-target address idt debug_exception h = joined (address debug_exception) h
init_idt-target address idt nmi_exception h = joined (address nmi_exception) h
init_idt-target address idt breakpoint_exception h = joined (address breakpoint_exception) h
init_idt-target address idt overflow_exception h = joined (address overflow_exception) h
init_idt-target address idt bound_range_exception h = joined (address bound_range_exception) h
init_idt-target address idt invalid_opcode_exception h = joined (address invalid_opcode_exception) h
init_idt-target address idt device_not_available_exception h =
    joined (address device_not_available_exception) h
init_idt-target address idt double_fault_exception h = joined (address double_fault_exception) h
init_idt-target address idt coprocessor_exception h = joined (address coprocessor_exception) h
init_idt-target address idt invalid_tss_exception h = joined (address invalid_tss_exception) h
init_idt-target address idt segment_not_present_exception h =
    joined (address segment_not_present_exception) h
init_idt-target address idt stack_fault_exception h = joined (address stack_fault_exception) h
init_idt-target address idt general_protection_exception h =
    joined (address general_protection_exception) h
init_idt-target address idt page_fault_exception h = joined (address page_fault_exception) h
init_idt-target address idt fpu_floating_point_exception h =
    joined (address fpu_floating_point_exception) h
init_idt-target address idt alignment_check_exception h =
    joined (address alignment_check_exception) h
init_idt-target address idt machine_check_exception h = joined (address machine_check_exception) h
init_idt-target address idt simd_floating_point_exception h =
    joined (address simd_floating_point_exception) h
init_idt-target address idt pit_assembly h = joined (address pit_assembly) h
init_idt-target address idt keyboard_assembly h = joined (address keyboard_assembly) h
init_idt-target address idt sb16_assembly h = joined (address sb16_assembly) h
init_idt-target address idt rtc_assembly h = joined (address rtc_assembly) h
init_idt-target address idt syscall_assembly h = joined (address syscall_assembly) h
