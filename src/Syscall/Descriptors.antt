-- ===== src/Syscall/Descriptors.antt =====
-- File descriptors in student-distrib/syscall.c: `open` takes one and `close` gives it back.
use ece391_mp3_illinix.Text.{codes}
use ece391_mp3_illinix.Prelude.{
  ℕ, ◌+◌, ◌≤◌, ◌<◌, ◌≡◌, refl, ap, ◌∙◌, ◌≢◌, false, ◌||◌, none, some, [], arith, ◌==◌, length, set,
}
use ece391_mp3_illinix.Word.{u32, minus_one, slt, sle}
use ece391_mp3_illinix.Memory.{load32}
use ece391_mp3_illinix.Console.{Screen, putc}
use mathlib.Core.List.{foldl}
use ece391_mp3_illinix.Terminal.{terminal_open, terminal_close}
use ece391_mp3_illinix.Print.{printf}
use ece391_mp3_illinix.Filesystem.{dir_open, file_open, dir_close, file_close}
use ece391_mp3_illinix.Rtc.{Rtc, returned, at_terminal, rtc_open, rtc_close}
use ece391_mp3_illinix.Rtc.Rate.{expected, rtc_set_freq-expected}
use ece391_mp3_illinix.Kernel.{
  Kernel, Pcb, FileDesc, Ops, fail_funcs, stdin_funcs, stdout_funcs, dir_funcs, rtc_funcs,
  file_funcs, mem, file_at, in_use, not_in_use, min_fd, max_fd,
}
use ece391_mp3_illinix.Syscall.{
  returns, Call, curr_pcb, update_file, funcs_of, free_fd, ops_open, open_as, open_entry, close,
  ops_close, codes,
}
use ece391_mp3_illinix.Syscall.Files.{
  free_fd_lowest, file_now, file_now-update_self, file_now-update_ne, length-update_file,
  curr_pcb-cong, free_fd-none,
}

at_two_hz : Rtc → ℕ → Rtc
at_two_hz rtc t = set rtc t (record (at_terminal rtc t) { constant = 512 })

rtc_open_returns : (rtc : Rtc) (t : ℕ) → rtc_open rtc t ≡ some (returned 0 (at_two_hz rtc t))
unfolding rtc_open at_two_hz
rtc_open_returns rtc t = rw (rtc_set_freq-expected rtc t 2 (omega arith)) (unfold expected in refl)

-- What `open` writes into the descriptor.
abbrev pub opened_file : FileDesc → Ops → ℕ → FileDesc
opened_file f ops i_node = record { ptrs = ops; inode = i_node; file_pos = 0; flags = in_use }

-- The file operations that `open` calls succeed and keep every process control block.
ops_open_returns :
    (k : Kernel) (ops : Ops) (filename : ℕ)
    → ops ≢ fail_funcs
    → (k' : Kernel) × (ops_open k ops filename ≡ returns 0 k')
      × (k'.pcbs ≡ k.pcbs)
      × (k'.esp ≡ k.esp)
unfolding ops_open
ops_open_returns k fail_funcs filename ne = absurd (ne refl)
ops_open_returns k stdin_funcs filename ne = (k, unfold terminal_open in refl, refl, refl)
ops_open_returns k stdout_funcs filename ne = (k, unfold terminal_open in refl, refl, refl)
ops_open_returns k dir_funcs filename ne =
    (record k { fs = record k.fs { dir_location = 0 } }, unfold dir_open in refl, refl, refl)
ops_open_returns k rtc_funcs filename ne = (
  record k { rtc = at_two_hz k.rtc k.running_terminal },
  rw (rtc_open_returns k.rtc k.running_terminal),
  refl,
  refl,
)
ops_open_returns k file_funcs filename ne = (k, unfold file_open in refl, refl, refl)

funcs_of-ne-fail : (w : ℕ) {ops : Ops} → funcs_of w ≡ some ops → ops ≢ fail_funcs
funcs_of-ne-fail w h e = ground arith

-- The two words of the entry that `open` uses.
abbrev pub type_word : Kernel → Call → ℕ
type_word k c = load32 (mem k) (u32 (c.dentry + 32))

abbrev pub inode_word : Kernel → Call → ℕ
inode_word k c = load32 (mem k) (u32 (c.dentry + 36))

-- `open` on a file of a known type: it takes the lowest free descriptor from 2 to 7, at position 0
-- and with the operations of the type, and keeps the other descriptors.
pub record Opened (k : Kernel) (c : Call) (filename i : ℕ) (ops : Ops) (k' : Kernel) : Type 0 where
  pub result : open_entry k c filename ≡ returns i k'
  pub stack : k'.esp ≡ k.esp
  pub in_range : (2 ≤ i) × (i < 8)
  pub was_free : (file_at (curr_pcb k) i).flags ≡ not_in_use
  pub lowest : (j : ℕ) → 2 ≤ j → j < i → (file_at (curr_pcb k) j).flags ≢ not_in_use
  pub here :
      file_at (curr_pcb k') i
      ≡ record { ptrs = ops; inode = inode_word k c; file_pos = 0; flags = in_use }
  pub others : (j : ℕ) → i ≢ j → file_at (curr_pcb k') j ≡ file_at (curr_pcb k) j
  pub size : length (curr_pcb k').files ≡ length (curr_pcb k).files

-- `open` on an entry of a known type, while a descriptor is free, is as `Opened` says.
pub open_entry-Opened :
    (k : Kernel) (c : Call) (filename i : ℕ) (ops : Ops)
    → length (curr_pcb k).files ≡ 8
    → free_fd (curr_pcb k).files 2 6 ≡ some i
    → funcs_of (type_word k c) ≡ some ops
    → (k' : Kernel) × Opened k c filename i ops k'
open_entry-Opened k c filename i ops full free known =
    let (lo, hi, was_free, lowest) = free_fd_lowest (curr_pcb k) 2 6 free in
    let f : FileDesc = record (file_now k i) {
      flags = in_use;
      file_pos = 0;
      inode = inode_word k c;
    } in
    let k₁ = update_file k i f in
    let g : FileDesc = record (file_now k₁ i) { ptrs = ops } in
    let k₂ = update_file k₁ i g in
    let (k', e, p, s) = ops_open_returns k₂ ops filename (funcs_of-ne-fail (type_word k c) known) in
    let same = curr_pcb-cong k₂ k' p s in
    let in_k : i < length (curr_pcb k).files = omega arith in
    let in_k₁ : i < length (curr_pcb k₁).files = omega (arith, length-update_file k i f) in
    (
      k',
      record {
        result =
            unfold open_entry open_as in
            rw (free, open_entry) (rw known (rw (e, open_as) (ground arith)));
        stack = s;
        in_range = (lo, omega arith);
        was_free = was_free;
        lowest = lowest;
        here =
            ap (λ (q : Pcb). file_at q i) same
            ∙ file_now-update_self k₁ i g in_k₁
            ∙ ap (λ (x : FileDesc). record x { ptrs = ops }) (file_now-update_self k i f in_k);
        others = λ j ne.
            ap (λ (q : Pcb). file_at q j) same
            ∙ file_now-update_ne k₁ i j g in_k₁ ne
            ∙ file_now-update_ne k i j f in_k ne;
        size =
            ap (λ (q : Pcb). length q.files) same
            ∙ length-update_file k₁ i g
            ∙ length-update_file k i f;
      },
    )

ops_close-zero : (ops : Ops) (fd : ℕ) → ops ≢ fail_funcs → ops_close ops fd ≡ 0
unfolding ops_close
ops_close-zero fail_funcs fd ne = absurd (ne refl)
ops_close-zero stdin_funcs fd ne = unfold terminal_close in refl
ops_close-zero stdout_funcs fd ne = unfold terminal_close in refl
ops_close-zero dir_funcs fd ne = unfold dir_close in refl
ops_close-zero rtc_funcs fd ne = unfold rtc_close in refl
ops_close-zero file_funcs fd ne = unfold file_close in refl

close_taken :
    (k : Kernel) (fd : ℕ)
    → 2 ≤ fd
    → fd < 8
    → (file_now k fd).flags ≡ in_use
    → (file_now k fd).ptrs ≢ fail_funcs
    → close k fd ≡ returns 0 (update_file k fd (record (file_now k fd) { flags = not_in_use }))
unfolding close
close_taken k fd lo hi used ne =
    let good : (slt fd min_fd || sle max_fd fd) ≡ false = ground arith in
    let open_now : ((file_now k fd).flags == not_in_use) ≡ false = ground arith in
    rw (good, open_now, ops_close-zero (file_now k fd).ptrs fd ne)

-- A descriptor that `open` took is given back by `close`, which returns 0: it is free again, and
-- every other descriptor is as it was before the `open`.
pub close-open_entry :
    (k : Kernel) (c : Call) (filename i : ℕ) (ops : Ops) (k' : Kernel)
    → length (curr_pcb k).files ≡ 8
    → funcs_of (type_word k c) ≡ some ops
    → Opened k c filename i ops k'
    → (k'' : Kernel) × (close k' i ≡ returns 0 k'')
      × ((file_now k'' i).flags ≡ not_in_use)
      × ((j : ℕ) → i ≢ j → file_now k'' j ≡ file_now k j)
close-open_entry k c filename i ops k' full known o =
    let f : FileDesc = record (file_now k' i) { flags = not_in_use } in
    let fits : i < length (curr_pcb k').files = omega (arith, o.size, o.in_range) in
    let used : (file_now k' i).flags ≡ in_use = ap (λ (x : FileDesc). x.flags) o.here in
    let ptrs : (file_now k' i).ptrs ≡ ops = ap (λ (x : FileDesc). x.ptrs) o.here in
    (
      update_file k' i f,
      close_taken k' i o.in_range.0 o.in_range.1 used
          (rw ptrs (funcs_of-ne-fail (type_word k c) known)),
      ap (λ (x : FileDesc). x.flags) (file_now-update_self k' i f fits),
      λ j ne. file_now-update_ne k' i j f fits ne ∙ o.others j ne,
    )

-- With no descriptor free `open` returns -1 and changes nothing.
pub open_entry-full :
    (k : Kernel) (c : Call) (filename : ℕ)
    → ((j : ℕ) → 2 ≤ j → j < 8 → (file_now k j).flags ≢ not_in_use)
    → open_entry k c filename ≡ returns minus_one k
unfolding open_entry
open_entry-full k c filename used =
    let e : free_fd (curr_pcb k).files 2 6 ≡ none = free_fd-none k 2 6 used in rw (e, open_entry)

invalid_type :
    (s : Screen) → (s' : Screen) × (printf s (codes "invalid file type!!!\n") [] ≡ some (21, s'))
unfolding printf
invalid_type s = (foldl putc s (codes "invalid file type!!!\n"), refl)

-- A file of an unknown type is not opened, but its descriptor stays taken: `open` returns -1 and the
-- lowest free descriptor is in use afterwards.
pub open_entry-leak :
    (k : Kernel) (c : Call) (filename i : ℕ)
    → length (curr_pcb k).files ≡ 8
    → free_fd (curr_pcb k).files 2 6 ≡ some i
    → 2 < type_word k c
    → (k' : Kernel) × (open_entry k c filename ≡ returns minus_one k')
      × ((file_now k i).flags ≡ not_in_use)
      × ((file_now k' i).flags ≡ in_use)
open_entry-leak k c filename i full free big =
    let (lo, hi, was_free, lowest) = free_fd_lowest (curr_pcb k) 2 6 free in
    let f : FileDesc = record (file_now k i) {
      flags = in_use;
      file_pos = 0;
      inode = inode_word k c;
    } in
    let k₁ = update_file k i f in
    let (s', p) = invalid_type k₁.screen in
    let k' : Kernel = record k₁ { screen = s' } in
    let unknown : funcs_of (type_word k c) ≡ none = ground arith in
    let e = file_now-update_self k i f (omega arith) in
    (
      k',
      unfold open_entry open_as in rw (free, open_entry) (rw unknown (rw (p, open_as))),
      was_free,
      ap (λ (q : Pcb). (file_at q i).flags) (curr_pcb-cong k₁ k' refl refl)
          ∙ ap (λ (x : FileDesc). x.flags) e,
    )
