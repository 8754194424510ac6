-- ===== src/Syscall/Files.antt =====
-- The descriptors of the running process in student-distrib/syscall.c: what writing one of them does,
-- and which one is free.
use ece391_mp3_illinix.Prelude.{
  ℕ, zero, suc, ◌+◌, ◌≤◌, ◌<◌, ◌≡◌, refl, ap, ◌∙◌, subst, ◌≢◌, true, false, none, some, arith,
  ℕ_discrete, ◌==◌, if◌then◌else◌, length, length-set, get_or-set_self, get_or-set_ne,
}
use ece391_mp3_illinix.Kernel.{
  Kernel, Pcb, FileDesc, get_curr_pcb, no_file, file_at, put_file, not_in_use,
}
use ece391_mp3_illinix.Syscall.{curr_pcb, update_file, free_fd}

-- A taken descriptor was free, and every lower one was not.
pub free_fd_lowest :
    (pcb : Pcb) (i rest : ℕ) {fd : ℕ}
    → free_fd pcb.files i rest ≡ some fd
    → (i ≤ fd)
      × (fd < i + rest)
      × ((file_at pcb fd).flags ≡ not_in_use)
      × ((j : ℕ) → i ≤ j → j < fd → (file_at pcb j).flags ≢ not_in_use)
unfolding free_fd
free_fd_lowest pcb i zero h = cc
free_fd_lowest pcb i (suc rest) {fd} h = elim (ℕ_discrete (file_at pcb i).flags not_in_use) [
  | yes free ↦
      let e : i ≡ fd = ground arith in
      (
        omega arith,
        omega arith,
        subst (λ x. (file_at pcb x).flags ≡ not_in_use) e free,
        λ j lo hi. absurd (omega arith),
      )
  | no used ↦
      let h' : free_fd pcb.files (i + 1) rest ≡ some fd = ground arith in
      let (lo, hi, free, lower) = free_fd_lowest pcb (i + 1) rest h' in
      (
        omega arith,
        omega arith,
        free,
        λ j jlo jhi. elim (ℕ_discrete j i) [
          | yes e ↦ rw e used
          | no ne ↦ lower j (omega arith) jhi
        ],
      )
]

-- Descriptor `j` of the running process.
abbrev pub file_now : Kernel → ℕ → FileDesc
file_now k j = file_at (curr_pcb k) j

pub curr_pcb-update_file :
    (k : Kernel) (i : ℕ) (f : FileDesc) → curr_pcb (update_file k i f) ≡ put_file (curr_pcb k) i f
unfolding get_curr_pcb
curr_pcb-update_file k i f = ground arith

pub file_now-update_file :
    (k : Kernel) (i j : ℕ) (f : FileDesc)
    → i < length (curr_pcb k).files
    → file_now (update_file k i f) j ≡ (if i == j then f else file_now k j)
file_now-update_file k i j f h = ap (λ (p : Pcb). file_at p j) (curr_pcb-update_file k i f) ∙ at_j
  where
    at_j : file_at (put_file (curr_pcb k) i f) j ≡ (if i == j then f else file_now k j)
    at_j = elim (ℕ_discrete i j) [
      | yes e ↦
          let t : (i == j) ≡ true = ground arith in
          rw (t, ← e) (get_or-set_self (curr_pcb k).files i f no_file h)
      | no ne ↦
          let t : (i == j) ≡ false = ground arith in
          rw t (get_or-set_ne (curr_pcb k).files i j f no_file ne)
    ]

pub file_now-update_self :
    (k : Kernel) (i : ℕ) (f : FileDesc)
    → i < length (curr_pcb k).files
    → file_now (update_file k i f) i ≡ f
file_now-update_self k i f h =
    let e : (i == i) ≡ true = ground arith in file_now-update_file k i i f h ∙ rw e refl

pub file_now-update_ne :
    (k : Kernel) (i j : ℕ) (f : FileDesc)
    → i < length (curr_pcb k).files
    → i ≢ j
    → file_now (update_file k i f) j ≡ file_now k j
file_now-update_ne k i j f h ne =
    let e : (i == j) ≡ false = ground arith in file_now-update_file k i j f h ∙ rw e refl

pub length-update_file :
    (k : Kernel) (i : ℕ) (f : FileDesc)
    → length (curr_pcb (update_file k i f)).files ≡ length (curr_pcb k).files
length-update_file k i f =
    ap (λ (p : Pcb). length p.files) (curr_pcb-update_file k i f)
    ∙ length-set (curr_pcb k).files i f

-- The process blocks and the stack decide which descriptors the running process has.
pub curr_pcb-cong : (k k' : Kernel) → k'.pcbs ≡ k.pcbs → k'.esp ≡ k.esp → curr_pcb k' ≡ curr_pcb k
unfolding get_curr_pcb
curr_pcb-cong k k' p s = rw (p, s)

pub free_fd-none :
    (k : Kernel) (i rest : ℕ)
    → ((j : ℕ) → i ≤ j → j < i + rest → (file_now k j).flags ≢ not_in_use)
    → free_fd (curr_pcb k).files i rest ≡ none
unfolding free_fd
free_fd-none k i zero h = refl
free_fd-none k i (suc rest) h =
    let busy : ((file_now k i).flags == not_in_use) ≡ false = ground (arith, h i) in
    rw busy (free_fd-none k (i + 1) rest (λ j lo hi. h j (omega arith) (omega arith)))
