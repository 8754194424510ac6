-- ===== src/Execute/Image.antt =====
-- What `execute` of student-distrib/syscall.c does once the command is parsed.
use ece391_mp3_illinix.Console.{Screen}
use ece391_mp3_illinix.Kernel.{Kernel}
use ece391_mp3_illinix.Execute.{
  check_image, load_program, execute, after_parse, Executed, Mem, Frame, start_program,
  execute_named, returned, with_mem, has_magic, Copied, enters, take_pid, copied, parse_command,
  array_overflow, mem, too_long, load32, read_dentry_by_name, read_data,
}
use ece391_mp3_illinix.Prelude.{
  ℕ, ◌+◌, ◌≡◌, refl, subst, Bool, true, false, Option, none, some, ◌==◌, if◌then◌else◌, ◌>>=◌,
}
use ece391_mp3_illinix.Word.{u32, minus_one}

-- What an optional result satisfies, if there is one.
unfoldable Holds : {A : Type 0} → (A → Type 0) → Option A → Type 0
Holds P none = Unit
Holds P (some a) = P a

Holds-bind :
    {A B : Type 0} (P : B → Type 0) (o : Option A) (g : A → Option B)
    → ((a : A) → Holds P (g a))
    → Holds P (o >>= g)
unfolding Holds
Holds-bind P none g h = tt
Holds-bind P (some a) g h = h a

Holds-if :
    {A : Type 0} (P : A → Type 0) (b : Bool) (x y : Option A)
    → Holds P x
    → Holds P y
    → Holds P (if b then x else y)
Holds-if P true x y hx hy = hx
Holds-if P false x y hx hy = hy

-- What a refused command leaves: -1, and no trace in the tables of processes, the control blocks, the
-- page tables, or the stack of the next trap.
pub record Refused (k : Kernel) (r : ℕ) (k' : Kernel) : Type 0 where
  pub code : r ≡ minus_one
  pub process : k'.process ≡ k.process
  pub process_terminal : k'.process_terminal ≡ k.process_terminal
  pub process_terminal_cnt : k'.process_terminal_cnt ≡ k.process_terminal_cnt
  pub pcbs : k'.pcbs ≡ k.pcbs
  pub paging : k'.paging ≡ k.paging
  pub tss_esp0 : k'.tss_esp0 ≡ k.tss_esp0

unfoldable RefusedOr : Kernel → Executed → Type 0
RefusedOr k (returned r k') = Refused k r k'
RefusedOr k (enters entry k') = Unit

remember : (k₀ k : Kernel) (m : Mem) → Refused k₀ minus_one k → Refused k₀ minus_one (with_mem k m)
remember k₀ k m h = record {
  code = refl;
  process = h.process;
  process_terminal = h.process_terminal;
  process_terminal_cnt = h.process_terminal_cnt;
  pcbs = h.pcbs;
  paging = h.paging;
  tss_esp0 = h.tss_esp0;
}

untouched_screen : (k : Kernel) (s : Screen) → Refused k minus_one (record k { screen = s })
untouched_screen k s = record {
  code = refl;
  process = refl;
  process_terminal = refl;
  process_terminal_cnt = refl;
  pcbs = refl;
  paging = refl;
  tss_esp0 = refl;
}

untouched : (k : Kernel) (m : Mem) → Refused k minus_one (with_mem k m)
untouched k m = untouched_screen k (record k.screen { mem = m })

Refused-Holds :
    (k k' : Kernel) (r : ℕ) → Refused k r k' → Holds (RefusedOr k) (some (returned r k'))
unfolding Holds RefusedOr
Refused-Holds k k' r h = h

entered-Holds : (k k' : Kernel) (entry : ℕ) → Holds (RefusedOr k) (some (enters entry k'))
unfolding Holds RefusedOr
entered-Holds k k' entry = tt

Holds-Refused :
    (k k' : Kernel) (r : ℕ) → Holds (RefusedOr k) (some (returned r k')) → Refused k r k'
unfolding Holds RefusedOr
Holds-Refused k k' r h = h

load_program-Holds :
    (k₀ k : Kernel) (f : Frame) (i_node entry : ℕ) (o : Option (ℕ × Kernel))
    → Refused k₀ minus_one k
    → Holds (RefusedOr k₀) (load_program f i_node entry o k)
unfolding load_program
load_program-Holds k₀ k f i_node entry none h = Refused-Holds k₀ k minus_one h
load_program-Holds k₀ k f i_node entry (some (pid, k₁)) h =
    Holds-bind (RefusedOr k₀) _ _ (λ r. entered-Holds k₀ _ entry)

check_image-Holds :
    (k₀ k : Kernel) (f : Frame) → Refused k₀ minus_one k → Holds (RefusedOr k₀) (check_image k f)
unfolding check_image start_program
check_image-Holds k₀ k f h =
    let i_node = load32 (mem k) (u32 (f.dentry + 36)) in
    let load = λ (e : ℕ × Mem).
      load_program f i_node (load32 e.1 f.magics) (take_pid (with_mem k e.1)) (with_mem k e.1) in
    let entry = λ (r : ℕ × Mem). read_data r.1 k.fs i_node 24 f.magics 4 in
    Holds-bind (RefusedOr k₀) (read_data (mem k) k.fs i_node 0 f.magics 4)
      (λ r.
        if has_magic r.1 f.magics
        then (entry r >>= load)
        else some (returned minus_one (with_mem k r.1)))
      (λ r.
        Holds-if (RefusedOr k₀) (has_magic r.1 f.magics) (entry r >>= load)
          (some (returned minus_one (with_mem k r.1)))
          (Holds-bind (RefusedOr k₀) (entry r) load (λ e.
            load_program-Holds k₀ (with_mem k e.1) f i_node (load32 e.1 f.magics)
              (take_pid (with_mem k e.1)) (remember k₀ k e.1 h)))
          (Refused-Holds k₀ (with_mem k r.1) minus_one (remember k₀ k r.1 h)))

after_parse-Holds : (k : Kernel) (f : Frame) (c : Copied) → Holds (RefusedOr k) (after_parse k f c)
unfolding after_parse execute_named
after_parse-Holds k f (copied m) =
    Holds-bind (RefusedOr k) (read_dentry_by_name m k.fs f.exe_name f.dentry)
      (λ r.
        if r.0 == minus_one
        then some (returned minus_one (with_mem k r.1))
        else check_image (with_mem k r.1) f)
      (λ r.
        Holds-if (RefusedOr k) (r.0 == minus_one) (some (returned minus_one (with_mem k r.1)))
          (check_image (with_mem k r.1) f)
          (Refused-Holds k (with_mem k r.1) minus_one (untouched k r.1))
          (check_image-Holds k (with_mem k r.1) f (untouched k r.1)))
after_parse-Holds k f (array_overflow m) =
    Holds-bind (RefusedOr k) _ _ (λ (p : ℕ × Screen). Refused-Holds k _ _ (untouched_screen k p.1))
after_parse-Holds k f (too_long m) =
    Holds-bind (RefusedOr k) _ _ (λ (p : ℕ × Screen). Refused-Holds k _ _ (untouched_screen k p.1))

-- Whenever `execute` returns without having entered a program, it returns -1, and it has taken no pid,
-- mapped no page, and changed no process control block and no table of processes.
pub execute-Refused :
    (k k' : Kernel) (f : Frame) (command r : ℕ)
    → execute k f command ≡ some (returned r k')
    → Refused k r k'
unfolding execute
execute-Refused k k' f command r e = Holds-Refused k k' r (
    subst (Holds (RefusedOr k)) e (
      Holds-bind (RefusedOr k) (parse_command (mem k) f command) (after_parse k f)
        (after_parse-Holds k f)))
