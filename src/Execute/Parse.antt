-- ===== src/Execute/Parse.antt =====
-- The command line of `execute` in student-distrib/syscall.c: the two buffers it is split into.
use ece391_mp3_illinix.Memory.{Mem, moved}
use ece391_mp3_illinix.Execute.{
  skip_blanks, name_length, copy_name, ends_name, store8, ends_line, at, copied, too_long,
  copy_args, Frame, parse_command, parse_args, address_space, kept_name,
}
use ece391_mp3_illinix.Prelude.{
  ℕ, zero, suc, ◌+◌, ◌-◌, ◌^◌, ◌≤◌, ◌<◌, ◌≡◌, sym, ap, ap₂, ◌∙◌, fun_ext, subst, ◌≢◌, ◌⊎◌, true,
  false, some, arith, ℕ_discrete, ltb, ◌>>=◌, if_true, if_false,
}
use ece391_mp3_illinix.Word.{u32}

-- A command line at `command`: `b` blanks, a name of `n` bytes, and `r` more bytes up to the end of
-- the line.
pub record Line (m : Mem) (command b n r : ℕ) : Type 0 where
  pub line_fits : command + b + n + r < 2 ^ 32
  pub blanks : (i : ℕ) → i < b → m (command + i) ≡ b' '
  pub no_blank : m (command + b) ≢ b' '
  pub name : (i : ℕ) → i < n → ends_name (m (command + b + i)) ≡ false
  pub name_ends : ends_name (m (command + b + n)) ≡ true
  pub args : (i : ℕ) → i < r → ends_line (m (command + b + n + i)) ≡ false
  pub line_ends : ends_line (m (command + b + n + r)) ≡ true

-- `size` bytes at `buf` that lie outside the `len` bytes at `p`.
pub record Clear (buf size p len : ℕ) : Type 0 where
  pub clear_fits : buf + size < 2 ^ 32
  pub clear_apart : (buf + size ≤ p) ⊎ (p + len ≤ buf)

Clear-part :
    {d j k p len q less : ℕ}
    → Clear d k p len
    → j ≤ k
    → p ≤ q
    → q + less ≤ p + len
    → Clear d j q less
Clear-part c h1 h2 h3 = record {
  clear_fits = omega (arith, c.clear_fits);
  clear_apart = ground (arith, c.clear_apart);
}

skip_blanks_lem :
    (fuel : ℕ) (m : Mem) (command b start : ℕ)
    → command + b < 2 ^ 32
    → ((i : ℕ) → i < b → m (command + i) ≡ b' ')
    → m (command + b) ≢ b' '
    → start ≤ b
    → b - start < fuel
    → skip_blanks fuel m command start ≡ some b
unfolding skip_blanks
skip_blanks_lem zero m command b start fits blanks first h f = absurd (omega arith)
skip_blanks_lem (suc fuel) m command b start fits blanks first h f =
    ground
      (arith, blanks start, first, skip_blanks_lem fuel m command b (start + 1) fits blanks first)

name_length_lem :
    (fuel : ℕ) (m : Mem) (command b n len : ℕ)
    → command + b + n < 2 ^ 32
    → ((i : ℕ) → i < n → ends_name (m (command + b + i)) ≡ false)
    → ends_name (m (command + b + n)) ≡ true
    → len ≤ n
    → n - len < fuel
    → name_length fuel m command b len ≡ some n
unfolding name_length
name_length_lem zero m command b n len fits name ends h f = absurd (omega arith)
name_length_lem (suc fuel) m command b n len fits name ends h f = elim (ℕ_discrete len n) [
  | yes e ↦
      let t : ends_name (at m command (b + len)) ≡ true =
        ap (λ a. ends_name (m a)) (omega arith) ∙ ends in
      if_true t _ _ ∙ ap (λ n. some n) e
  | no ne ↦
      let t : ends_name (at m command (b + len)) ≡ false =
        ap (λ a. ends_name (m a)) (omega arith) ∙ name len (omega arith) in
      if_false t _ _
      ∙ ap (name_length fuel m command b) (omega arith)
      ∙ name_length_lem fuel m command b n (len + 1) fits name ends (omega arith) (omega arith)
]

-- One byte more of a copy that goes up.
store-moved :
    (m : Mem) (d s j len : ℕ)
    → Clear d (j + 1) s len
    → j < len
    → store8 (moved m d s j) (u32 (d + j)) (m (s + j)) ≡ moved m d s (j + 1)
store-moved m d s j len c h = fun_ext (λ a. ground (arith, c.clear_fits))

moved-outside :
    (m : Mem) (d s j p len i : ℕ) → Clear d j p len → i < len → moved m d s j (p + i) ≡ m (p + i)
moved-outside m d s j p len i c h = ground (arith, c.clear_apart)

-- The first `k` rounds of the copy of the name.
copy_name-moved :
    (k rest : ℕ) (m : Mem) (exe_name command b n j : ℕ)
    → command + b + n < 2 ^ 32
    → Clear exe_name (j + k) (command + b) n
    → j + k ≤ n
    → j + k ≤ 33
    → b + j + k ≤ 128
    → copy_name (moved m exe_name (command + b) j) exe_name command b j (k + rest)
      ≡ copy_name (moved m exe_name (command + b) (j + k)) exe_name command b (j + k) rest
unfolding copy_name
copy_name-moved zero rest m exe_name command b n j fits c h1 h2 h3 =
    ap₂ (λ x y. copy_name (moved m exe_name (command + b) x) exe_name command b x y) (omega arith)
      (omega arith)
copy_name-moved (suc k) rest m exe_name command b n j fits c h1 h2 h3 =
    let e : suc k + rest ≡ suc (k + rest) = omega arith in
    let room : ltb 127 (b + j) ≡ false = ground arith in
    let short : ltb 32 j ≡ false = ground arith in
    let same : at (moved m exe_name (command + b) j) command (b + j) ≡ m (command + b + j) =
      ap (moved m exe_name (command + b) j) (omega arith)
      ∙ moved-outside m exe_name (command + b) j (command + b) n j
          (Clear-part c (omega arith) (omega arith) (omega arith)) (omega arith) in
    let step : store8 (moved m exe_name (command + b) j) (u32 (exe_name + j))
          (at (moved m exe_name (command + b) j) command (b + j))
        ≡ moved m exe_name (command + b) (j + 1) =
      ap (store8 (moved m exe_name (command + b) j) (u32 (exe_name + j))) same
      ∙ store-moved m exe_name (command + b) j n
          (Clear-part c (omega arith) (omega arith) (omega arith)) (omega arith) in
    ap (copy_name (moved m exe_name (command + b) j) exe_name command b j) e
    ∙ if_false room _ _
    ∙ if_false short _ _
    ∙ ap (λ m'. copy_name m' exe_name command b (j + 1) (k + rest)) step
    ∙ copy_name-moved k rest m exe_name command b n (j + 1) fits
        (Clear-part c (omega arith) (omega arith) (omega arith)) (omega arith) (omega arith)
        (omega arith)
    ∙ ap (λ x. copy_name (moved m exe_name (command + b) x) exe_name command b x rest) (omega arith)

-- The copy of a name that fits, and of one that does not.
copy_name-fits :
    (m : Mem) (exe_name command b n : ℕ)
    → command + b + n < 2 ^ 32
    → Clear exe_name n (command + b) n
    → n ≤ 33
    → b + n ≤ 128
    → copy_name m exe_name command b 0 n ≡ copied (moved m exe_name (command + b) n)
unfolding copy_name
copy_name-fits m exe_name command b n fits c h1 h2 =
    ap₂ (λ m' k. copy_name m' exe_name command b 0 k) (fun_ext (λ a. ground arith)) (omega arith)
    ∙ copy_name-moved n 0 m exe_name command b n 0 fits
        (Clear-part c (omega arith) (omega arith) (omega arith)) (omega arith) (omega arith)
        (omega arith)
    ∙ ap (λ j. copied (moved m exe_name (command + b) j)) (omega arith)

refused :
    (rest : ℕ) (m : Mem) (exe_name command b : ℕ)
    → b + 33 < 128
    → copy_name m exe_name command b (0 + 33) (suc rest) ≡ too_long m
unfolding copy_name
refused rest m exe_name command b h = ground arith

copy_name-too_long :
    (rest : ℕ) (m : Mem) (exe_name command b : ℕ)
    → command + b + (34 + rest) < 2 ^ 32
    → Clear exe_name 33 (command + b) (34 + rest)
    → b + 33 < 128
    → copy_name m exe_name command b 0 (34 + rest) ≡ too_long (moved m exe_name (command + b) 33)
copy_name-too_long rest m exe_name command b fits c h =
    ap₂ (λ m' k. copy_name m' exe_name command b 0 k) (fun_ext (λ a. ground arith)) (omega arith)
    ∙ copy_name-moved 33 (suc rest) m exe_name command b (34 + rest) 0 fits c (omega arith)
        (omega arith) (omega arith)
    ∙ refused rest (moved m exe_name (command + b) 33) exe_name command b h

copy_args_lem :
    (fuel : ℕ) (m : Mem) (args_buf command start r j : ℕ)
    → command + start + r < 2 ^ 32
    → Clear args_buf (r + 1) (command + start) (r + 1)
    → ((i : ℕ) → i < r → ends_line (m (command + start + i)) ≡ false)
    → ends_line (m (command + start + r)) ≡ true
    → j ≤ r
    → r - j < fuel
    → copy_args fuel (moved m args_buf (command + start) j) args_buf command start j
      ≡ some (store8 (moved m args_buf (command + start) r) (u32 (args_buf + r)) 0)
unfolding copy_args
copy_args_lem zero m args_buf command start r j fits c args ends h f = absurd (omega arith)
copy_args_lem (suc fuel) m args_buf command start r j fits c args ends h f =
    let p = command + start in
    let m' = moved m args_buf p j in
    let same : at m' command (start + j) ≡ m (p + j) =
      ap m' (omega arith)
      ∙ moved-outside m args_buf p j p (r + 1) j
          (Clear-part c (omega arith) (omega arith) (omega arith)) (omega arith) in
    elim (ℕ_discrete j r) [
      | yes e ↦
          let t : ends_line (at m' command (start + j)) ≡ true =
            ap ends_line same ∙ subst (λ j. ends_line (m (p + j)) ≡ true) (sym e) ends in
          if_true t _ _ ∙ ap (λ j. some (store8 (moved m args_buf p j) (u32 (args_buf + j)) 0)) e
      | no ne ↦
          let t : ends_line (at m' command (start + j)) ≡ false =
            ap ends_line same ∙ args j (omega arith) in
          let step : store8 m' (u32 (args_buf + j)) (at m' command (start + j))
              ≡ moved m args_buf p (j + 1) =
            ap (store8 m' (u32 (args_buf + j))) same
            ∙ store-moved m args_buf p j (r + 1)
                (Clear-part c (omega arith) (omega arith) (omega arith)) (omega arith) in
          if_false t _ _
          ∙ ap₂ (λ x i. copy_args fuel x args_buf command start i) step (omega arith)
          ∙ copy_args_lem fuel m args_buf command start r (j + 1) fits c args ends (omega arith)
              (omega arith)
    ]

-- The two buffers after the command line was split.
abbrev pub split_line : Mem → Frame → ℕ → ℕ → ℕ → ℕ → Mem
split_line m f command b n r =
    let m₁ = store8 (moved m f.exe_name (command + b) n) (f.exe_name + n) 0 in
    store8 (moved m₁ f.args_buf (command + (b + n)) r) (f.args_buf + r) 0

-- The line is found before any of it is copied.
parse_command-parse_args :
    (m : Mem) (f : Frame) (command b n r : ℕ)
    → Line m command b n r
    → parse_command m f command ≡ parse_args f command b n (copy_name m f.exe_name command b 0 n)
unfolding parse_command
parse_command-parse_args m f command b n r l =
    ap
      (λ o. o >>= λ start. name_length address_space m command start 0 >>= λ len.
        parse_args f command start len (copy_name m f.exe_name command start 0 len))
      (skip_blanks_lem address_space m command b 0 (omega (arith, l.line_fits)) l.blanks l.no_blank
        (omega arith) (omega (arith, l.line_fits)))
    ∙ ap (λ o. o >>= λ len. parse_args f command b len (copy_name m f.exe_name command b 0 len))
        (name_length_lem address_space m command b n 0 (omega (arith, l.line_fits)) l.name
          l.name_ends (omega arith) (omega (arith, l.line_fits)))

-- The name and its NUL do not touch the arguments.
name_kept :
    (m : Mem) (exe_name command b n r i : ℕ)
    → Clear exe_name (n + 1) command (b + n + r + 1)
    → i ≤ r
    → store8 (moved m exe_name (command + b) n) (exe_name + n) 0 (command + (b + n) + i)
      ≡ m (command + b + n + i)
name_kept m exe_name command b n r i c h =
    let e : command + (b + n) + i ≡ command + b + n + i = omega arith in
    rw e (ground (arith, c.clear_apart))

-- `execute` splits a command line whose name has at most 31 bytes and ends within the first 128: the
-- blanks in front are skipped, the name and a NUL go to one buffer, the rest of the line and a NUL to
-- the other, and no other byte changes. The two buffers lie outside the line.
pub parse_command-split_line :
    (m : Mem) (f : Frame) (command b n r : ℕ)
    → Line m command b n r
    → Clear f.exe_name (n + 1) command (b + n + r + 1)
    → Clear f.args_buf (r + 1) command (b + n + r + 1)
    → n ≤ 31
    → b + n ≤ 128
    → parse_command m f command ≡ some (copied (split_line m f command b n r))
unfolding parse_args
parse_command-split_line m f command b n r l cn ca short early =
    let p = command + (b + n) in
    let m₀ = moved m f.exe_name (command + b) n in
    let m₁ = store8 m₀ (f.exe_name + n) 0 in
    let kept : store8 m₀ (u32 (f.exe_name + kept_name n)) 0 ≡ m₁ =
      ap (λ a. store8 m₀ a 0) (ground (arith, cn.clear_fits)) in
    parse_command-parse_args m f command b n r l
    ∙ ap (parse_args f command b n) (
        copy_name-fits m f.exe_name command b n (omega (arith, l.line_fits))
          (Clear-part cn (omega arith) (omega arith) (omega arith)) (omega arith) early)
    ∙ ap (λ m'. copy_args address_space m' f.args_buf command (b + n) 0 >>= λ m'. some (copied m'))
        (kept ∙ fun_ext (λ a. ground arith))
    ∙ ap (λ o. o >>= λ m'. some (copied m'))
        (copy_args_lem address_space m₁ f.args_buf command (b + n) r 0 (omega (arith, l.line_fits))
          (Clear-part ca (omega arith) (omega arith) (omega arith))
          (λ i h.
            ap ends_line (name_kept m f.exe_name command b n r i cn (omega arith)) ∙ l.args i h)
          (ap ends_line (name_kept m f.exe_name command b n r r cn (omega arith)) ∙ l.line_ends)
          (omega arith) (omega (arith, l.line_fits)))
    ∙ ap (λ a. some (copied (store8 (moved m₁ f.args_buf p r) a 0))) (omega (arith, ca.clear_fits))

-- A name of 34 bytes or more with at most 94 blanks in front is refused as too long, where `exe_name`
-- lies outside the line; but 33 bytes of it have gone to `exe_name`, which has 32.
pub parse_command-too_long :
    (m : Mem) (f : Frame) (command b n r : ℕ)
    → Line m command b (34 + n) r
    → Clear f.exe_name 33 command (b + (34 + n) + r + 1)
    → b + 33 < 128
    → parse_command m f command ≡ some (too_long (moved m f.exe_name (command + b) 33))
unfolding parse_args
parse_command-too_long m f command b n r l c early =
    parse_command-parse_args m f command b (34 + n) r l
    ∙ ap (parse_args f command b (34 + n)) (
        copy_name-too_long n m f.exe_name command b (omega (arith, l.line_fits))
          (Clear-part c (omega arith) (omega arith) (omega arith)) early)
