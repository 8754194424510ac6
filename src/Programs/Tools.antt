-- ===== src/Programs/Tools.antt =====
-- The programs ece391counter.c, ece391grep.c and ece391pingpong.c of syscalls/.
use ece391_mp3_illinix.Support.{ece391_itoa, ece391_strncmp, ece391_strcpy}
use ece391_mp3_illinix.Memory.{Mem, store32}
use ece391_mp3_illinix.Programs.{Calls, say, poke, give_up, ece391_strlen, codes, show}
use ece391_mp3_illinix.Prelude.{
  ℕ, zero, suc, ◌+◌, ◌-◌, not, ◌&&◌, ◌||◌, Option, none, some, ltb, ◌==◌, if◌then◌else◌, ◌>>=◌,
}
use ece391_mp3_illinix.Word.{u8, u32, sub32, minus_one, is_neg, sle}

-- The loop of `do_one_file` that looks for the end of a line, with at most `rest` bytes to go.
pub line_end_from : Mem → ℕ → ℕ → ℕ → ℕ
line_end_from m data_buf line_end zero = line_end
line_end_from m data_buf line_end (suc rest) =
    let next = line_end_from m data_buf (line_end + 1) rest in
    if m (u32 (data_buf + line_end)) == b'\n' then line_end else next

abbrev pub line_end_of : Mem → ℕ → ℕ → ℕ → ℕ
line_end_of m data_buf line_start last =
    line_end_from m data_buf line_start (if is_neg last then 0 else last - line_start)

-- `close` is the one call besides those of `Calls`.
module _ {S : Type 0} (calls : Calls S) (close : S → ℕ → Option (ℕ × S)) where
  -- The loop of `counter`: the numbers from `i + 1` on, `rest` of them.
  pub count_up : S → ℕ → ℕ → ℕ → Option S
  count_up s buf i zero = some s
  count_up s buf i (suc rest) = ece391_itoa (calls.memory s) (i + 1) buf 10 >>= λ m.
      show calls (calls.with_memory s m) buf >>= λ s₁.
      say calls s₁ (codes "\n") >>= λ s₂. count_up s₂ buf (i + 1) rest

  -- How far `counter` counts.
  abbrev pub max_of : ℕ → ℕ
  max_of choice =
      if choice == b'0'
      then 100
      else if choice == b'1'
      then 10000
      else if choice == b'2'
      then 100000
      else 0

  unfoldable pub counter : S → ℕ → Option (ℕ × S)
  unfolding count_up
  counter s buf =
      say calls s (codes "Enter the Test Number: (0): 100, (1): 10000, (2): 100000\n") >>= λ s₁.
      calls.read s₁ 0 buf 1023 >>= λ r.
      (let s₂ = poke calls r.1 (u32 (buf + r.0)) 0 in
        let choice = calls.memory s₂ buf in
        let count = ece391_strlen (calls.memory s₂) buf >>= λ len.
        (if ltb 2 len || (len == 2 && (ltb choice b'0' || ltb b'2' choice))
          then give_up calls s₂ (codes "Wrong Choice!\n") 0
          else (count_up s₂ buf 0 (max_of choice) >>= λ s₃. some (0, s₃))) in
        if r.0 == minus_one
        then give_up calls r.1 (codes "Can't read the number from keyboard.\n") 3
        else count)

  -- The search of one line of `data_buf`: `rest` places from `check` on. A line is shown once.
  pub search_line : S → ℕ → ℕ → ℕ → ℕ → ℕ → ℕ → ℕ → Option S
  search_line s text s_len fname data_buf line_start check zero = some s
  search_line s text s_len fname data_buf line_start check (suc rest) =
      let m = calls.memory s in
      let place = u32 (data_buf + check) in
      let next = search_line s text s_len fname data_buf line_start (check + 1) rest in
      if m text == m place && ece391_strncmp m place text s_len == 0
      then (show calls s fname >>= λ s₁. say calls s₁ (codes ":") >>= λ s₂.
          show calls s₂ (u32 (data_buf + line_start)) >>= λ s₃. say calls s₃ (codes "\n"))
      else next

  -- The loop over the lines of what was read: what it leaves in `last`. A line starts behind the one
  -- before it, so that `last + 1` rounds are enough.
  pub search_lines : ℕ → S → ℕ → ℕ → ℕ → ℕ → ℕ → ℕ → ℕ → Option (ℕ × S)
  unfolding search_line
  search_lines zero s text s_len fname data_buf cnt last line_start = none
  search_lines (suc fuel) s text s_len fname data_buf cnt last line_start =
      let m = calls.memory s in
      let line_end = line_end_of m data_buf line_start last in
      let cut =
        not (m (u32 (data_buf + line_end)) == b'\n') && not (cnt == 0) && not (line_start == 0) in
      let s₁ = poke calls s (u32 (data_buf + line_end)) 0 in
      let move = ece391_strcpy (calls.memory s₁) data_buf (u32 (data_buf + line_start)) >>= λ m'.
      some (sub32 last line_start, calls.with_memory s₁ m') in
      let search =
        search_line s₁ text s_len fname data_buf line_start line_start (line_end - line_start)
        >>= λ s₂.
            (let next = search_lines fuel s₂ text s_len fname data_buf cnt last (line_end + 1) in
              if sle last (u32 (line_end + 1)) then some (0, s₂) else next) in
      if cut then move else search

  -- The outer loop of `do_one_file`, for at most `fuel` reads.
  pub search_file : ℕ → S → ℕ → ℕ → ℕ → ℕ → ℕ → ℕ → Option (ℕ × S)
  unfolding search_lines
  search_file zero s text s_len fname fd data_buf last = none
  search_file (suc fuel) s text s_len fname fd data_buf last =
      calls.read s fd (u32 (data_buf + last)) (sub32 1024 last) >>= λ r.
      (let cnt = r.0 in
        let filled = u32 (last + cnt) in
        let again = search_lines (filled + 1) r.1 text s_len fname data_buf cnt filled 0 >>= λ t.
        (let next = search_file fuel t.1 text s_len fname fd data_buf t.0 in
          let done = close t.1 fd >>= λ c.
          (if c.0 == minus_one
            then give_up calls c.1 (codes "file close failed\n") minus_one
            else some (0, c.1)) in
          if cnt == 0 then done else next) in
        if cnt == minus_one
        then give_up calls r.1 (codes "file read failed\n") minus_one
        else again)

  unfoldable pub do_one_file : ℕ → S → ℕ → ℕ → ℕ → Option (ℕ × S)
  unfolding search_file
  do_one_file fuel s text fname data_buf = ece391_strlen (calls.memory s) text >>= λ s_len.
      calls.open_file s fname >>= λ f.
      if f.0 == minus_one
      then give_up calls f.1 (codes "file open failed\n") minus_one
      else search_file fuel f.1 text s_len fname f.0 data_buf 0

  -- The loop of `grep` over the directory; `data_buf` is the array of `do_one_file`.
  pub search_directory : ℕ → S → ℕ → ℕ → ℕ → ℕ → Option (ℕ × S)
  unfolding do_one_file
  search_directory zero s fd buf search data_buf = none
  search_directory (suc fuel) s fd buf search data_buf = calls.read s fd buf 32 >>= λ r.
      (let cnt = r.0 in
        let skip = search_directory fuel r.1 fd buf search data_buf in
        let named = poke calls r.1 (u32 (buf + cnt)) 0 in
        let one = do_one_file fuel named search buf data_buf >>= λ o.
        (let rest = search_directory fuel o.1 fd buf search data_buf in
          if not (o.0 == 0) then some (3, o.1) else rest) in
        if cnt == 0
        then some (0, r.1)
        else if cnt == minus_one
        then give_up calls r.1 (codes "directory entry read failed\n") 3
        else if calls.memory r.1 buf == b'.'
        then skip
        else one)

  unfoldable pub grep : ℕ → S → ℕ → ℕ → ℕ → Option (ℕ × S)
  unfolding search_directory
  grep fuel s buf search data_buf = calls.getargs s search 1024 >>= λ a.
      (let directory = calls.open_file a.1 (calls.literal (codes ".")) >>= λ f.
      (if f.0 == minus_one
        then give_up calls f.1 (codes "directory open failed\n") 2
        else search_directory fuel f.1 f.0 buf search data_buf) in
        if not (a.0 == 0)
        then give_up calls a.1 (codes "could not read argument\n") 3
        else directory)

  -- The loops of `pingpong` that write blanks, `rest` of them from `i` on.
  pub blanks : S → ℕ → ℕ → ℕ → S
  blanks s buf i zero = s
  blanks s buf i (suc rest) = blanks (poke calls s (u32 (buf + i)) b' ') buf (i + 1) rest

  -- One frame: the world is cleared, the character drawn at `j`, and a tick waited for.
  abbrev pub frame_at : S → ℕ → ℕ → ℕ → ℕ → ℕ → Option S
  frame_at s buf garbage rtc_fd curchar j =
      show calls (poke calls (blanks s buf 2 76) (u32 (buf + j)) curchar) buf >>= λ s₁.
      calls.read s₁ rtc_fd garbage 4 >>= λ r. some r.1

  -- The way out from `j` on, `rest` frames, and the way back, from `j = rest + 1` down to 2.
  pub move_out : S → ℕ → ℕ → ℕ → ℕ → ℕ → ℕ → Option S
  unfolding blanks
  move_out s buf garbage rtc_fd curchar j zero = some s
  move_out s buf garbage rtc_fd curchar j (suc rest) =
      frame_at s buf garbage rtc_fd curchar j >>= λ s₁.
      move_out s₁ buf garbage rtc_fd curchar (j + 1) rest

  pub bounce_back : S → ℕ → ℕ → ℕ → ℕ → ℕ → Option S
  unfolding blanks
  bounce_back s buf garbage rtc_fd curchar zero = some s
  bounce_back s buf garbage rtc_fd curchar (suc rest) =
      frame_at s buf garbage rtc_fd curchar (rest + 2) >>= λ s₁.
      bounce_back s₁ buf garbage rtc_fd curchar rest

  -- The rounds of the outer loop, which has no other end than `fuel`.
  pub pingpong_loop : ℕ → S → ℕ → ℕ → ℕ → ℕ → Option (ℕ × S)
  unfolding move_out bounce_back
  pingpong_loop zero s buf garbage rtc_fd curchar = none
  pingpong_loop (suc fuel) s buf garbage rtc_fd curchar =
      move_out s buf garbage rtc_fd curchar 2 76 >>= λ s₁.
      bounce_back s₁ buf garbage rtc_fd curchar 76 >>= λ s₂.
      pingpong_loop fuel s₂ buf garbage rtc_fd (if curchar == b'Z' then b'A' else u8 (curchar + 1))

  -- `pingpong`, with its locals `buf`, `ret_val` and `garbage`.
  unfoldable pub pingpong : ℕ → S → ℕ → ℕ → ℕ → Option (ℕ × S)
  unfolding blanks pingpong_loop
  pingpong fuel s buf ret_val garbage =
      let wall = poke calls (blanks s buf 0 81) (u32 (buf + 80)) 0 in
      let line = poke calls (poke calls wall (u32 (buf + 79)) b'\n') (u32 (buf + 78)) b'|' in
      let world = poke calls line (u32 (buf + 1)) b'|' in
      calls.open_file world (calls.literal (codes "rtc")) >>= λ f.
      calls.write (calls.with_memory f.1 (store32 (calls.memory f.1) ret_val 32)) f.0 ret_val 4
      >>= λ w.
          pingpong_loop fuel (calls.with_memory w.1 (store32 (calls.memory w.1) ret_val w.0)) buf
            garbage f.0 b'A'
