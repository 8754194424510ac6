-- ===== src/Console/Keys.antt =====
-- The line of keys of student-distrib/lib.c against the list of the keys typed.
use ece391_mp3_illinix.Prelude.{
  ℕ, zero, suc, ◌+◌, ◌-◌, ◌^◌, ◌≤◌, ◌<◌, min, ◌≡◌, refl, List, [], ◌∷◌, ◌++◌, arith, length, get_or,
  take, length-append, length-take,
}
use ece391_mp3_illinix.Console.{Screen, key_arr_push, key_arr_pop}

-- The keys typed since the line was cleared, oldest first. The array keeps the first 127, and
-- `key_arr_overflow` counts the others, up to what a uint8_t holds.
pub record Holds (s : Screen) (typed : List ℕ) : Type 0 where
  pub fits : s.key_arr + 128 < 2 ^ 32
  pub kept : s.key_arr_ptr ≡ min 127 (length typed)
  pub over : s.key_arr_overflow ≡ length typed - 127
  pub counted : length typed ≤ 127 + 255
  pub bytes : (i : ℕ) → i < s.key_arr_ptr → s.mem (s.key_arr + i) ≡ get_or typed i 0

get_or-append : (xs ys : List ℕ) (i : ℕ) → i < length xs → get_or (xs ++ ys) i 0 ≡ get_or xs i 0
get_or-append [] ys i h = elim h [ ]
get_or-append (x ∷ xs) ys zero h = refl
get_or-append (x ∷ xs) ys (suc i) h = get_or-append xs ys i (omega arith)

get_or-append_last : (xs : List ℕ) (c : ℕ) → get_or (xs ++ (c ∷ [])) (length xs) 0 ≡ c
get_or-append_last [] c = refl
get_or-append_last (x ∷ xs) c = get_or-append_last xs c

get_or-take : (n : ℕ) (xs : List ℕ) (i : ℕ) → i < n → get_or (take n xs) i 0 ≡ get_or xs i 0
get_or-take zero xs i h = elim h [ ]
get_or-take (suc n) [] i h = refl
get_or-take (suc n) (x ∷ xs) zero h = refl
get_or-take (suc n) (x ∷ xs) (suc i) h = get_or-take n xs i (omega arith)

-- A key pressed: while fewer than 382 keys are held it is appended to the line.
pub key_arr_push-Holds :
    {s : Screen} {typed : List ℕ} (c : ℕ)
    → Holds s typed
    → length typed < 127 + 255
    → Holds (key_arr_push s c) (typed ++ (c ∷ []))
unfolding key_arr_push
key_arr_push-Holds {s} {typed} c v h = record {
  fits = ground (arith, v.fits);
  kept = ground (arith, v.kept, length-append typed (c ∷ []));
  over = ground (arith, v.kept, v.over, length-append typed (c ∷ []));
  counted = omega (arith, length-append {0} typed (c ∷ []));
  bytes = λ i q. ground (
    arith,
    v.fits,
    v.kept,
    v.bytes i,
    get_or-append typed (c ∷ []) i,
    get_or-append_last typed c,
  );
}

-- A key taken back: the last one typed, if there is one.
pub key_arr_pop-Holds :
    {s : Screen} {typed : List ℕ}
    → Holds s typed
    → Holds (key_arr_pop s) (take (length typed - 1) typed)
unfolding key_arr_pop
key_arr_pop-Holds {s} {typed} v = record {
  fits = ground (arith, v.fits);
  kept = ground (arith, v.kept, v.over, length-take (length typed - 1) typed);
  over = ground (arith, v.kept, v.over, length-take (length typed - 1) typed);
  counted = omega (arith, v.counted, length-take {0} (length typed - 1) typed);
  bytes = λ i q. ground (arith, v.kept, v.over, v.bytes i, get_or-take (length typed - 1) typed i);
}

-- What a user does to the line, on the model and on the list of keys.
pub data KeyEdit : Type 0 where
  pushes : ℕ → KeyEdit
  pops : KeyEdit

unfoldable pub edited : Screen → List KeyEdit → Screen
edited s [] = s
edited s (pushes c ∷ es) = edited (key_arr_push s c) es
edited s (pops ∷ es) = edited (key_arr_pop s) es

unfoldable pub edited_list : List ℕ → List KeyEdit → List ℕ
edited_list typed [] = typed
edited_list typed (pushes c ∷ es) = edited_list (typed ++ (c ∷ [])) es
edited_list typed (pops ∷ es) = edited_list (take (length typed - 1) typed) es

-- However a user types and takes back, while at most 382 keys can be held the array with its two
-- counters holds the list of the keys typed, each key taken back being the last one of the list.
pub edited-Holds :
    (s : Screen) (typed : List ℕ) (es : List KeyEdit)
    → Holds s typed
    → length typed + length es ≤ 127 + 255
    → Holds (edited s es) (edited_list typed es)
unfolding edited edited_list
edited-Holds s typed [] v h = v
edited-Holds s typed (pushes c ∷ es) v h =
    edited-Holds (key_arr_push s c) (typed ++ (c ∷ [])) es (key_arr_push-Holds c v (omega arith))
      (omega (arith, length-append {0} typed (c ∷ [])))
edited-Holds s typed (pops ∷ es) v h =
    edited-Holds (key_arr_pop s) (take (length typed - 1) typed) es (key_arr_pop-Holds v)
      (omega (arith, length-take {0} (length typed - 1) typed))
