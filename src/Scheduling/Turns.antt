-- ===== src/Scheduling/Turns.antt =====
-- The turns that the scheduler of student-distrib/scheduling.c gives to the terminals.
use ece391_mp3_illinix.Prelude.{
  ℕ, zero, suc, ◌≤◌, ◌<◌, ◌≡◌, refl, sym, ap, ◌∙◌, ◌⊎◌, inl, inr, Bool, true, false, not, ◌&&◌,
  ◌||◌, arith, ltb, ◌==◌, if◌then◌else◌, ==_iff, every_below, every_below_use,
}
use ece391_mp3_illinix.Kernel.{Kernel}
use ece391_mp3_illinix.Terminal.{is_running}
use ece391_mp3_illinix.Scheduling.{next_from, next_terminal}

-- The terminal that runs after `turns` choices.
unfoldable pub after_turns : Kernel → ℕ → ℕ
unfolding next_terminal
after_turns k zero = k.running_terminal
after_turns k (suc turns) = after_turns (record k { running_terminal = next_terminal k }) turns

pick : (ℕ → Bool) → ℕ → ℕ
unfolding next_from
pick f here = next_from f here here 0 3

-- The three terminals by whether they run.
flags : Bool → Bool → Bool → ℕ → Bool
flags a b c t = if t == 0 then a else if t == 1 then b else c

-- Every choice is a terminal, and one that runs is among the next three choices.
served : (ℕ → Bool) → ℕ → ℕ → Bool
unfolding pick
served f here t =
    ltb (pick f here) 3
    && (not (f t)
        || pick f here == t
        || pick f (pick f here) == t
        || pick f (pick f (pick f here)) == t)

table : (a b c : Bool) → every_below 3 (λ here. every_below 3 (served (flags a b c) here)) ≡ true
unfolding every_below served pick flags
table true true true = refl
table true true false = refl
table true false true = refl
table true false false = refl
table false true true = refl
table false true false = refl
table false false true = refl
table false false false = refl

module _ (f : ℕ → Bool) where
  abbrev g : ℕ → Bool
  g = flags (f 0) (f 1) (f 2)

  pick-flags : (here : ℕ) → here < 3 → pick f here ≡ pick g here
  unfolding pick flags
  pick-flags zero h = refl
  pick-flags (suc zero) h = refl
  pick-flags (suc (suc zero)) h = refl
  pick-flags (suc (suc (suc here))) h = absurd (omega arith)

  at_flags : (t : ℕ) → t < 3 → f t ≡ g t
  unfolding flags
  at_flags zero h = refl
  at_flags (suc zero) h = refl
  at_flags (suc (suc zero)) h = refl
  at_flags (suc (suc (suc t))) h = absurd (omega arith)

  entry : (here t : ℕ) → here < 3 → t < 3 → served g here t ≡ true
  entry here t hh ht =
      every_below_use 3 _ t
        (every_below_use 3 (λ x. every_below 3 (served g x)) here (table (f 0) (f 1) (f 2)) hh) ht

  pick-lt : (here : ℕ) → here < 3 → pick f here < 3
  pick-lt here h =
      let e = entry here 0 h (omega arith) in rw (pick-flags here h) (unfold served in ground arith)

  pick_turns :
      (here t : ℕ)
      → here < 3
      → t < 3
      → f t ≡ true
      → (pick f here ≡ t) ⊎ ((pick f (pick f here) ≡ t) ⊎ (pick f (pick f (pick f here)) ≡ t))
  pick_turns here t hh ht on =
      let e : served g here t ≡ true = entry here t hh ht in
      let h₁ = pick-lt here hh in
      let h₂ = pick-lt (pick f here) h₁ in
      let e₁ = pick-flags here hh in
      let e₂ : pick f (pick f here) ≡ pick g (pick g here) = pick-flags _ h₁ ∙ ap (pick g) e₁ in
      let e₃ : pick f (pick f (pick f here)) ≡ pick g (pick g (pick g here)) =
        pick-flags _ h₂ ∙ ap (pick g) e₂ in
      let on' : g t ≡ true = sym (at_flags t ht) ∙ on in
      rw (e₃, e₂, e₁) (unfold served in ground arith)

-- No terminal that runs is passed over for long: wherever the scheduler stands, one of its next three
-- choices is that terminal.
pub after_turns_comes :
    (k : Kernel) (t : ℕ)
    → k.running_terminal < 3
    → t < 3
    → is_running k t ≡ 1
    → (n : ℕ) × (0 < n) × (n ≤ 3) × (after_turns k n ≡ t)
unfolding after_turns is_running pick
after_turns_comes k t h ht on =
    let f : ℕ → Bool = λ x. is_running k x == 1 in
    let on' : f t ≡ true = (==_iff _ _).1 on in
    elim (pick_turns f k.running_terminal t h ht on') [
      | inl e ↦ (1, omega arith, omega arith, e)
      | inr later ↦ elim later [
        | inl e ↦ (2, omega arith, omega arith, e)
        | inr e ↦ (3, omega arith, omega arith, e)
      ]
    ]
