-- ===== src/Support/Compare.antt =====
-- The comparisons of syscalls/ece391support.c.
use ece391_mp3_illinix.Text.Length.{CString}
use ece391_mp3_illinix.Text.{strncmp, strncmp_from}
use ece391_mp3_illinix.Memory.{Mem}
use ece391_mp3_illinix.Support.{
  ece391_strncmp, ece391_strncmp_from, ece391_strcmp, at, ece391_strcmp_from, address_space,
}
use ece391_mp3_illinix.Prelude.{
  ℕ, zero, suc, ◌+◌, ◌-◌, ◌^◌, ◌≤◌, ◌<◌, ◌≡◌, refl, sym, ap, ap₂, ◌∙◌, subst, ◌≢◌, ◌↔◌, true, false,
  Option, some, arith, dec_lt, ℕ_discrete, ◌==◌, if_false, if_true,
}
use ece391_mp3_illinix.Word.{u32, sub32}

-- Two strings, of `n1` and `n2` bytes, with the same bytes.
pub record SameText (m : Mem) (s1 n1 s2 n2 : ℕ) : Type 0 where
  pub same_length : n1 ≡ n2
  pub same_bytes : (i : ℕ) → i < n1 → at m s1 i ≡ at m s2 i

module _ (m : Mem) (s1 n1 s2 n2 : ℕ) (bytes : (a : ℕ) → m a < 256) (c1 : CString m s1 n1)
    (c2 : CString m s2 n2) where
  abbrev Answer : Option ℕ → Type 0
  Answer o = (c : ℕ) × (o ≡ some c) × ((c ≡ 0) ↔ SameText m s1 n1 s2 n2)

  differs :
      (i : ℕ)
      → i ≤ n1
      → at m s1 i ≢ at m s2 i
      → (sub32 (at m s1 i) (at m s2 i) ≡ 0) ↔ SameText m s1 n1 s2 n2
  differs i h ne = (
    λ z. absurd (ne (omega (arith, bytes (u32 (s1 + i)), bytes (u32 (s2 + i))))),
    λ t. elim (dec_lt i n1) [
      | yes lt ↦ absurd (ne (t.same_bytes i lt))
      | no ge ↦
          let e : i ≡ n1 = omega arith in
          let e2 : i ≡ n2 = e ∙ t.same_length in
          absurd (ne (ap (at m s1) e ∙ c1.nul ∙ sym c2.nul ∙ ap (at m s2) (sym e2)))
    ],
  )

  ends :
      (i : ℕ)
      → i ≤ n1
      → i ≤ n2
      → ((j : ℕ) → j < i → at m s1 j ≡ at m s2 j)
      → at m s1 i ≡ at m s2 i
      → at m s1 i ≡ 0
      → SameText m s1 n1 s2 n2
  ends i h1 h2 agree eq z =
      let e1 : i ≡ n1 = ground (arith, c1.no_nul i) in
      let e2 : i ≡ n2 = ground (arith, c2.no_nul i) in
      record { same_length = sym e1 ∙ e2; same_bytes = λ j h. agree j (omega arith) }

  ece391_strcmp_from-Answer :
      (fuel i : ℕ)
      → i ≤ n1
      → i ≤ n2
      → n1 - i < fuel
      → ((j : ℕ) → j < i → at m s1 j ≡ at m s2 j)
      → Answer (ece391_strcmp_from fuel m (u32 (s1 + i)) (u32 (s2 + i)))
  unfolding ece391_strcmp_from
  ece391_strcmp_from-Answer zero i h1 h2 f agree = absurd (omega arith)
  ece391_strcmp_from-Answer (suc fuel) i h1 h2 f agree = elim (ℕ_discrete (at m s1 i) (at m s2 i)) [
    | no ne ↦
        let t : (at m s1 i == at m s2 i) ≡ false = ground arith in
        (sub32 (at m s1 i) (at m s2 i), if_false t _ _, differs i h1 ne)
    | yes eq ↦
        let t : (at m s1 i == at m s2 i) ≡ true = ground arith in
        elim (ℕ_discrete (at m s1 i) 0) [
          | yes z ↦
              let t0 : (at m s1 i == 0) ≡ true = ground arith in
              (0, if_true t _ _ ∙ if_true t0 _ _, ((λ q. ends i h1 h2 agree eq z), λ q. refl))
          | no nz ↦
              let t0 : (at m s1 i == 0) ≡ false = ground arith in
              let lt1 : i < n1 = ground (arith, c1.nul) in
              let lt2 : i < n2 = ground (arith, c2.nul) in
              let rest =
                ece391_strcmp_from-Answer fuel (i + 1) (omega arith) (omega arith) (omega arith)
                  (λ j h. elim (ℕ_discrete j i) [
                    | yes e ↦ subst (λ j. at m s1 j ≡ at m s2 j) (sym e) eq
                    | no n ↦ agree j (omega arith)
                  ]) in
              (
                rest.0,
                if_true t _ _
                    ∙ if_false t0 _ _
                    ∙ ap₂ (ece391_strcmp_from fuel m) (omega arith) (omega arith)
                    ∙ rest.1,
                rest.2,
              )
        ]
  ]

-- On two strings that end in a NUL, in a memory of bytes, `ece391_strcmp` returns, and it returns 0
-- exactly when the strings have the same length and the same bytes.
pub ece391_strcmp-SameText :
    (m : Mem) (s1 n1 s2 n2 : ℕ)
    → ((a : ℕ) → m a < 256)
    → s1 < 2 ^ 32
    → s2 < 2 ^ 32
    → CString m s1 n1
    → CString m s2 n2
    → (c : ℕ) × (ece391_strcmp m s1 s2 ≡ some c) × ((c ≡ 0) ↔ SameText m s1 n1 s2 n2)
unfolding ece391_strcmp
ece391_strcmp-SameText m s1 n1 s2 n2 bytes h1 h2 c1 c2 =
    let r =
      ece391_strcmp_from-Answer m s1 n1 s2 n2 bytes c1 c2 address_space 0 (omega arith)
        (omega arith) (omega (arith, c1.short)) (λ j h. absurd (omega arith)) in
    (r.0, ap₂ (ece391_strcmp_from address_space m) (omega arith) (omega arith) ∙ r.1, r.2)

strncmp_lem :
    (m : Mem) (s1 s2 i n : ℕ)
    → ((a : ℕ) → m a < 128)
    → ece391_strncmp_from m (u32 (s1 + i)) (u32 (s2 + i)) n ≡ strncmp_from m s1 s2 i n
unfolding ece391_strncmp_from strncmp_from
strncmp_lem m s1 s2 i zero ascii = refl
strncmp_lem m s1 s2 i (suc zero) ascii = ground (arith, ascii (u32 (s1 + i)), ascii (u32 (s2 + i)))
strncmp_lem m s1 s2 i (suc (suc n)) ascii =
    let e1 : u32 (u32 (s1 + i) + 1) ≡ u32 (s1 + (i + 1)) = omega arith in
    let e2 : u32 (u32 (s2 + i) + 1) ≡ u32 (s2 + (i + 1)) = omega arith in
    rw (e1, e2, strncmp_lem m s1 s2 (i + 1) (suc n) ascii)
      (ground (arith, ascii (u32 (s1 + i)), ascii (u32 (s2 + i))))

-- On text of 7-bit characters the user's `ece391_strncmp` returns what the kernel's `strncmp` returns,
-- its sign included, though one moves pointers and counts down and the other counts up.
pub ece391_strncmp-strncmp :
    (m : Mem) (s1 s2 n : ℕ)
    → ((a : ℕ) → m a < 128)
    → s1 < 2 ^ 32
    → s2 < 2 ^ 32
    → ece391_strncmp m s1 s2 n ≡ strncmp m s1 s2 n
unfolding ece391_strncmp strncmp
ece391_strncmp-strncmp m s1 s2 zero ascii h1 h2 = unfold strncmp_from in refl
ece391_strncmp-strncmp m s1 s2 (suc n) ascii h1 h2 =
    let t : (0 == suc n) ≡ false = ground arith in
    if_false t _ _
    ∙ ap₂ (λ a b. ece391_strncmp_from m a b (suc n)) (omega arith) (omega arith)
    ∙ strncmp_lem m s1 s2 0 (suc n) ascii
