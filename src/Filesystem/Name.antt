-- ===== src/Filesystem/Name.antt =====
-- `read_dentry_by_name` of student-distrib/filesystem.c against a search by whole names.
use ece391_mp3_illinix.Prelude.{
  ℕ, zero, suc, ◌+◌, ◌-◌, ◌*◌, ◌^◌, ◌≤◌, ◌<◌, ◌≡◌, refl, ap, subst, inl, inr, Bool, true, false,
  ◌&&◌, ◌||◌, Option, none, some, arith, dec_lt, ltb, leb, ◌==◌, if◌then◌else◌, Bool-cases,
}
use ece391_mp3_illinix.Word.{u32, minus_one}
use ece391_mp3_illinix.Memory.{Mem, memcpy}
use ece391_mp3_illinix.Text.{at, strncmp_from, strncmp}
use ece391_mp3_illinix.Text.Length.{CString, strlen-eq}
use ece391_mp3_illinix.Filesystem.{Fs, entry_matches, read_dentry_from, read_dentry_by_name}

-- Whether two names agree: byte by byte, until both end or `k` bytes have been seen.
unfoldable pub same_name : Mem → ℕ → ℕ → ℕ → ℕ → Bool
same_name m a b i zero = true
same_name m a b i (suc k) = at m a i == at m b i && (at m a i == 0 || same_name m a b (i + 1) k)

-- The address of the first of `k` entries whose name of at most 32 bytes is `fname`.
unfoldable pub find_entry : Mem → ℕ → ℕ → ℕ → Option ℕ
unfolding same_name
find_entry m fname addr zero = none
find_entry m fname addr (suc k) =
    if same_name m fname addr 0 32 then some addr else find_entry m fname (u32 (addr + 64)) k

-- What the code returns and writes for an entry, or for none.
abbrev pub dentry_result : Mem → ℕ → Option ℕ → ℕ × Mem
dentry_result m dentry none = (minus_one, m)
dentry_result m dentry (some addr) = (0, memcpy m dentry addr 40)

-- Memory holds bytes.
abbrev pub IsBytes : Mem → Type 0
IsBytes m = (a : ℕ) → m a < 256

-- From byte `i` on, with `k = n - i` bytes of the name left.
entry_matches_from :
    (m : Mem) (f e n l i k : ℕ)
    → IsBytes m
    → CString m f n
    → CString m e l
    → i + k ≡ n
    → n ≤ 32
    → i ≤ l
    → (strncmp_from m f e i k == 0 && (if leb 32 n && leb 32 l then true else n == l))
      ≡ same_name m f e i (32 - i)
unfolding strncmp_from same_name
entry_matches_from m f e n l i zero bytes cf ce h short le = elim (dec_lt n 32) [
  | yes lt ↦
      let s : 32 - i ≡ suc (31 - i) = omega arith in
      let z : at m f i ≡ 0 = subst (λ j. at m f j ≡ 0) (omega arith) cf.nul in
      rw s (ground (arith, z, ce.nul, ce.no_nul i))
  | no full ↦ let s : 32 - i ≡ 0 = omega arith in rw s (ground arith)
]
entry_matches_from m f e n l i (suc k) bytes cf ce h short le =
    let s : 32 - i ≡ suc (32 - (i + 1)) = omega arith in
    rw s (
      ground (
        arith,
        bytes (u32 (f + i)),
        bytes (u32 (e + i)),
        cf.no_nul i,
        ce.no_nul i,
        ce.nul,
        entry_matches_from m f e n l (i + 1) k bytes cf ce,
      ))

entry_matches_lem :
    (m : Mem) (f e n l : ℕ)
    → IsBytes m
    → CString m f n
    → CString m e l
    → n ≤ 32
    → entry_matches m f n e ≡ some (same_name m f e 0 32)
unfolding entry_matches strncmp
entry_matches_lem m f e n l bytes cf ce short =
    rw (strlen-eq m e l ce)
      (ap some (entry_matches_from m f e n l 0 n bytes cf ce (omega arith) short (omega arith)))

-- Every name in the directory ends somewhere in memory.
abbrev pub EntriesEnd : Mem → ℕ → ℕ → Type 0
EntriesEnd m addr k = (j : ℕ) → j < k → (l : ℕ) × CString m (u32 (addr + 64 * j)) l

read_dentry_from_lem :
    (m : Mem) (f n dentry addr k : ℕ)
    → IsBytes m
    → CString m f n
    → n ≤ 32
    → addr < 2 ^ 32
    → EntriesEnd m addr k
    → read_dentry_from m f n dentry addr k ≡ some (dentry_result m dentry (find_entry m f addr k))
unfolding read_dentry_from find_entry
read_dentry_from_lem m f n dentry addr zero bytes cf short fits ends = refl
read_dentry_from_lem m f n dentry addr (suc k) bytes cf short fits ends =
    let (l, ce) = ends 0 (omega arith) in
    let here : CString m addr l = subst (λ a. CString m a l) (omega arith) ce in
    let later : EntriesEnd m (u32 (addr + 64)) k = λ j h.
      let (l', c) = ends (j + 1) (omega arith) in
      (l', subst (λ a. CString m a l') (omega arith) c) in
    let ih =
      read_dentry_from_lem m f n dentry (u32 (addr + 64)) k bytes cf short (omega arith) later in
    rw (entry_matches_lem m f addr n l bytes cf here short)
      (elim (Bool-cases (same_name m f addr 0 32)) [ inl e ↦ rw e | inr e ↦ rw e ih ])

-- A name of at most 32 bytes is looked for in the whole directory, by all of its bytes: the code
-- copies the first entry of that name and returns 0, and returns -1 if there is none. A longer name
-- is refused.
pub read_dentry_by_name-find_entry :
    (m : Mem) (fs : Fs) (fname n dentry : ℕ)
    → IsBytes m
    → CString m fname n
    → fs.dentry_addr < 2 ^ 32
    → EntriesEnd m fs.dentry_addr fs.num_dentries
    → read_dentry_by_name m fs fname dentry
      ≡ some (
          dentry_result m dentry
            (if ltb 32 n then none else find_entry m fname fs.dentry_addr fs.num_dentries))
unfolding read_dentry_by_name
read_dentry_by_name-find_entry m fs fname n dentry bytes cf fits ends =
    rw (strlen-eq m fname n cf) (elim (dec_lt 32 n) [
      | yes long ↦ ground arith
      | no short ↦
          let e : ltb 32 n ≡ false = ground arith in
          rw e (
            read_dentry_from_lem m fname n dentry fs.dentry_addr fs.num_dentries bytes cf
              (omega arith) fits ends)
    ])
