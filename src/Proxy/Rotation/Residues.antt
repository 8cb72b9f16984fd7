-- ===== src/Proxy/Rotation/Residues.antt =====
-- How often consecutive numbers have a remainder: the arithmetic of middleware/reverseproxy's round robin.
use native.Mathlib.Nat.{add-mod_right, mod-eq_of_lt, suc-mul}
use zerohttp.Prelude.{
  ℕ, zero, suc, ◌+◌, ◌*◌, ◌%◌, ◌≤◌, ◌<◌, ◌≡◌, refl, ◌∙◌, ap, arith, if◌then◌else◌, nat_beq, ltb,
}

-- Of `n` numbers from `c` on, how many have the remainder `i`.
module _ (l : ℕ) where
  abbrev pub hit : ℕ → ℕ → ℕ
  hit i c = if nat_beq (c % l) i then 1 else 0

  abbrev pub hits : ℕ → ℕ → ℕ → ℕ
  hits i c zero = 0
  hits i c (suc n) = hit i c + hits i (c + 1) n

  -- The number of a window given by equal data.
  moved : (i c d n m : ℕ) → c ≡ d → n ≡ m → hits i c n ≡ hits i d m
  moved i c d n m e f = ap (λ x. hits i x n) e ∙ ap (λ x. hits i d x) f

  hits_add : (i c n m : ℕ) → hits i c (n + m) ≡ hits i c n + hits i (c + n) m
  hits_add i c zero m = moved i c (c + 0) (0 + m) m (omega arith) (omega arith) ∙ omega arith
  hits_add i c (suc n) m =
      let next = hits_add i (c + 1) n m in
      let start = moved i (c + 1 + n) (c + suc n) m m (omega arith) refl in
      let longer = moved i c c (suc n + m) (suc (n + m)) refl (omega arith) in omega arith

  hits_last : (i c n : ℕ) → hits i c (suc n) ≡ hits i c n + hit i (c + n)
  hits_last i c n =
      let split = hits_add i c n 1 in
      let longer = moved i c c (suc n) (n + 1) refl (omega arith) in omega arith

  -- A window of the length of the divisor may be moved.
  hits_moved : (i c : ℕ) → hits i (c + 1) l ≡ hits i c l
  hits_moved i c =
      let last = hits_last i c l in
      let cycle : hit i (c + l) ≡ hit i c =
        ap (λ r. if nat_beq r i then 1 else 0) (add-mod_right c l) in
      omega arith

  hits_from_zero : (i n : ℕ) → n ≤ l → hits i 0 n ≡ (if ltb i n then 1 else 0)
  hits_from_zero i zero h = ground arith
  hits_from_zero i (suc n) h =
      let before = hits_from_zero i n (omega arith) in
      let last = hits_last i 0 n in
      let small : (0 + n) % l ≡ n = mod-eq_of_lt (omega arith) ∙ omega arith in ground arith

  hits_window : (i c : ℕ) → i < l → hits i c l ≡ 1
  hits_window i zero h = hits_from_zero i l (omega arith) ∙ ground arith
  hits_window i (suc c) h =
      moved i (suc c) (c + 1) l l (omega arith) refl ∙ hits_moved i c ∙ hits_window i c h

  pub hits_all : (i c k : ℕ) → i < l → hits i c (k * l) ≡ k
  hits_all i c zero h = moved i c c (0 * l) 0 refl (omega arith)
  hits_all i c (suc k) h =
      let longer = moved i c c (suc k * l) (l + k * l) refl (suc-mul k l ∙ omega arith) in
      let split = hits_add i c l (k * l) in
      let rest = hits_all i (c + l) k h in let one = hits_window i c h in omega arith
