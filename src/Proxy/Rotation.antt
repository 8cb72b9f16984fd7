-- ===== src/Proxy/Rotation.antt =====
-- How roundRobin of middleware/reverseproxy/reverse_proxy.go shares its calls out among the backends.
pub mod Residues
use native.Mathlib.Nat.{mod-lt}
use zerohttp.Prelude.{
  ℕ, zero, suc, ◌+◌, ◌-◌, ◌*◌, ◌%◌, ◌≤◌, ◌<◌, ◌≡◌, ◌≢◌, refl, sym, ◌∙◌, ap, Bool, true, false, List,
  [], ◌∷◌, arith, if◌then◌else◌, ltb, nat_beq, nat_beq_iff, length, Bool-cases, List-cases, inl,
  inr, ◌↔◌,
}
use zerohttp.Prelude.Int.{pos, negsuc, ◌-ℤ◌, to_signed, remainder}
use zerohttp.Proxy.{
  Backend, ReverseProxy, healthy_from, healthy_backends, Choice, no_backend, chosen, out_of_range,
  at_index, at_int, nth_modulo, round_robin,
}
use zerohttp.Proxy.Rotation.Residues.{hits, hits_all}

abbrev pub is_choice : ℕ → Choice → Bool
is_choice p no_backend = false
is_choice p (chosen q) = nat_beq q p
is_choice p out_of_range = false

abbrev pub IsHealthyAt : ℕ → List Backend → Type 0
IsHealthyAt p [] = ⊥
IsHealthyAt zero (b ∷ bs) = b.healthy ≡ true
IsHealthyAt (suc p) (b ∷ bs) = IsHealthyAt p bs

-- The choices of so many calls, one after another.
abbrev pub choices : ℕ → ReverseProxy → List Choice
choices zero rp = []
choices (suc n) rp = (round_robin rp).1 ∷ choices n (round_robin rp).0

abbrev pub times : ℕ → List Choice → ℕ
times p [] = 0
times p (c ∷ cs) = (if is_choice p c then 1 else 0) + times p cs

-- The places are those from the first on.
earlier :
    (k m j : ℕ) (bs : List Backend) → k < m → is_choice k (at_index j (healthy_from m bs)) ≡ false
unfolding at_index healthy_from
earlier k m j [] l = refl
earlier k m zero (b ∷ bs) l = elim (Bool-cases b.healthy) [
  | inl healthy ↦ rw healthy (ground arith)
  | inr ill ↦ rw ill (earlier k (m + 1) zero bs (omega arith))
]
earlier k m (suc j) (b ∷ bs) l = elim (Bool-cases b.healthy) [
  | inl healthy ↦ rw healthy (earlier k (m + 1) j bs (omega arith))
  | inr ill ↦ rw ill (earlier k (m + 1) (suc j) bs (omega arith))
]

place_zero :
    (m : ℕ) (b : Backend) (bs : List Backend) (j : ℕ)
    → is_choice (m + 0) (at_index j ((m, b) ∷ healthy_from (m + 1) bs)) ≡ nat_beq j 0
unfolding at_index
place_zero m b bs zero = ground arith
place_zero m b bs (suc j) = earlier (m + 0) (m + 1) j bs (omega arith) ∙ ground arith

place_suc :
    (p m i : ℕ) (b : Backend) (bs : List Backend)
    → ((j : ℕ) → is_choice (m + 1 + p) (at_index j (healthy_from (m + 1) bs)) ≡ nat_beq j i)
    → (j : ℕ)
    → is_choice (m + suc p) (at_index j ((m, b) ∷ healthy_from (m + 1) bs)) ≡ nat_beq j (suc i)
unfolding at_index
place_suc p m i b bs own zero = ground arith
place_suc p m i b bs own (suc j) =
    ap (λ q. is_choice q (at_index j (healthy_from (m + 1) bs))) (omega arith)
    ∙ own j
    ∙ ground arith

-- The place of a healthy backend among the healthy ones: no other has its choice.
place_of :
    (p m : ℕ) (bs : List Backend)
    → IsHealthyAt p bs
    → (i : ℕ) × (i < length (healthy_from m bs))
      × ((j : ℕ) → is_choice (m + p) (at_index j (healthy_from m bs)) ≡ nat_beq j i)
unfolding healthy_from at_index
place_of p m [] h = absurd h
place_of zero m (b ∷ bs) h = rw h (0, omega arith, place_zero m b bs)
place_of (suc p) m (b ∷ bs) h = elim (Bool-cases b.healthy) [
  | inl healthy ↦
      let (i, small, own) = place_of p (m + 1) bs h in
      rw healthy (suc i, omega arith, place_suc p m i b bs own)
  | inr ill ↦
      let (i, small, own) = place_of p (m + 1) bs h in
      rw ill (
        i,
        small,
        (λ j. ap (λ q. is_choice q (at_index j (healthy_from (m + 1) bs))) (omega arith) ∙ own j),
      )
]

-- The index is the remainder of the counter in the lower half.
nth_modulo_low :
    (next : ℕ) (h : List (ℕ × Backend))
    → next < 9223372036854775808
    → nth_modulo next h ≡ at_index (next % length h) h
unfolding nth_modulo at_int
nth_modulo_low next h small =
    let signed : to_signed next ≡ pos next = ground arith in rw (signed, nth_modulo, at_int) refl

-- In the upper half it is negative, or 0.
nth_modulo_high :
    (next : ℕ) (h : List (ℕ × Backend))
    → 9223372036854775808 ≤ next
    → next < 18446744073709551616
    → nth_modulo next h ≡ at_int (pos 0 -ℤ pos ((18446744073709551616 - next) % length h)) h
unfolding nth_modulo
nth_modulo_high next h large word =
    let signed : to_signed next ≡ negsuc (18446744073709551615 - next) = ground arith in
    let lacks : 18446744073709551615 - next + 1 ≡ 18446744073709551616 - next = omega arith in
    rw (signed, nth_modulo, lacks) refl

-- One call, where a backend is healthy.
round_robin_lem :
    (rp : ReverseProxy)
    → 0 < length (healthy_backends rp)
    → rp.current < 9223372036854775808
    → round_robin rp ≡ (
      record rp { current = rp.current + 1 },
      at_index (rp.current % length (healthy_backends rp)) (healthy_backends rp),
    )
unfolding round_robin
round_robin_lem rp some_healthy small = elim (List-cases (healthy_backends rp)) [
  | inl none_healthy ↦ absurd (ground arith)
  | inr (b, bs, e) ↦
      let counted : (rp.current + 1) % 18446744073709551616 ≡ rp.current + 1 = omega arith in
      rw (e, round_robin, counted, nth_modulo_low rp.current (b ∷ bs) small) refl
]

choices_lem :
    (p i n : ℕ) (rp : ReverseProxy)
    → i < length (healthy_backends rp)
    → ((j : ℕ) → is_choice p (at_index j (healthy_backends rp)) ≡ nat_beq j i)
    → rp.current + n ≤ 9223372036854775808
    → times p (choices n rp) ≡ hits (length (healthy_backends rp)) i rp.current n
unfolding healthy_backends
choices_lem p i zero rp small own room = refl
choices_lem p i (suc n) rp small own room =
    let step = round_robin_lem rp (omega arith) (omega arith) in
    let l = length (healthy_backends rp) in
    let next : ReverseProxy = record rp { current = rp.current + 1 } in
    let rest = choices_lem p i n next small own (omega arith) in
    let here : is_choice p (round_robin rp).1 ≡ nat_beq (rp.current % l) i =
      ap (λ (x : ReverseProxy × Choice). is_choice p x.1) step ∙ own (rp.current % l) in
    let later : times p (choices n (round_robin rp).0) ≡ times p (choices n next) =
      ap (λ (x : ReverseProxy × Choice). times p (choices n x.0)) step in
    ground arith

-- Of `k` times as many calls in a row as there are healthy backends, each healthy backend gets `k`,
-- wherever the counter stands, as long as the counter stays below 2 ^ 63 and no backend changes its
-- health.
pub round_robin-fair :
    (k p : ℕ) (rp : ReverseProxy)
    → IsHealthyAt p rp.backends
    → rp.current + k * length (healthy_backends rp) ≤ 9223372036854775808
    → times p (choices (k * length (healthy_backends rp)) rp) ≡ k
unfolding healthy_backends
round_robin-fair k p rp healthy room =
    let (i, small, own) = place_of p 0 rp.backends healthy in
    let l = length (healthy_from 0 rp.backends) in
    let own_here : (j : ℕ) → is_choice p (at_index j (healthy_from 0 rp.backends)) ≡ nat_beq j i =
      λ j. ap (λ q. is_choice q (at_index j (healthy_from 0 rp.backends))) (omega arith) ∙ own j in
    choices_lem p i (k * l) rp small own_here room ∙ hits_all l i rp.current k small

at_index-in_range : (i : ℕ) (h : List (ℕ × Backend)) → i < length h → at_index i h ≢ out_of_range
unfolding at_index
at_index-in_range i [] small e = absurd (omega arith)
at_index-in_range zero ((p, b) ∷ h) small e = cc
at_index-in_range (suc i) ((p, b) ∷ h) small e = at_index-in_range i h (omega arith) e

at_int_iff :
    (rest : ℕ) (h : List (ℕ × Backend))
    → 0 < length h
    → (at_int (pos 0 -ℤ pos rest) h ≡ out_of_range) ↔ (rest ≢ 0)
unfolding at_int
at_int_iff zero h some_healthy =
    ((λ e. absurd (at_index-in_range 0 h some_healthy e)), (λ z. absurd (z refl)))
at_int_iff (suc rest) h some_healthy = ((λ e z. absurd (omega arith)), (λ z. ground arith))

nth_modulo_iff :
    (next : ℕ) (h : List (ℕ × Backend))
    → 0 < length h
    → next < 18446744073709551616
    → (nth_modulo next h ≡ out_of_range)
      ↔ ((9223372036854775808 ≤ next) × ((18446744073709551616 - next) % length h ≢ 0))
nth_modulo_iff next h some_healthy word = elim (Bool-cases (ltb next 9223372036854775808)) [
  | inl low ↦
      let small : next < 9223372036854775808 = ground arith in
      let fine = at_index-in_range (next % length h) h (mod-lt next some_healthy) in
      (
        (λ e. absurd (fine (sym (nth_modulo_low next h small) ∙ e))),
        (λ p. absurd (omega (arith, p.0))),
      )
  | inr high ↦
      let large : 9223372036854775808 ≤ next = ground arith in
      let (forth, back) = at_int_iff ((18446744073709551616 - next) % length h) h some_healthy in
      let index = nth_modulo_high next h large word in
      ((λ e. (large, forth (sym index ∙ e))), (λ p. index ∙ back p.1))
]

-- With a counter of 64 bits, the next call panics exactly where some backend is healthy, the counter is 2 ^ 63 or more, and what
-- it lacks to 2 ^ 64 is no multiple of the number of healthy backends.
pub round_robin-out_of_range_iff :
    (rp : ReverseProxy)
    → rp.current < 18446744073709551616
    → ((round_robin rp).1 ≡ out_of_range) ↔ (
        (0 < length (healthy_backends rp))
        × (9223372036854775808 ≤ rp.current)
        × ((18446744073709551616 - rp.current) % length (healthy_backends rp) ≢ 0))
unfolding round_robin
round_robin-out_of_range_iff rp word = elim (List-cases (healthy_backends rp)) [
  | inl none_healthy ↦ rw (none_healthy, round_robin) ((λ e. cc), (λ p. absurd (ground arith)))
  | inr (b, bs, e) ↦
      let (forth, back) = nth_modulo_iff rp.current (b ∷ bs) (omega arith) word in
      rw (e, round_robin)
        ((λ o. let (large, rest) = forth o in (omega arith, large, rest)), (λ p. back (p.1, p.2)))
]
