-- ===== src/Limit/Tests.antt =====
-- The rate limiter's store at concrete inputs.
use zerohttp.Prelude.{
  ℕ, ◌+◌, ◌≤◌, ◌≡◌, refl, inl, inr, List, [], ◌∷◌, none, some, arith, length, min, keep,
}
use zerohttp.Text.{Text, codes, text_eq, text_lt}
use zerohttp.Map.{Map, lookup, insert, delete, text_keys}
use zerohttp.Limit.{
  CounterEntry, check_sliding_window, make_room, oldest_from, evict_oldest, recent,
}
use zerohttp.Limit.Evict.{IsEntry, IsOldest, oldest_lem, make_room-bounded, empty_key_overflows}
use zerohttp.Limit.Fixed.{calls, window_quota}
use zerohttp.Limit.Sliding.{slide}
use zerohttp.Limit.Mixed.{HasRoom, call_for, mixed, times_of, mixed_quota}

abbrev at : ℕ → CounterEntry
at t = record { count = 1; window_start = t; last_access = t }

abbrev accessed : CounterEntry → ℕ
accessed e = e.last_access

abbrev ann : Text
ann = codes "ann"

abbrev bob : Text
bob = codes "bob"

abbrev two : Map Text CounterEntry
two = (bob, at 5) ∷ (ann, at 5) ∷ []

oldest_two : oldest_from accessed none two ≡ some (ann, 5)
unfolding oldest_from text_lt
oldest_two = refl

oldest_lem_example :
    (p : Text × ℕ) × (oldest_from accessed none two ≡ some p)
    × IsEntry accessed p two
    × IsOldest accessed p two
oldest_lem_example = oldest_lem accessed (bob, at 5) ((ann, at 5) ∷ [])

make_room-bounded_example :
    length (insert (codes "eve") (at 9) (make_room accessed 2 (codes "eve") two)) ≤ 2
unfolding text_eq
make_room-bounded_example =
    make_room-bounded accessed 2 (codes "eve") (at 9) two (omega arith) (refl, (refl, tt))
      (omega arith)

-- A map of two entries that may hold one: the empty key is the oldest, and a third entry goes in.
abbrev unnamed : Map Text CounterEntry
unnamed = ([], at 1) ∷ (ann, at 5) ∷ []

empty_key_overflows_example :
    length (insert bob (at 9) (make_room accessed 1 bob unnamed)) ≡ length unnamed + 1
unfolding oldest_from text_lt lookup text_eq
empty_key_overflows_example = empty_key_overflows accessed 1 1 bob (at 9) unnamed refl refl

window_quota_example :
    (calls 10 2 100 ann (0 ∷ 1 ∷ 2 ∷ 9 ∷ []) []).1 ≡ min (length {A = ℕ} (0 ∷ 1 ∷ 2 ∷ 9 ∷ [])) 2
unfolding lookup
window_quota_example =
    window_quota 10 2 100 ann 0 (1 ∷ 2 ∷ 9 ∷ []) [] (omega arith) (inl refl) (omega arith)

-- Two calls are allowed in ten nanoseconds; the third waits until the first is over.
slid : (slide 10 2 100 ann (0 ∷ 4 ∷ 8 ∷ 11 ∷ []) ([], [])).1 ≡ 0 ∷ 4 ∷ 11 ∷ []
unfolding slide check_sliding_window make_room lookup insert delete text_eq
slid = refl

abbrev shared : List (Text × ℕ)
shared = (ann, 0) ∷ (bob, 1) ∷ (ann, 4) ∷ (bob, 5) ∷ (ann, 8) ∷ (ann, 11) ∷ []

shared-HasRoom : HasRoom 10 2 100 ann shared ([], [])
unfolding call_for check_sliding_window make_room lookup insert delete text_eq
shared-HasRoom =
    (inl refl, (inr (omega arith), (inl refl, (inr (omega arith), (inl refl, (inl refl, tt))))))

times_shared : times_of 10 2 100 ann shared ≡ 0 ∷ 4 ∷ 8 ∷ 11 ∷ []
unfolding text_eq
times_shared = refl

mixed_quota_example : length (keep (recent 10 12) (mixed 10 2 100 ann shared ([], [])).1) ≤ 2
unfolding lookup text_eq
mixed_quota_example =
    mixed_quota 10 2 100 ann 12 shared [] (omega arith) refl (omega arith) (omega arith)
      shared-HasRoom

-- In a full store another key evicts the entry, and the quota starts anew.
evicted : (mixed 10 1 1 ann ((ann, 0) ∷ (bob, 1) ∷ (ann, 2) ∷ []) ([], [])).1 ≡ 0 ∷ 2 ∷ []
unfolding mixed call_for check_sliding_window make_room evict_oldest oldest_from lookup insert
    delete text_eq
evicted = refl
