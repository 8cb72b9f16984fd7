-- ===== src/Sse/Replay/Tests.antt =====
-- The replay of events at concrete inputs.
use zerohttp.Prelude.{ℕ, ◌≡◌, ◌++◌, refl, inr, Bool, false, [], ◌∷◌, List, arith, length, ltb}
use zerohttp.Sse.Replay.{Replayer, replay, send_all, snapshot, store, newest, unexpired}
use zerohttp.Sse.Replay.Order.{IsValid}
use zerohttp.Sse.Replay.Missed.{store_all, first_of, is_empty, noting, replay_missed}

abbrev replayer : Replayer ℕ
replayer = record {
  events =
      record { id = 4; event = 70; timestamp = 10 }
      ∷ record { id = 5; event = 71; timestamp = 11 }
      ∷ [];
  max_events = 2;
  ttl = 0;
  last_id = 5;
}

replayer-IsValid : IsValid replayer
replayer-IsValid =
    ((omega arith, (omega arith, tt)), (omega arith, (omega arith, tt)), inr (omega arith))

abbrev later : List (ℕ × ℕ)
later = (20, 80) ∷ (21, 81) ∷ []

abbrev goes : ℕ → Bool
goes e = ltb e 81

-- The second event fails.
replay_missed_example : replay 5 (noting goes) (store_all later replayer) (70 ∷ []) ≡ (
  (70 ∷ []) ++ ((80 ∷ []) ++ first_of (81 ∷ [])),
  (length {A = ℕ} (80 ∷ []), is_empty {E = ℕ} (81 ∷ [])),
)
replay_missed_example =
    replay_missed later (80 ∷ []) (81 ∷ []) goes (70 ∷ []) replayer replayer-IsValid refl
      (inr (omega arith)) refl (refl, tt) refl

replayed : replay 5 (noting goes) (store_all later replayer) [] ≡ (80 ∷ 81 ∷ [], (1, false))
unfolding replay snapshot send_all store_all store newest unexpired
replayed = refl
