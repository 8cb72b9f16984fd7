-- ===== src/Cache/Store/Tests.antt =====
-- A MemoryStore of the response cache at concrete calls.
use zerohttp.Prelude.{ℕ, ◌≤◌, ◌≡◌, refl, List, [], ◌∷◌, none, some, length, arith}
use zerohttp.Text.{codes, text_eq}
use zerohttp.Map.{lookup, insert, delete}
use zerohttp.Cache.Store.{
  new_memory_store, get_at, get_entry, set_at, update, push, evict_oldest, remove_entry, back,
  remove_element, has_element, move_to_front, delete_at,
}
use zerohttp.Cache.Store.History.{
  Call, get_call, set_call, answers, recent_answers, answers-refines, after_all, after_all-bounded,
}

-- With room for two, the third key takes the place of the second, since the first was read.
abbrev calls : List (Call ℕ)
calls =
    set_call 0 (codes "a") 1 10
    ∷ set_call 1 (codes "b") 2 10
    ∷ get_call 2 (codes "a")
    ∷ set_call 3 (codes "c") 3 10
    ∷ get_call 4 (codes "b")
    ∷ get_call 10 (codes "a")
    ∷ get_call 11 (codes "a")
    ∷ []

least_recent_goes :
    answers calls (new_memory_store 2) ≡ none ∷ none ∷ some 1 ∷ none ∷ none ∷ some 1 ∷ none ∷ []
unfolding new_memory_store get_at get_entry set_at update push evict_oldest remove_entry back
    remove_element has_element move_to_front delete_at lookup insert delete text_eq
least_recent_goes = refl

answers-refines_example : answers calls (new_memory_store 2) ≡ recent_answers 2 calls []
answers-refines_example = answers-refines 2 calls

after_all-bounded_example :
    (length (after_all calls (new_memory_store 2)).entries ≤ 2)
    × (length (after_all calls (new_memory_store 2)).lru_list
        ≡ length (after_all calls (new_memory_store 2)).entries)
after_all-bounded_example = after_all-bounded 2 calls (omega arith)
