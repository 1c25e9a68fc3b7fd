-- ===== src/Cache/Tests.antt =====
-- Runs of the cache on small inputs, and the theorems applied to them.
use webdav_server_rs.Prelude.{
  nat_eq, ℕ, ◌+◌, ◌-◌, ◌≤◌, ◌≡◌, refl, Option, none, some, List, [], ◌∷◌, arith, length, returned,
  ◌>>=◌,
}
use webdav_server_rs.Cache.{Intern, new, with_maxsize, with_maxage, insert, get}
use webdav_server_rs.Cache.History.{Reach, started, inserted, latest, cut, push}
use webdav_server_rs.Cache.Freshness.{
  operations_return, get_fresh, get_hit, length-fifo-le, reinserted_lost,
}

program : Unit {0}
unfolding insert get new with_maxsize with_maxage
program = tt

abbrev empty : ℕ → ℕ → Intern ℕ ℕ
empty size age = record { maxsize = size; maxage = age; map = λ _. none; fifo = [] }

-- A cache that holds the key 7 since the time 100, and the key 8 since the time 140.
abbrev one : ℕ → ℕ → Intern ℕ ℕ
one size age = push 100 7 70 (cut 0 (empty size age))

abbrev two : ℕ → ℕ → Intern ℕ ℕ
two size age = push 140 8 80 (cut 1 (one size age))

abbrev history : List (ℕ × ℕ × ℕ)
history = (140, 8, 80) ∷ (100, 7, 70) ∷ []

Reach-aged : Reach 140 history (two 0 50)
unfolding program
Reach-aged =
    inserted {now = 140} 8 80 80
      (inserted {now = 100} 7 70 70 (started 90 0 50) (omega arith) (omega arith) refl)
      (omega arith) (omega arith) refl

Reach-ageless : Reach 140 history (two 0 0)
unfolding program
Reach-ageless =
    inserted {now = 140} 8 80 80
      (inserted {now = 100} 7 70 70 (started 90 0 0) (omega arith) (omega arith) refl) (omega arith)
      (omega arith) refl

Reach-sized : Reach 140 history (two 1 0)
unfolding program
Reach-sized =
    inserted {now = 140} 8 80 80
      (inserted {now = 100} 7 70 70 (started 90 1 0) (omega arith) (omega arith) refl) (omega arith)
      (omega arith) refl

-- At the time 160 the key 7 is gone and the key 8 is found.
lookup_8 : (m' : Intern ℕ ℕ) × (get 160 8 (two 0 50) ≡ returned (m', some 80))
unfolding program
lookup_8 = (_, refl)

lookup_7 : (m' : Intern ℕ ℕ) × (get 160 7 (two 0 50) ≡ returned (m', none))
unfolding program
lookup_7 = (_, refl)

operations_return_example :
    ((m' : Intern ℕ ℕ) × (insert 200 201 9 90 (two 0 50) ≡ returned (m', 90)))
    × ((m' : Intern ℕ ℕ) × (r : Option ℕ) × (get 200 9 (two 0 50) ≡ returned (m', r)))
operations_return_example = operations_return 200 201 9 90 (two 0 50)

get_fresh_example : (s : ℕ) × (latest 8 history ≡ some (s, 80)) × (160 - s ≤ 50)
get_fresh_example = get_fresh 8 Reach-aged (omega arith) (omega arith) lookup_8.1

get_hit_example : (m' : Intern ℕ ℕ) × (get 150 7 (two 0 50) ≡ returned (m', some 70))
get_hit_example = get_hit 7 Reach-aged (omega arith) refl (omega arith) (ground arith) refl

length-fifo-le_example : length (two 1 0).fifo ≤ 1 + 1
length-fifo-le_example = length-fifo-le Reach-sized (omega arith)

reinserted_lost_example :
    (m : Intern ℕ ℕ) × ((do
      (m₁, _) ← insert 100 100 7 70 (with_maxage 50 new)
      (m₂, _) ← insert 140 140 7 71 m₁
      get 160 7 m₂)
      ≡ returned (m, none))
reinserted_lost_example =
    reinserted_lost 50 100 140 160 7 70 71 (omega arith) (omega arith) (omega arith) (omega arith)
      (omega arith) (omega arith)
