-- ===== src/Cached/Overlap/Runs.antt =====
-- Runs of the steps of Cached/Overlap, and those of one call.
use webdav_server_rs.Prelude.{ℕ, ◌≤◌, ◌≡◌, refl, ◌∙◌, Option, List, [], Eq, returned, arith}
use webdav_server_rs.Cache
use webdav_server_rs.Cache.{Intern}
use webdav_server_rs.Cache.History.{get_lem, insert_lem}
use webdav_server_rs.Cached.{Times}
use webdav_server_rs.Cached.Overlap.{
  Task, Machine, Step, looked, asks, answers, fails, stores, Reaches, steps,
}

-- The readings of the clock during a call are in order.
abbrev pub InOrder : ℕ → Times → Type 0
InOrder start t =
    (start ≤ t.lookup) × (t.lookup ≤ t.answer) × (t.answer ≤ t.expiry) × (t.expiry ≤ t.stamp)

module _ {K V : Type 0} ⦃e : Eq K⦄ (Answers : ℕ → K → V → Type 0) where
  -- Steps one after the other.
  pub data Run : ℕ → Machine K V → ℕ → Machine K V → Type 0 where
    stop : (t : ℕ) (m : Machine K V) → Run t m t m
    goes :
        {t t' t'' : ℕ} {m m' m'' : Machine K V}
        → Step Answers t m t' m'
        → Run t' m' t'' m''
        → Run t m t'' m''

  abbrev pub machine : Intern K V → List (Task K V) → Machine K V
  machine c ts = record { cache = c; tasks = ts }

  -- A call from its lookup on: a hit that is enough, a question with no answer, or an answer that is
  -- stored.
  pub run_hit :
      (now t : ℕ) (k : K) (r : Option V) (c c' : Intern K V) (ts : List (Task K V))
      → now ≤ t
      → Cache.get t k c ≡ returned (c', r)
      → Run now (machine c ts) t (machine c' ts)
  run_hit now t k r c c' ts le found = goes (looked t k c' r le found) (stop t (machine c' ts))

  pub run_failed :
      (now : ℕ) (t : Times) (k : K) (r : Option V) (c c' : Intern K V) (ts : List (Task K V))
      → now ≤ t.lookup
      → t.lookup ≤ t.answer
      → Cache.get t.lookup k c ≡ returned (c', r)
      → Run now (machine c ts) t.answer (machine c' ts)
  run_failed now t k r c c' ts le le' found =
      goes (looked t.lookup k c' r le found)
        (goes (asks k) (goes (fails t.answer k [] ts le' refl) (stop t.answer (machine c' ts))))

  pub run_stored :
      (now : ℕ) (t : Times) (k : K) (v r : V) (hit : Option V) (c c₁ c' : Intern K V)
      (ts : List (Task K V))
      → InOrder now t
      → Cache.get t.lookup k c ≡ returned (c₁, hit)
      → Answers t.answer k v
      → Cache.insert t.expiry t.stamp k v c₁ ≡ returned (c', r)
      → Run now (machine c ts) t.stamp (machine c' ts)
  run_stored now t k v r hit c c₁ c' ts order found truth stored =
      goes (looked t.lookup k c₁ hit order.0 found) (
        goes (asks k) (
          goes (answers t.answer k v [] ts order.1 refl truth) (
            goes (stores t.expiry t.stamp t.answer k v r c' [] ts order.2 order.3 refl stored)
              (stop t.stamp (machine c' ts)))))

  -- What a run reaches from a state that is reached, is reached.
  pub Run-Reaches :
      {t t' : ℕ} {m m' : Machine K V} → Reaches Answers t m → Run t m t' m' → Reaches Answers t' m'
  Run-Reaches before (stop t m) = before
  Run-Reaches before (goes step run) = Run-Reaches (steps before step) run

  Step-maxage :
      {t t' : ℕ} {m m' : Machine K V} → Step Answers t m t' m' → m'.cache.maxage ≡ m.cache.maxage
  Step-maxage (looked {now} {m} t k c r le found) =
      let (n, _, _, e') = get_lem t k m.cache in ground arith
  Step-maxage (asks k) = refl
  Step-maxage (answers t k v before after le same truth) = refl
  Step-maxage (fails t k before after le same) = refl
  Step-maxage (stores {now} {m} expiry stamp since k v r c before after le le' same stored) =
      let (n, _, _, e') = insert_lem expiry stamp k v m.cache in ground arith

  -- The maximum age of the entries stays the same.
  pub Run-maxage :
      {t t' : ℕ} {m m' : Machine K V} → Run t m t' m' → m'.cache.maxage ≡ m.cache.maxage
  Run-maxage (stop t m) = refl
  Run-maxage (goes step run) = Run-maxage run ∙ Step-maxage step
