-- ===== src/Cached/Overlap.antt =====
-- cache.rs, the module `cached`: calls that overlap, on several threads or at an await. The lock of
-- a cache is held through `get` and through `insert`, and not in between, while the answer is awaited.
pub mod Runs
pub mod Calls
use webdav_server_rs.Prelude.{
  ℕ, ◌≤◌, ◌≡◌, refl, sym, ap, ◌∙◌, Option, none, List, [], ◌∷◌, ◌++◌, Eq, All, returned,
}
use webdav_server_rs.Cache.{Intern, new, with_maxsize, with_maxage, insert, get}
use webdav_server_rs.Cache.History.{Reach, get_lem, insert_lem}

-- A call that missed, or that had to ask in spite of a hit, and one that has its answer, with the
-- time of that, but has not stored it yet.
pub data Task (K V : Type 0) : Type 0 where
  asked : K → Task K V
  answered : ℕ → K → V → Task K V

-- A cache, and the calls that are under way.
pub record Machine (K V : Type 0) : Type 0 where
  pub cache : Intern K V
  pub tasks : List (Task K V)

-- `Answers now k v`: at the time `now`, the answer for the key `k` is `v`.
module _ {K V : Type 0} ⦃e : Eq K⦄ (Answers : ℕ → K → V → Type 0) where
  -- The steps of any call, from one time to a later one.
  pub data Step : ℕ → Machine K V → ℕ → Machine K V → Type 0 where
    looked :
        {now : ℕ} {m : Machine K V} (t : ℕ) (k : K) (c : Intern K V) (r : Option V)
        → now ≤ t
        → get t k m.cache ≡ returned (c, r)
        → Step now m t (record m { cache = c })
    asks :
        {now : ℕ} {m : Machine K V} (k : K)
        → Step now m now (record m { tasks = asked k ∷ m.tasks })
    answers :
        {now : ℕ} {m : Machine K V} (t : ℕ) (k : K) (v : V) (before after : List (Task K V))
        → now ≤ t
        → m.tasks ≡ before ++ (asked k ∷ after)
        → Answers t k v
        → Step now m t (record m { tasks = before ++ (answered t k v ∷ after) })
    fails :
        {now : ℕ} {m : Machine K V} (t : ℕ) (k : K) (before after : List (Task K V))
        → now ≤ t
        → m.tasks ≡ before ++ (asked k ∷ after)
        → Step now m t (record m { tasks = before ++ after })
    stores :
        {now : ℕ} {m : Machine K V} (expiry stamp since : ℕ) (k : K) (v r : V) (c : Intern K V)
        (before after : List (Task K V))
        → now ≤ expiry
        → expiry ≤ stamp
        → m.tasks ≡ before ++ (answered since k v ∷ after)
        → insert expiry stamp k v m.cache ≡ returned (c, r)
        → Step now m stamp (record { cache = c; tasks = before ++ after })

  -- The states that the steps reach from an empty cache.
  pub data Reaches : ℕ → Machine K V → Type 0 where
    begins :
        (t size age : ℕ)
        → Reaches t (record { cache = with_maxage age (with_maxsize size new); tasks = [] })
    steps : {t t' : ℕ} {m m' : Machine K V} → Reaches t m → Step t m t' m' → Reaches t' m'

  abbrev pub IsAnswer : ℕ × K × V → Type 0
  IsAnswer x = (now : ℕ) × Answers now x.1 x.2 × (now ≤ x.0)

  -- What a task has is an answer of the past.
  abbrev IsHonest : ℕ → Task K V → Type 0
  IsHonest now (asked k) = Unit
  IsHonest now (answered t k v) = Answers t k v × (t ≤ now)

  record IsGenuine (now : ℕ) (m : Machine K V) : Type 0 where
    since : ℕ
    history : List (ℕ × K × V)
    reached : Reach since history m.cache
    true_entries : All IsAnswer history
    honest : All (IsHonest now) m.tasks
    earlier : since ≤ now
