-- ===== src/Cache/History/Defs.antt =====
-- The states that a cache can reach, with the history of what was inserted into it, and the
-- invariant that ties the two together.
use webdav_server_rs.Prelude.{
  ℕ, ◌-◌, ◌≤◌, ◌<◌, ◌≡◌, false, Option, none, some, List, [], ◌∷◌, ◌++◌, Eq, ◌==◌, if◌then◌else◌,
  All, returned,
}
use webdav_server_rs.Cache.{Intern, new, with_maxsize, with_maxage, insert, get}
use webdav_server_rs.Cache.Expire.{has_key}

module _ {ℓ κ} {K : Type ℓ} {V : Type κ} where
  -- What was inserted, with the time, the newest first.
  abbrev pub stamps : List (ℕ × K × V) → List (ℕ × K)
  stamps [] = []
  stamps ((t, k, v) ∷ w) = (t, k) ∷ stamps w

  -- No time lies after the one before it, nor after `bound`.
  abbrev pub Descending : ℕ → List (ℕ × K × V) → Type 0
  Descending bound [] = Unit
  Descending bound ((t, k, v) ∷ w) = (t ≤ bound) × Descending t w

module _ {ℓ κ} {K : Type ℓ} {V : Type κ} ⦃e : Eq K⦄ where
  -- The newest value for a key, with its time.
  abbrev pub latest : K → List (ℕ × K × V) → Option (ℕ × V)
  latest q [] = none
  latest q ((t, k, v) ∷ w) = if q == k then some (t, v) else latest q w

  -- `Reach t h m`: a cache with the history `h` can be in the state `m` at the time `t`.
  pub data Reach : ℕ → List (ℕ × K × V) → Intern K V → Type (ℓ ⊔ κ) where
    started : (t size age : ℕ) → Reach t [] (with_maxage age (with_maxsize size new))
    inserted :
        {t now later : ℕ} {h : List (ℕ × K × V)} {m m' : Intern K V} (k : K) (v r : V)
        → Reach t h m
        → t ≤ now
        → now ≤ later
        → insert now later k v m ≡ returned (m', r)
        → Reach later ((later, k, v) ∷ h) m'
    looked_up :
        {t now : ℕ} {h : List (ℕ × K × V)} {m m' : Intern K V} (q : K) (r : Option V)
        → Reach t h m
        → t ≤ now
        → get now q m ≡ returned (m', r)
        → Reach now h m'

  -- The deque is the newest part `window` of the history; the rest was dropped.
  pub record Tracks (t : ℕ) (h : List (ℕ × K × V)) (m : Intern K V) : Type (ℓ ⊔ κ) where
    pub window : List (ℕ × K × V)
    pub dropped : List (ℕ × K × V)
    pub split : h ≡ window ++ dropped
    pub queued : m.fifo ≡ stamps window
    pub held : (q : K) (v : V) → m.map q ≡ some v → (s : ℕ) × (latest q window ≡ some (s, v))
    pub kept_values :
        (q : K) (s : ℕ) (v : V)
        → has_key q (stamps dropped) ≡ false
        → latest q window ≡ some (s, v)
        → m.map q ≡ some v
    pub times : Descending t window
    -- With no bound on the size, what was dropped is too old; with no bound on the age either,
    -- nothing was dropped.
    pub stale : m.maxsize ≡ 0 → 0 < m.maxage → All (λ x. m.maxage < t - x.0) dropped
    pub ageless : m.maxsize ≡ 0 → m.maxage ≡ 0 → dropped ≡ []
