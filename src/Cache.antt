-- ===== src/Cache.antt =====
-- cache.rs: the struct `Intern` behind the mutex of a `Cache`, and its operations. The lock is
-- held through each of them, so an operation is one function on the state; it takes the readings
-- of the clock that it makes as arguments.
pub mod Expire
pub mod History
pub mod Freshness
mod Tests
use webdav_server_rs.Prelude.{
  ℕ, zero, suc, ◌-◌, ◌/◌, ◌%◌, Bool, ◌&&◌, ◌||◌, Option, none, some, List, [], ◌∷◌, ltb, leb, Eq,
  ◌==◌, if◌then◌else◌, length, get_elem?, take, Outcome, returned, panicked, ◌>>=◌, unwrap,
}

-- A `Duration` and an `Instant` are numbers of nanoseconds.
abbrev pub nanos_per_sec : ℕ
nanos_per_sec = 1000000000

abbrev pub as_secs : ℕ → ℕ
as_secs d = d / nanos_per_sec

abbrev pub subsec_nanos : ℕ → ℕ
subsec_nanos d = d % nanos_per_sec

-- `duration_since` is zero for an instant that lies ahead.
abbrev pub duration_since : ℕ → ℕ → ℕ
duration_since now t = now - t

-- The hash map is a partial function of the key; the front of the deque is the head of the list.
pub record Intern {ℓ κ} (K : Type ℓ) (V : Type κ) : Type (ℓ ⊔ κ) where
  pub maxsize : ℕ
  pub maxage : ℕ
  pub map : K → Option V
  pub fifo : List (ℕ × K)

-- The `while` loop of `expire`, on the number `n` of entries that are still kept.
unfoldable pub age_bound {ℓ} : {K : Type ℓ} → ℕ → ℕ → List (ℕ × K) → ℕ → Outcome ℕ
age_bound now maxage fifo zero = returned zero
age_bound now maxage fifo (suc n) =
    let shorter = age_bound now maxage fifo n in
    do
      (t, _) ← unwrap (get_elem? fifo n)
      if leb (duration_since now t) maxage then returned (suc n) else shorter

module _ {ℓ κ} {K : Type ℓ} {V : Type κ} where
  unfoldable pub new : Intern K V
  new = record { maxsize = 0; maxage = 0; map = λ _. none; fifo = [] }

  unfoldable pub with_maxsize : ℕ → Intern K V → Intern K V
  with_maxsize size m = record m { maxsize = size }

  unfoldable pub with_maxage : ℕ → Intern K V → Intern K V
  with_maxage age m = record m { maxage = age }

  -- The first assignments to `n` in `expire`: no more entries than `maxsize`.
  unfoldable pub size_bound : Intern K V → ℕ
  size_bound m =
      let n = length m.fifo in if ltb 0 m.maxsize && leb m.maxsize n then m.maxsize else n

  -- The number of entries that `expire` keeps.
  unfoldable pub kept : ℕ → Intern K V → Outcome ℕ
  unfolding size_bound age_bound
  kept now m =
      if ltb 0 (as_secs m.maxage) || ltb 0 (subsec_nanos m.maxage)
      then age_bound now m.maxage m.fifo (size_bound m)
      else returned (size_bound m)

module _ {ℓ κ} {K : Type ℓ} {V : Type κ} ⦃e : Eq K⦄ where
  -- `HashMap::remove` and `HashMap::insert`
  abbrev pub remove : K → (K → Option V) → K → Option V
  remove k map q = if q == k then none else map q

  abbrev pub store : K → V → (K → Option V) → K → Option V
  store k v map q = if q == k then some v else map q

  -- The `for` loop of `expire`: `rounds` iterations from the index `x` on.
  unfoldable pub remove_from : ℕ → ℕ → List (ℕ × K) → (K → Option V) → Outcome (K → Option V)
  remove_from zero x fifo map = returned map
  remove_from (suc rounds) x fifo map = do
    (_, key) ← unwrap (get_elem? fifo x)
    remove_from rounds (suc x) fifo (remove key map)

  unfoldable pub expire : ℕ → Intern K V → Outcome (Intern K V)
  unfolding kept remove_from
  expire now m = do
    n ← kept now m
    map ← remove_from (length m.fifo - n) n m.fifo m.map
    returned (record m { map = map; fifo = take n m.fifo })

  -- The clock is read by `expire`, and again for the new entry.
  unfoldable pub insert : ℕ → ℕ → K → V → Intern K V → Outcome (Intern K V × V)
  unfolding expire
  insert now later key val m = do
    m' ← expire now m
    returned (record m' { map = store key val m'.map; fifo = (later, key) ∷ m'.fifo }, val)

  unfoldable pub get : ℕ → K → Intern K V → Outcome (Intern K V × Option V)
  unfolding expire
  get now key m = do m' ← expire now m; returned (m', m'.map key)
