-- ===== src/Cache/Expire.antt =====
-- What `expire` computes, with the indices and the panics gone.
use webdav_server_rs.Prelude.{
  ℕ, zero, suc, ◌+◌, ◌-◌, ◌≤◌, ◌<◌, ◌≡◌, refl, fun_ext, Bool, true, Bool-cases, Option-cases, ◌||◌,
  inl, inr, Option, none, some, List, ◌∷◌, arith, ltb, leb, Eq, ◌==◌, if◌then◌else◌, length,
  get_elem?, get_elem?_of_lt, drop_of_get_elem?, drop_of_length-le, take, drop, any, returned,
}
use native.Mathlib.Decide.{ℕ_discrete}
use webdav_server_rs.Cache.{
  as_secs, subsec_nanos, Intern, size_bound, age_bound, kept, remove, remove_from, expire,
}

-- Whether a key stands among the entries.
abbrev pub has_key {ℓ} : {K : Type ℓ} ⦃e : Eq K⦄ → K → List (ℕ × K) → Bool
has_key q = any (λ entry. q == entry.1)

-- A map without the keys of some entries.
abbrev pub without {ℓ κ} :
    {K : Type ℓ} {V : Type κ} ⦃e : Eq K⦄ → List (ℕ × K) → (K → Option V) → K → Option V
without entries map q = if has_key q entries then none else map q

module _ {ℓ κ} {K : Type ℓ} {V : Type κ} where
  pub size_bound-le-length : (m : Intern K V) → size_bound m ≤ length m.fifo
  unfolding size_bound
  size_bound-le-length m = ground arith

  pub size_bound_of_no_maxsize : (m : Intern K V) → m.maxsize ≡ 0 → size_bound m ≡ length m.fifo
  unfolding size_bound
  size_bound_of_no_maxsize m h = ground arith

  -- With a maximum size, no more entries than that are kept.
  pub size_bound-le-maxsize : (m : Intern K V) → 0 < m.maxsize → size_bound m ≤ m.maxsize
  unfolding size_bound
  size_bound-le-maxsize m h = ground arith

module _ {ℓ} {K : Type ℓ} (now maxage : ℕ) (fifo : List (ℕ × K)) where
  -- The scan ends, at an entry that is recent enough or at the front.
  age_bound-returned :
      (n : ℕ) → n ≤ length fifo → (k : ℕ) × (age_bound now maxage fifo n ≡ returned k) × (k ≤ n)
  unfolding age_bound
  age_bound-returned zero h = (0, refl, omega arith)
  age_bound-returned (suc n) h =
      let (entry, found) = get_elem?_of_lt fifo n h in
      let (k, e, le) = age_bound-returned n (omega arith) in
      elim (Bool-cases (leb (now - entry.0) maxage)) [
        | inl fresh ↦ (suc n, ground arith, omega arith)
        | inr old ↦ (k, ground arith, omega arith)
      ]

  -- The last entry that the scan keeps is recent enough.
  pub age_bound-fresh :
      (n k : ℕ)
      → age_bound now maxage fifo n ≡ returned (suc k)
      → (entry : ℕ × K) × (get_elem? fifo k ≡ some entry) × (now - entry.0 ≤ maxage)
  unfolding age_bound
  age_bound-fresh zero k h = ground arith
  age_bound-fresh (suc n) k h = elim (Option-cases (get_elem? fifo n)) [
    | inl missing ↦ ground arith
    | inr (entry, found) ↦ elim (Bool-cases (leb (now - entry.0) maxage)) [
      | inl fresh ↦ let last : n ≡ k = ground arith in (entry, rw last at found, ground arith)
      | inr old ↦ age_bound-fresh n k (ground arith)
    ]
  ]

  -- The scan keeps every entry that is recent enough.
  pub age_bound-keeps :
      (n k i : ℕ) {entry : ℕ × K}
      → age_bound now maxage fifo n ≡ returned k
      → get_elem? fifo i ≡ some entry
      → now - entry.0 ≤ maxage
      → i < n
      → i < k
  unfolding age_bound
  age_bound-keeps zero k i h found fresh lt = absurd (omega arith)
  age_bound-keeps (suc n) k i {entry} h found fresh lt = elim (ℕ_discrete i n) [
    | yes p ↦ ground arith
    | no p ↦ ground (arith, age_bound-keeps n k i {entry = entry})
  ]

module _ {ℓ κ} {K : Type ℓ} {V : Type κ} (now : ℕ) (m : Intern K V) where
  has_maxage : 0 < m.maxage → (ltb 0 (as_secs m.maxage) || ltb 0 (subsec_nanos m.maxage)) ≡ true
  has_maxage h = ground arith

  pub kept_of_maxage : 0 < m.maxage → kept now m ≡ age_bound now m.maxage m.fifo (size_bound m)
  unfolding kept
  kept_of_maxage h = rw (has_maxage h) refl

  pub kept_of_no_maxage : m.maxage ≡ 0 → kept now m ≡ returned (size_bound m)
  unfolding kept
  kept_of_no_maxage h = rw h refl

  kept-returned : (k : ℕ) × (kept now m ≡ returned k) × (k ≤ size_bound m)
  unfolding kept
  kept-returned = elim (Bool-cases (ltb 0 (as_secs m.maxage) || ltb 0 (subsec_nanos m.maxage))) [
    | inl aged ↦
        rw aged (age_bound-returned now m.maxage m.fifo (size_bound m) (size_bound-le-length m))
    | inr ageless ↦ (size_bound m, rw ageless refl, omega arith)
  ]

module _ {ℓ κ} {K : Type ℓ} {V : Type κ} ⦃e : Eq K⦄ where
  without-cons :
      (t : ℕ) (key : K) (entries : List (ℕ × K)) (map : K → Option V)
      → without entries (remove key map) ≡ without ((t, key) ∷ entries) map
  without-cons t key entries map = fun_ext λ q. ground arith

  remove_from-without :
      (rounds x : ℕ) (fifo : List (ℕ × K)) (map : K → Option V)
      → rounds + x ≡ length fifo
      → remove_from rounds x fifo map ≡ returned (without (drop x fifo) map)
  unfolding remove_from
  remove_from-without zero x fifo map h = rw (drop_of_length-le x fifo (omega arith)) refl
  remove_from-without (suc rounds) x fifo map h =
      let ((t, key), found) = get_elem?_of_lt fifo x (omega arith) in
      rw (found, drop_of_get_elem? fifo x found, ← without-cons t key (drop (suc x) fifo) map)
        (remove_from-without rounds (suc x) fifo (remove key map) (omega arith))

  -- `expire` does not panic. It keeps a number of entries, and takes the keys of the others out of
  -- the map.
  pub expire_lem :
      (now : ℕ) (m : Intern K V)
      → (k : ℕ) × (kept now m ≡ returned k)
        × (k ≤ size_bound m)
        × (expire now m
            ≡ returned (record m { map = without (drop k m.fifo) m.map; fifo = take k m.fifo }))
  unfolding expire
  expire_lem now m =
      let (k, e, le) = kept-returned now m in
      (
        k,
        e,
        le,
        rw
            (
              e,
              remove_from-without (length m.fifo - k) k m.fifo m.map
                  (omega (arith, size_bound-le-length m)),
            )
            refl,
      )
