-- ===== src/Cache/History/Windows.antt =====
-- A history that is cut after its newest entries.
use native.Mathlib.Decide.{dec_le}
use webdav_server_rs.Prelude.{
  eq_iff, ℕ, zero, suc, ◌-◌, ◌≤◌, ◌<◌, ◌≡◌, refl, sym, ap, true, false, Bool-cases, ◌||◌, inl, inr,
  none, some, List, [], ◌∷◌, ◌++◌, arith, Eq, ◌==◌, length, take, drop, get_elem?, get_elem?-lt,
  All, returned,
}
use webdav_server_rs.Cache.{age_bound}
use webdav_server_rs.Cache.Expire.{has_key, age_bound-keeps, age_bound-fresh}
use webdav_server_rs.Cache.History.Defs.{stamps, Descending, latest}

module _ {ℓ κ} {K : Type ℓ} {V : Type κ} where
  pub stamps-take : (k : ℕ) (w : List (ℕ × K × V)) → take k (stamps w) ≡ stamps (take k w)
  stamps-take zero w = refl
  stamps-take (suc k) [] = refl
  stamps-take (suc k) ((t, q, v) ∷ w) = ap (◌∷◌ (t, q)) (stamps-take k w)

  pub stamps-drop : (k : ℕ) (w : List (ℕ × K × V)) → drop k (stamps w) ≡ stamps (drop k w)
  stamps-drop zero w = refl
  stamps-drop (suc k) [] = refl
  stamps-drop (suc k) (x ∷ w) = stamps-drop k w

  pub stamps-append : (w w' : List (ℕ × K × V)) → stamps (w ++ w') ≡ stamps w ++ stamps w'
  stamps-append [] w' = refl
  stamps-append ((t, q, v) ∷ w) w' = ap (◌∷◌ (t, q)) (stamps-append w w')

  pub length-stamps : (w : List (ℕ × K × V)) → length (stamps w) ≡ length w
  length-stamps [] = refl
  length-stamps (x ∷ w) = ap suc (length-stamps w)

  pub get_elem?-stamps :
      (w : List (ℕ × K × V)) (i : ℕ) (x : ℕ × K × V)
      → get_elem? w i ≡ some x
      → get_elem? (stamps w) i ≡ some (x.0, x.1)
  get_elem?-stamps [] i x h = ground arith
  get_elem?-stamps (y ∷ w) zero x h = ground arith
  get_elem?-stamps (y ∷ w) (suc i) x h = get_elem?-stamps w i x h

  pub Descending-take :
      (k bound : ℕ) (w : List (ℕ × K × V)) → Descending bound w → Descending bound (take k w)
  Descending-take zero bound w d = tt
  Descending-take (suc k) bound [] d = tt
  Descending-take (suc k) bound ((t, q, v) ∷ w) (le, d) = (le, Descending-take k t w d)

  pub Descending-mono : (b c : ℕ) (w : List (ℕ × K × V)) → b ≤ c → Descending b w → Descending c w
  Descending-mono b c [] le d = tt
  Descending-mono b c (x ∷ w) le d = (omega arith, d.1)

  pub All-mono :
      {P Q : (ℕ × K × V) → Type 0} (w : List (ℕ × K × V))
      → ((x : ℕ × K × V) → P x → Q x)
      → All P w
      → All Q w
  All-mono [] f a = tt
  All-mono (x ∷ w) f a = (f x a.0, All-mono w f a.1)

  pub All-append :
      (P : (ℕ × K × V) → Type 0) (w w' : List (ℕ × K × V)) → All P w → All P w' → All P (w ++ w')
  All-append P [] w' a b = b
  All-append P (x ∷ w) w' a b = (a.0, All-append P w w' a.1 b)

  -- Every entry from an index on.
  pub All-drop :
      {P : (ℕ × K × V) → Type 0} (k : ℕ) (w : List (ℕ × K × V))
      → ((i : ℕ) (x : ℕ × K × V) → get_elem? w i ≡ some x → k ≤ i → P x)
      → All P (drop k w)
  All-drop zero [] f = tt
  All-drop (suc k) [] f = tt
  All-drop zero (x ∷ w) f =
      (f 0 x refl (omega arith), All-drop zero w (λ i y e le. f (suc i) y e (omega arith)))
  All-drop (suc k) (x ∷ w) f = All-drop k w (λ i y e le. f (suc i) y e (omega arith))

  -- Where the last entry of a prefix is recent enough, all of it is.
  All-take-fresh :
      (now age : ℕ) (k : ℕ) (w : List (ℕ × K × V)) {x : ℕ × K} (bound : ℕ)
      → Descending bound w
      → get_elem? (stamps w) k ≡ some x
      → now - x.0 ≤ age
      → All (λ y. now - y.0 ≤ age) (take (suc k) w) × (x.0 ≤ bound)
  All-take-fresh now age k [] bound d found fresh = ground arith
  All-take-fresh now age zero ((t, q, v) ∷ w) bound d found fresh =
      ((ground arith, tt), ground arith)
  All-take-fresh now age (suc k) ((t, q, v) ∷ w) {x} bound d found fresh =
      let ih = All-take-fresh now age k w {x = x} t d.1 found fresh in
      ((omega arith, ih.0), omega arith)

  -- What the scan of `expire` keeps is recent enough.
  pub age_bound-All_fresh :
      (now age n k bound : ℕ) (w : List (ℕ × K × V))
      → Descending bound w
      → age_bound now age (stamps w) n ≡ returned k
      → All (λ y. now - y.0 ≤ age) (take k w)
  age_bound-All_fresh now age n zero bound w d e = tt
  age_bound-All_fresh now age n (suc k) bound w d e =
      let (x, found, fresh) = age_bound-fresh now age (stamps w) n k e in
      (All-take-fresh now age k w {x = x} bound d found fresh).0

  -- What it drops is too old.
  pub age_bound-All_old :
      (now age k : ℕ) (w : List (ℕ × K × V))
      → age_bound now age (stamps w) (length (stamps w)) ≡ returned k
      → All (λ y. age < now - y.0) (drop k w)
  age_bound-All_old now age k w e = All-drop k w λ i x found le. elim (dec_le (now - x.0) age) [
    | yes fresh ↦
        let found' = get_elem?-stamps w i x found in
        absurd (
          omega (
            arith,
            age_bound-keeps now age (stamps w) _ k i e found' fresh
                (get_elem?-lt (stamps w) i found'),
          ))
    | no old ↦ omega arith
  ]

pub has_key-append {ℓ} :
    {K : Type ℓ} ⦃e : Eq K⦄ (q : K) (xs ys : List (ℕ × K))
    → has_key q (xs ++ ys) ≡ (has_key q xs || has_key q ys)
has_key-append q [] ys = refl
has_key-append q (x ∷ xs) ys = ground (arith, has_key-append q xs ys)

module _ {ℓ κ} {K : Type ℓ} {V : Type κ} ⦃e : Eq K⦄ where
  latest-absent : (q : K) (w : List (ℕ × K × V)) → has_key q (stamps w) ≡ false → latest q w ≡ none
  latest-absent q [] h = refl
  latest-absent q (x ∷ w) h = ground (arith, latest-absent q w)

  -- Cutting off entries of other keys hides nothing.
  pub latest-take :
      (q : K) (k : ℕ) (w : List (ℕ × K × V))
      → has_key q (stamps (drop k w)) ≡ false
      → latest q (take k w) ≡ latest q w
  latest-take q zero [] h = refl
  latest-take q zero (x ∷ w) h = sym (latest-absent q (x ∷ w) h)
  latest-take q (suc k) [] h = refl
  latest-take q (suc k) (x ∷ w) h = ground (arith, latest-take q k w)

  -- What a prefix shows, the whole history shows.
  pub latest-append :
      (q : K) (w w' : List (ℕ × K × V)) {x : ℕ × V}
      → latest q w ≡ some x
      → latest q (w ++ w') ≡ some x
  latest-append q [] w' h = ground arith
  latest-append q (y ∷ w) w' {x} h = ground (arith, latest-append q w w' {x = x})

  pub latest-append_absent :
      (q : K) (w w' : List (ℕ × K × V))
      → has_key q (stamps w') ≡ false
      → latest q (w ++ w') ≡ latest q w
  latest-append_absent q [] w' h = latest-absent q w' h
  latest-append_absent q (y ∷ w) w' h = ground (arith, latest-append_absent q w w' h)

  pub latest-All :
      (P : ℕ → Type 0) (q : K) (w : List (ℕ × K × V)) {s : ℕ} {v : V}
      → All (λ y. P y.0) w
      → latest q w ≡ some (s, v)
      → P s
  latest-All P q [] a h = ground arith
  latest-All P q ((t, k, u) ∷ w) {s} {v} a h = elim (Bool-cases (q == k)) [
    | inl same ↦ let p : t ≡ s = ground arith in rw (← p) a.0
    | inr other ↦ latest-All P q w {v = v} a.1 (ground arith)
  ]

  -- A key that was used only for recent entries is not among old ones.
  pub has_key_of_old :
      (now age : ℕ) (q : K) (w : List (ℕ × K × V))
      → All (λ x. age < now - x.0) w
      → All (λ x. (q == x.1) ≡ true → now - x.0 ≤ age) w
      → has_key q (stamps w) ≡ false
  has_key_of_old now age q [] old recent = refl
  has_key_of_old now age q (x ∷ w) old recent = elim (Bool-cases (q == x.1)) [
    | inl same ↦ absurd (omega (arith, recent.0 same))
    | inr other ↦ rw other (has_key_of_old now age q w old.1 recent.1)
  ]

  pub All-of_append :
      (P : (ℕ × K × V) → Type 0) (w w' : List (ℕ × K × V)) → All P (w ++ w') → All P w'
  All-of_append P [] w' a = a
  All-of_append P (x ∷ w) w' a = All-of_append P w w' a.1

  -- The newest value for a key is an entry of the history.
  pub latest-All_entry {μ} :
      (P : (ℕ × K × V) → Type μ) (q : K) (w : List (ℕ × K × V)) {s : ℕ} {v : V}
      → All P w
      → latest q w ≡ some (s, v)
      → P (s, q, v)
  latest-All_entry P q [] a h = absurd (ground arith)
  latest-All_entry P q ((t, k, u) ∷ w) {s} {v} a h = elim (Bool-cases (q == k)) [
    | inl same ↦
        let p : k ≡ q = sym ((eq_iff q k).0 same) in
        let time : t ≡ s = ground arith in
        let value : u ≡ v = ground arith in rw (← p, ← time, ← value) a.0
    | inr other ↦ latest-All_entry P q w {v = v} a.1 (ground arith)
  ]
