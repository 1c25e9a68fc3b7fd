-- ===== src/Cache/Freshness.antt =====
-- What a cache answers, in terms of the history of its insertions.
use webdav_server_rs.Prelude.{
  ℕ, ◌+◌, ◌-◌, ◌≤◌, ◌<◌, ◌≡◌, refl, sym, ap, ◌∙◌, true, false, Option, none, some, List, ◌++◌,
  arith, Eq, ◌==◌, eq_refl, length, take, drop, length-take-le, All, returned, ◌>>=◌,
}
use webdav_server_rs.Cache.{Intern, new, with_maxsize, with_maxage, size_bound, insert, get}
use webdav_server_rs.Cache.Expire.{has_key, kept_of_maxage, size_bound-le-maxsize}
use webdav_server_rs.Cache.History.{
  stamps, latest, Reach, started, inserted, looked_up, Tracks-later, cut, cut-split, cut-held,
  cut-Tracks, push, insert_lem, get_lem, Reach-Tracks, latest-All, latest-append,
  latest-append_absent, age_bound-All_fresh, has_key_of_old, All-of_append,
}

module _ {ℓ κ} {K : Type ℓ} {V : Type κ} ⦃e : Eq K⦄ where
  -- `insert` and `get` return from every state: none of the `unwrap`s of `expire` panics.
  pub operations_return :
      (now later : ℕ) (k : K) (v : V) (m : Intern K V)
      → ((m' : Intern K V) × (insert now later k v m ≡ returned (m', v)))
        × ((m' : Intern K V) × (r : Option V) × (get now k m ≡ returned (m', r)))
  operations_return now later k v m =
      let (n, _, _, stored) = insert_lem now later k v m in
      let (i, _, _, found) = get_lem now k m in ((_, stored), (_, _, found))

  -- `insert` returns the value that it was given.
  pub insert_returns :
      (now later : ℕ) (k : K) (v : V) (m : Intern K V) {m' : Intern K V} {r : V}
      → insert now later k v m ≡ returned (m', r)
      → v ≡ r
  insert_returns now later k v m ran = let (n, _, _, e) = insert_lem now later k v m in ground arith

  -- In a reachable state whose entries expire by age, a hit is the value that was inserted last
  -- under the key, at most `maxage` before the lookup.
  pub get_fresh :
      {t now : ℕ} {h : List (ℕ × K × V)} {m m' : Intern K V} (q : K) {v : V}
      → Reach t h m
      → t ≤ now
      → 0 < m.maxage
      → get now q m ≡ returned (m', some v)
      → (s : ℕ) × (latest q h ≡ some (s, v)) × (now - s ≤ m.maxage)
  get_fresh {t} {now} {h} {m} q {v} reach le age hit =
      let c = Tracks-later (Reach-Tracks reach) le in
      let (n, scan, _, found) = get_lem now q m in
      let held : (cut n m).map q ≡ some v = ground arith in
      let (s, newest) = cut-held n c q v held in
      (
        s,
        ap (latest q) (cut-split n c)
            ∙ latest-append q (take n c.window) (drop n c.window ++ c.dropped) newest,
        latest-All (λ s'. now - s' ≤ m.maxage) q (take n c.window) {v = v}
            (age_bound-All_fresh now m.maxage (size_bound m) n now c.window c.times
              (rw (← c.queued, ← kept_of_maxage now m age) scan))
            newest,
      )

  -- In a reachable state with no bound on the size and one on the age, a key whose insertions are
  -- all at most `maxage` old is found, with the value that was inserted last.
  pub get_hit :
      {t now : ℕ} {h : List (ℕ × K × V)} {m : Intern K V} (q : K) {s : ℕ} {v : V}
      → Reach t h m
      → t ≤ now
      → m.maxsize ≡ 0
      → 0 < m.maxage
      → All (λ x. (q == x.1) ≡ true → now - x.0 ≤ m.maxage) h
      → latest q h ≡ some (s, v)
      → (m' : Intern K V) × (get now q m ≡ returned (m', some v))
  get_hit {t} {now} {h} {m} q {s} {v} reach le size age recent newest =
      let c = Tracks-later (Reach-Tracks reach) le in
      let (n, scan, _, found) = get_lem now q m in
      let d = cut-Tracks n c scan in
      let absent : has_key q (stamps d.dropped) ≡ false =
        has_key_of_old now m.maxage q d.dropped (d.stale size age)
          (All-of_append _ d.window d.dropped (rw d.split at recent)) in
      let shown : latest q d.window ≡ some (s, v) =
        sym (latest-append_absent q d.window d.dropped absent)
        ∙ ap (latest q) (sym d.split)
        ∙ newest in
      (cut n m, rw found (ap (λ r. returned (cut n m, r)) (d.kept_values q s v absent shown)))

  -- With no bound on the age nor on the size nothing is ever forgotten: a timeout of 0 seconds
  -- keeps every entry for ever.
  pub get_of_no_maxage :
      {t now : ℕ} {h : List (ℕ × K × V)} {m : Intern K V} (q : K) {s : ℕ} {v : V}
      → Reach t h m
      → t ≤ now
      → m.maxsize ≡ 0
      → m.maxage ≡ 0
      → latest q h ≡ some (s, v)
      → (m' : Intern K V) × (get now q m ≡ returned (m', some v))
  get_of_no_maxage {t} {now} {h} {m} q {s} {v} reach le size age newest =
      let c = Tracks-later (Reach-Tracks reach) le in
      let (n, scan, _, found) = get_lem now q m in
      let d = cut-Tracks n c scan in
      let absent : has_key q (stamps d.dropped) ≡ false = rw (d.ageless size age) refl in
      let shown : latest q d.window ≡ some (s, v) =
        sym (latest-append_absent q d.window d.dropped absent)
        ∙ ap (latest q) (sym d.split)
        ∙ newest in
      (cut n m, rw found (ap (λ r. returned (cut n m, r)) (d.kept_values q s v absent shown)))

  -- With a maximum size the deque holds at most one entry more.
  pub length-fifo-le :
      {t : ℕ} {h : List (ℕ × K × V)} {m : Intern K V}
      → Reach t h m
      → 0 < m.maxsize
      → length m.fifo ≤ m.maxsize + 1
  unfolding new with_maxage with_maxsize
  length-fifo-le (started t size age) pos = omega arith
  length-fifo-le (inserted {now = now} {later = later} {m = m} {m' = m'} k v r reach le le' ran)
        pos =
      let (n, _, le, e) = insert_lem now later k v m in
      let same : push later k v (cut n m) ≡ m' = cc in
      rw (← same)
        (omega (arith, length-take-le n m.fifo, size_bound-le-maxsize m (rw (← same) at pos)))
  length-fifo-le (looked_up {now = now} {m = m} {m' = m'} q r reach le ran) pos =
      let (n, _, le, e) = get_lem now q m in
      let same : cut n m ≡ m' = cc in
      rw (← same)
        (omega (arith, length-take-le n m.fifo, size_bound-le-maxsize m (rw (← same) at pos)))

  -- A key that is inserted again is lost when its first entry expires, though the second is recent.
  pub reinserted_lost :
      (age t₁ t₂ t₃ : ℕ) (k : K) (v w : V)
      → 0 < age
      → t₁ ≤ t₂
      → t₂ ≤ t₃
      → t₂ - t₁ ≤ age
      → t₃ - t₂ ≤ age
      → age < t₃ - t₁
      → (m : Intern K V) × ((do
        (m₁, _) ← insert t₁ t₁ k v (with_maxage age new)
        (m₂, _) ← insert t₂ t₂ k w m₁
        get t₃ k m₂)
          ≡ returned (m, none))
  unfolding insert get new with_maxage
  reinserted_lost age t₁ t₂ t₃ k v w pos le le' new_enough recent old =
      let first : Intern K V = push t₁ k v (cut 0 (with_maxage age new)) in
      let second : Intern K V = push t₂ k w (cut 1 first) in
      (cut 1 second, ground (arith, eq_refl k))
