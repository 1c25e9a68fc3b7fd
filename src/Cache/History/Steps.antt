-- ===== src/Cache/History/Steps.antt =====
-- Every operation keeps the invariant.
use webdav_server_rs.Prelude.{
  take-append-drop, append_assoc, ℕ, ◌-◌, ◌≤◌, ◌<◌, ◌≡◌, refl, sym, ap, subst, ◌∙◌, false,
  Bool-cases, ◌||◌, inl, inr, some, List, [], ◌∷◌, ◌++◌, arith, Eq, ◌==◌, length, take, drop,
  append-nil, drop_of_length-le, All, returned,
}
use webdav_server_rs.Cache.{
  Intern, new, with_maxsize, with_maxage, kept, size_bound, store, expire, insert, get,
}
use webdav_server_rs.Cache.Expire.{
  has_key, without, expire_lem, kept_of_maxage, kept_of_no_maxage, size_bound_of_no_maxsize,
}
use webdav_server_rs.Cache.History.Defs.{
  stamps, latest, Reach, started, inserted, looked_up, Tracks,
}
use webdav_server_rs.Cache.History.Windows.{
  stamps-take, stamps-drop, stamps-append, length-stamps, Descending-take, Descending-mono,
  All-mono, All-append, age_bound-All_old, has_key-append, latest-take,
}

module _ {ℓ κ} {K : Type ℓ} {V : Type κ} ⦃e : Eq K⦄ where
  -- The clock may move on.
  pub Tracks-later :
      {t now : ℕ} {h : List (ℕ × K × V)} {m : Intern K V} → Tracks t h m → t ≤ now → Tracks now h m
  Tracks-later {t} {now} {h} {m} c le = record {
    window = c.window;
    dropped = c.dropped;
    split = c.split;
    queued = c.queued;
    held = c.held;
    kept_values = c.kept_values;
    times = Descending-mono t now c.window le c.times;
    stale = λ size age. All-mono c.dropped (λ x p. omega arith) (c.stale size age);
    ageless = c.ageless;
  }

  -- The state after `expire`, on the `k` newest entries.
  abbrev pub cut : ℕ → Intern K V → Intern K V
  cut k m = record m { map = without (drop k m.fifo) m.map; fifo = take k m.fifo }

  module _ (k : ℕ) {now : ℕ} {h : List (ℕ × K × V)} {m : Intern K V} (c : Tracks now h m) where
    pub cut-split : h ≡ take k c.window ++ (drop k c.window ++ c.dropped)
    cut-split = c.split ∙ rw (← append_assoc, take-append-drop) refl

    pub cut-held :
        (q : K) (v : V)
        → (cut k m).map q ≡ some v
        → (s : ℕ) × (latest q (take k c.window) ≡ some (s, v))
    cut-held q v found = elim (Bool-cases (has_key q (drop k m.fifo))) [
      | inl gone ↦ ground arith
      | inr other ↦
          let (s, p) = c.held q v (ground arith) in
          (s, latest-take q k c.window (rw (← stamps-drop k c.window, ← c.queued) other) ∙ p)
    ]

    cut-kept_values :
        (q : K) (s : ℕ) (v : V)
        → has_key q (stamps (drop k c.window ++ c.dropped)) ≡ false
        → latest q (take k c.window) ≡ some (s, v)
        → (cut k m).map q ≡ some v
    cut-kept_values q s v absent found =
        let both : (has_key q (stamps (drop k c.window)) || has_key q (stamps c.dropped)) ≡ false =
          sym (has_key-append q (stamps (drop k c.window)) (stamps c.dropped))
          ∙ ap (has_key q) (sym (stamps-append (drop k c.window) c.dropped))
          ∙ absent in
        let here : has_key q (drop k m.fifo) ≡ false =
          rw (c.queued, stamps-drop k c.window) (ground arith) in
        let value : m.map q ≡ some v =
          c.kept_values q s v (ground arith)
            (sym (latest-take q k c.window (ground arith)) ∙ found) in
        rw here value

    cut-stale :
        kept now m ≡ returned k
        → m.maxsize ≡ 0
        → 0 < m.maxage
        → All (λ x. m.maxage < now - x.0) (drop k c.window ++ c.dropped)
    cut-stale scan size age =
        All-append _ (drop k c.window) c.dropped
          (age_bound-All_old now m.maxage k c.window
            (rw (← c.queued, ← size_bound_of_no_maxsize m size, ← kept_of_maxage now m age) scan))
          (c.stale size age)

    cut-ageless :
        kept now m ≡ returned k → m.maxsize ≡ 0 → m.maxage ≡ 0 → drop k c.window ++ c.dropped ≡ []
    cut-ageless scan size age =
        let all : size_bound m ≡ k = ground (arith, kept_of_no_maxage now m age) in
        let width : length c.window ≡ k =
          omega
            (arith, length-stamps c.window, ap length c.queued, size_bound_of_no_maxsize m size) in
        rw (c.ageless size age, append-nil, drop_of_length-le k c.window (omega arith)) refl

    pub cut-Tracks : kept now m ≡ returned k → Tracks now h (cut k m)
    cut-Tracks scan = record {
      window = take k c.window;
      dropped = drop k c.window ++ c.dropped;
      split = cut-split;
      queued = rw c.queued (stamps-take k c.window);
      held = cut-held;
      kept_values = cut-kept_values;
      times = Descending-take k now c.window c.times;
      stale = cut-stale scan;
      ageless = cut-ageless scan;
    }

  -- `expire` returns such a cut.
  pub expire-cut :
      (now : ℕ) (m : Intern K V)
      → (k : ℕ) × (kept now m ≡ returned k)
        × (k ≤ size_bound m)
        × (expire now m ≡ returned (cut k m))
  expire-cut now m = expire_lem now m

  abbrev pub push : ℕ → K → V → Intern K V → Intern K V
  push now k v m = record m { map = store k v m.map; fifo = (now, k) ∷ m.fifo }

  pub push-Tracks :
      {t now : ℕ} {h : List (ℕ × K × V)} {m : Intern K V} (k : K) (v : V)
      → Tracks t h m
      → t ≤ now
      → Tracks now ((now, k, v) ∷ h) (push now k v m)
  push-Tracks {t} {now} {h} {m} k v c le = record {
    window = (now, k, v) ∷ c.window;
    dropped = c.dropped;
    split = ap (◌∷◌ (now, k, v)) c.split;
    queued = ap (◌∷◌ (now, k)) c.queued;
    held = λ q u found. elim (Bool-cases (q == k)) [
      | inl same ↦ (now, ground arith)
      | inr other ↦ let (s, p) = c.held q u (ground arith) in (s, ground arith)
    ];
    kept_values = λ q s u absent found. ground (arith, c.kept_values q s u);
    times = (omega arith, Descending-mono t now c.window le c.times);
    stale = λ size age. All-mono c.dropped (λ x p. omega arith) (c.stale size age);
    ageless = c.ageless;
  }

  -- What `insert` and `get` return, with the panics gone.
  pub insert_lem :
      (now later : ℕ) (k : K) (v : V) (m : Intern K V)
      → (n : ℕ) × (kept now m ≡ returned n)
        × (n ≤ size_bound m)
        × (insert now later k v m ≡ returned (push later k v (cut n m), v))
  unfolding insert
  insert_lem now later k v m = let (n, scan, le, e) = expire-cut now m in (n, scan, le, rw e refl)

  pub get_lem :
      (now : ℕ) (q : K) (m : Intern K V)
      → (n : ℕ) × (kept now m ≡ returned n)
        × (n ≤ size_bound m)
        × (get now q m ≡ returned (cut n m, (cut n m).map q))
  unfolding get
  get_lem now q m = let (n, scan, le, e) = expire-cut now m in (n, scan, le, rw e refl)

  -- A reachable state satisfies the invariant.
  pub Reach-Tracks : {t : ℕ} {h : List (ℕ × K × V)} {m : Intern K V} → Reach t h m → Tracks t h m
  unfolding new with_maxsize with_maxage
  Reach-Tracks (started t size age) = record {
    window = [];
    dropped = [];
    split = refl;
    queued = refl;
    held = λ q v found. ground arith;
    kept_values = λ q s v absent found. ground arith;
    times = tt;
    stale = λ _ _. tt;
    ageless = λ _ _. refl;
  }
  Reach-Tracks (inserted {now = now} {later = later} {m = m} {m' = m'} k v r reach le le' ran) =
      let c = Reach-Tracks reach in
      let (n, scan, _, e) = insert_lem now later k v m in
      let same : push later k v (cut n m) ≡ m' = cc in
      subst (Tracks _ _) same (push-Tracks k v (cut-Tracks n (Tracks-later c le) scan) le')
  Reach-Tracks (looked_up {now = now} {m = m} {m' = m'} q r reach le ran) =
      let c = Reach-Tracks reach in
      let (n, scan, _, e) = get_lem now q m in
      let same : cut n m ≡ m' = cc in
      subst (Tracks _ _) same (cut-Tracks n (Tracks-later c le) scan)
