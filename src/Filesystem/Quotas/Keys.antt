-- ===== src/Filesystem/Quotas/Keys.antt =====
-- The keys of the cache of quotas: the components of the directory, then the digits of the uid.
use webdav_server_rs.Prelude.{
  nat_eq, str_eq, ℕ, ◌<◌, ◌^◌, ◌≡◌, ◌≢◌, refl, sym, ap, ap₂, ◌∙◌, subst, inl, inr, Bool, true,
  false, not, ◌&&◌, ◌||◌, Bool-cases, List, [], ◌∷◌, ◌++◌, append_assoc, append-nil, filter, All,
  Str, bytes, starts_with, split, split-free, split-append_any, ◌==◌, nat_beq_iff, to_string,
  to_string-IsDigit, to_string_injective, to_string-ne-nil, if◌then◌else◌, arith,
}
use webdav_server_rs.Quota.Entry.{components}
use webdav_server_rs.Filesystem.Quotas.{ends_with_slash, pushed, key_of}

abbrev is_part : Str → Bool
is_part p = not (p == []) && not (p == bytes ".")

abbrev parts : Str → List Str
parts s = filter is_part (split b'/' s)

-- The component in front of the parts, if there is one.
abbrev lead : Str → List Str
lead s =
    if starts_with s (bytes "/")
    then bytes "/" ∷ []
    else if s == bytes "." || starts_with s (bytes "./")
    then bytes "." ∷ []
    else []

components-lead : (s : Str) → components s ≡ lead s ++ parts s
unfolding components
components-lead s = elim (Bool-cases (starts_with s (bytes "/"))) [
  | inl root ↦ rw root refl
  | inr relative ↦ elim (Bool-cases (s == bytes "." || starts_with s (bytes "./"))) [
    | inl dot ↦ rw (relative, dot) refl
    | inr plain ↦ rw (relative, plain) refl
  ]
]

parts_nil : parts [] ≡ []
unfolding split
parts_nil = refl

components_nil : components [] ≡ []
unfolding components
components_nil = refl

filter-append :
    (p : Str → Bool) (xs ys : List Str) → filter p (xs ++ ys) ≡ filter p xs ++ filter p ys
filter-append p [] ys = refl
filter-append p (x ∷ xs) ys = elim (Bool-cases (p x)) [
  | inl t ↦ rw t (ap (◌∷◌ x) (filter-append p xs ys))
  | inr f ↦ rw f (filter-append p xs ys)
]

parts-slash : (s t : Str) → parts (s ++ (b'/' ∷ t)) ≡ parts s ++ parts t
parts-slash s t =
    ap (filter is_part) (split-append_any b'/' s t)
    ∙ filter-append is_part (split b'/' s) (split b'/' t)

lead-slash : (s t : Str) → lead (s ++ (b'/' ∷ t)) ≡ lead (s ++ (b'/' ∷ []))
lead-slash [] t = refl
lead-slash (x ∷ []) t = refl
lead-slash (x ∷ y ∷ s) t = refl

lead-append : (s t : Str) → ends_with_slash s ≡ false → s ≢ [] → lead (s ++ (b'/' ∷ t)) ≡ lead s
lead-append [] t e ne = absurd (ne refl)
lead-append (x ∷ []) t e ne = ground arith
lead-append (x ∷ y ∷ s) t e ne = refl

ends_with_slash-inversion :
    (s : Str) → ends_with_slash s ≡ true → (s' : Str) × (s ≡ s' ++ (b'/' ∷ []))
ends_with_slash-inversion [] e = absurd (ground arith)
ends_with_slash-inversion (x ∷ []) e = ([], ground arith)
ends_with_slash-inversion (x ∷ y ∷ s) e =
    let (s', same) = ends_with_slash-inversion (y ∷ s) e in (x ∷ s', ap (◌∷◌ x) same)

components-slash :
    (s t : Str) → components (s ++ (b'/' ∷ t)) ≡ lead (s ++ (b'/' ∷ [])) ++ (parts s ++ parts t)
components-slash s t =
    components-lead (s ++ (b'/' ∷ t)) ∙ ap₂ ◌++◌ (lead-slash s t) (parts-slash s t)

IsFree-digits : (d : Str) → All (λ c. (c ≢ b'/') × (c ≢ b'.')) d → All (λ c. c ≢ b'/') d
IsFree-digits [] all = tt
IsFree-digits (c ∷ d) all = (all.0.0, IsFree-digits d all.1)

-- A text with no slash and no full stop is one part, and none in front.
module _ (c : ℕ) (d : Str) (plain : All (λ x. (x ≢ b'/') × (x ≢ b'.')) (c ∷ d)) where
  parts-plain : parts (c ∷ d) ≡ (c ∷ d) ∷ []
  parts-plain =
      let whole = split-free b'/' (c ∷ d) (IsFree-digits (c ∷ d) plain) in
      let first = plain.0.1 in rw whole (ground (arith, nat_beq_iff c b'.'))

  pushed_relative :
      (b : Str)
      → pushed b (c ∷ d)
        ≡ (if b == [] || ends_with_slash b then b ++ (c ∷ d) else b ++ (b'/' ∷ c ∷ d))
  unfolding pushed
  pushed_relative b = let first = plain.0.0 in ground (arith, nat_beq_iff c b'/')

  lead-plain : lead (c ∷ d) ≡ []
  lead-plain =
      let no_slash = plain.0.0 in
      let no_dot = plain.0.1 in ground (arith, nat_beq_iff c b'/', nat_beq_iff c b'.')

  components-after_slash :
      (s : Str)
      → components ((s ++ (b'/' ∷ [])) ++ (c ∷ d)) ≡ components (s ++ (b'/' ∷ [])) ++ ((c ∷ d) ∷ [])
  components-after_slash s =
      simp (append_assoc, components-slash, parts-plain, parts_nil, append-nil)

  components-after :
      (b : Str)
      → ends_with_slash b ≡ false
      → b ≢ []
      → components (b ++ (b'/' ∷ c ∷ d)) ≡ components b ++ ((c ∷ d) ∷ [])
  components-after b open_end ne =
      components-lead (b ++ (b'/' ∷ c ∷ d))
      ∙ ap₂ ◌++◌ (lead-append b (c ∷ d) open_end ne)
          (parts-slash b (c ∷ d) ∙ ap (◌++◌ (parts b)) parts-plain)
      ∙ simp (components-lead, append_assoc)

  components-pushed : (b : Str) → components (pushed b (c ∷ d)) ≡ components b ++ ((c ∷ d) ∷ [])
  components-pushed [] =
      ap components (pushed_relative [])
      ∙ components-lead (c ∷ d)
      ∙ ap₂ ◌++◌ lead-plain parts-plain
      ∙ ap (λ l. l ++ ((c ∷ d) ∷ [])) (sym components_nil)
  components-pushed (x ∷ b) = elim (Bool-cases (ends_with_slash (x ∷ b))) [
    | inl slash ↦
        let (s, same) = ends_with_slash-inversion (x ∷ b) slash in
        ap components (pushed_relative (x ∷ b) ∙ rw slash (ap (λ l. l ++ (c ∷ d)) same))
        ∙ components-after_slash s
        ∙ ap (λ l. components l ++ ((c ∷ d) ∷ [])) (sym same)
    | inr open_end ↦
        ap components (pushed_relative (x ∷ b) ∙ rw open_end refl)
        ∙ components-after (x ∷ b) open_end (λ e. ground arith)
  ]

List-cases : (s : Str) → s ≢ [] → (c : ℕ) × (d : Str) × (s ≡ c ∷ d)
List-cases [] ne = absurd (ne refl)
List-cases (c ∷ d) ne = (c, d, refl)

append_one_injective :
    (xs ys : List Str) (a b : Str) → xs ++ (a ∷ []) ≡ ys ++ (b ∷ []) → (xs ≡ ys) × (a ≡ b)
append_one_injective [] [] a b e = ground arith
append_one_injective [] (y ∷ []) a b e = absurd (ground arith)
append_one_injective [] (y ∷ z ∷ ys) a b e = absurd (ground arith)
append_one_injective (x ∷ []) [] a b e = absurd (ground arith)
append_one_injective (x ∷ z ∷ xs) [] a b e = absurd (ground arith)
append_one_injective (x ∷ xs) (y ∷ ys) a b e = ground (arith, append_one_injective xs ys a b)

-- A key is the components of the directory, and the digits of the uid.
pub key_of_lem :
    (basedir : Str) (uid : ℕ) → key_of basedir uid ≡ components basedir ++ (to_string uid ∷ [])
unfolding key_of
key_of_lem basedir uid =
    let (c, d, e) = List-cases (to_string uid) (to_string-ne-nil uid) in
    ap (λ s. components (pushed basedir s)) e
    ∙ components-pushed c d (subst (All (λ x. (x ≢ b'/') × (x ≢ b'.'))) e (to_string-IsDigit uid))
        basedir
    ∙ ap (λ s. components basedir ++ (s ∷ [])) (sym e)

-- Equal keys are of the same directory and of the same uid.
pub key_of_injective :
    (a b : Str) (u v : ℕ)
    → u < 2 ^ 32
    → v < 2 ^ 32
    → key_of a u ≡ key_of b v
    → (components a ≡ components b) × (u ≡ v)
key_of_injective a b u v hu hv e =
    let (dirs, uids) =
      append_one_injective (components a) (components b) (to_string u) (to_string v)
        (sym (key_of_lem a u) ∙ e ∙ key_of_lem b v) in
    (dirs, to_string_injective u v hu hv uids)
