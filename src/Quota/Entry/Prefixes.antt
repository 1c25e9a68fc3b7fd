-- ===== src/Quota/Entry/Prefixes.antt =====
-- Directories that hold one path: their components, and the text that those stand for.
use webdav_server_rs.Prelude.{
  nat_eq, str_eq, ◌≤◌, ◌≡◌, refl, subst, ◌⊎◌, inl, inr, true, List, [], ◌∷◌, ◌++◌, Str, length,
  eq_iff, eq_refl, arith,
}
use webdav_server_rs.Quota.Entry.{str_le, components, is_prefix}
use webdav_server_rs.Quota.Entry.Order.{str_le_refl, str_le_append, append_str_le, str_le_antisymm}

abbrev pub join : List Str → Str
join [] = []
join (a ∷ []) = a
join (a ∷ b ∷ r) = a ++ (b'/' ∷ join (b ∷ r))

-- The path with the given components, the first of which is the root.
abbrev pub rendered : List Str → Str
rendered [] = []
rendered (r ∷ parts) = r ++ join parts

-- A path is spelt in the one way that realpath(3) spells it: no component is empty, `.` or follows
-- two slashes.
abbrev pub IsCanonical : Str → Type 0
IsCanonical d = rendered (components d) ≡ d

is_prefix-length-le : (as' bs : List Str) → is_prefix as' bs ≡ true → length as' ≤ length bs
unfolding is_prefix
is_prefix-length-le [] bs h = omega arith
is_prefix-length-le (a ∷ as') [] h = absurd (ground arith)
is_prefix-length-le (a ∷ as') (b ∷ bs) h = ground (arith, is_prefix-length-le as' bs)

-- Of two prefixes of one list, one is a prefix of the other.
is_prefix_total :
    (as' bs cs : List Str)
    → is_prefix as' cs ≡ true
    → is_prefix bs cs ≡ true
    → (is_prefix as' bs ≡ true) ⊎ (is_prefix bs as' ≡ true)
unfolding is_prefix
is_prefix_total [] bs cs h k = inl refl
is_prefix_total (a ∷ as') [] cs h k = inr refl
is_prefix_total (a ∷ as') (b ∷ bs) [] h k = absurd (ground arith)
is_prefix_total (a ∷ as') (b ∷ bs) (c ∷ cs) h k =
    ground (arith, eq_iff a c, eq_iff b c, eq_refl c, is_prefix_total as' bs cs)

str_le-join : (as' bs : List Str) → is_prefix as' bs ≡ true → str_le (join as') (join bs) ≡ true
unfolding is_prefix
str_le-join [] bs h = unfold str_le in refl
str_le-join (a ∷ as') [] h = absurd (ground arith)
str_le-join (a ∷ []) (b ∷ []) h = ground (arith, eq_iff a b, str_le_refl a)
str_le-join (a ∷ []) (b ∷ c ∷ bs) h =
    ground (arith, eq_iff a b, str_le_append a (b'/' ∷ join (c ∷ bs)))
str_le-join (a ∷ a' ∷ as') (b ∷ []) h = absurd (ground arith)
str_le-join (a ∷ a' ∷ as') (b ∷ b' ∷ bs) h = ground (
  arith,
  eq_iff a b,
  append_str_le a (b'/' ∷ join (a' ∷ as')) (b'/' ∷ join (b' ∷ bs)),
  append_str_le (b'/' ∷ []) (join (a' ∷ as')) (join (b' ∷ bs)),
  str_le-join (a' ∷ as') (b' ∷ bs),
)

str_le-rendered :
    (as' bs : List Str) → is_prefix as' bs ≡ true → str_le (rendered as') (rendered bs) ≡ true
unfolding is_prefix
str_le-rendered [] bs h = unfold str_le in refl
str_le-rendered (a ∷ as') [] h = absurd (ground arith)
str_le-rendered (a ∷ as') (b ∷ bs) h =
    ground (arith, eq_iff a b, append_str_le a (join as') (join bs), str_le-join as' bs)

-- Of two canonical directories that hold one path, the one that is later in the order of texts is at
-- least as deep.
pub length-components-le :
    (d e p : Str)
    → IsCanonical d
    → IsCanonical e
    → is_prefix (components d) (components p) ≡ true
    → is_prefix (components e) (components p) ≡ true
    → str_le d e ≡ true
    → length (components d) ≤ length (components e)
length-components-le d e p cd ce hd he before =
    elim (is_prefix_total (components d) (components e) (components p) hd he) [
      | inl shallow ↦ is_prefix-length-le (components d) (components e) shallow
      | inr deep ↦
          let after : str_le e d ≡ true =
            subst (λ x. str_le x d ≡ true) ce
              (subst (λ x. str_le (rendered (components e)) x ≡ true) cd
                (str_le-rendered (components e) (components d) deep)) in
          let same = str_le_antisymm d e before after in
          subst (λ x. length (components d) ≤ length (components x)) same (omega arith)
    ]
