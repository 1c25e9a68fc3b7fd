-- ===== src/Router/Translation/Passes.antt =====
-- router.rs: the text of a route expression after each step of its translation.
use webdav_server_rs.Prelude.{
  nat_eq, ℕ, ◌≡◌, refl, sym, ap, ◌∙◌, true, false, List, [], ◌∷◌, ◌++◌, map, append_assoc, All, Str,
  arith, encode, collect,
}
use webdav_server_rs.Router.{protect}
use webdav_server_rs.Router.Translation.{
  alnum, meta, escape_char, escaped, Piece, literal, param, splat_param, opens, closes, print,
  plain, IsRoute, marked,
}

alnum-plain : (c : ℕ) → alnum c ≡ true → plain c ≡ true
alnum-plain c h = ground arith

alnum-meta : (c : ℕ) → alnum c ≡ true → meta c ≡ false
alnum-meta c h = ground arith

encode-protect : (c : ℕ) → plain c ≡ true → encode (protect c) ≡ c ∷ []
unfolding encode protect
encode-protect c h = ground arith

-- Steps on plain text leave it, but for the escapes.
escaped-plain :
    (s t : Str)
    → All (λ c. plain c ≡ true) s
    → escaped (collect (map protect (s ++ t))) ≡ escaped s ++ escaped (collect (map protect t))
unfolding collect
escaped-plain [] t all = refl
escaped-plain (c ∷ s) t all =
    rw (encode-protect c all.0, escaped-plain s t all.1)
      (sym (append_assoc (escape_char c) (escaped s) (escaped (collect (map protect t)))))

name-plain : (n : Str) → All (λ c. alnum c ≡ true) n → All (λ c. plain c ≡ true) n
name-plain [] all = tt
name-plain (c ∷ n) all = (alnum-plain c all.0, name-plain n all.1)

escaped-name : (n : Str) → All (λ c. alnum c ≡ true) n → escaped n ≡ n
escaped-name [] all = refl
escaped-name (c ∷ n) all = rw (alnum-meta c all.0, escaped-name n all.1) refl

name-step :
    (n t : Str)
    → All (λ c. alnum c ≡ true) n
    → escaped (collect (map protect (n ++ t))) ≡ n ++ escaped (collect (map protect t))
name-step n t all =
    escaped-plain n t (name-plain n all)
    ∙ ap (λ x. x ++ escaped (collect (map protect t))) (escaped-name n all)

pub escaped-marked :
    (ps : List Piece) → IsRoute ps → escaped (collect (map protect (print ps))) ≡ marked ps
unfolding collect protect encode
escaped-marked [] h = refl
escaped-marked (literal s ∷ ps) h =
    escaped-plain s (print ps) h.0 ∙ ap (λ x. escaped s ++ x) (escaped-marked ps h.1)
escaped-marked (param n ∷ ps) h =
    ap (◌∷◌ b':') (name-step n (print ps) h.0.1 ∙ ap (λ x. n ++ x) (escaped-marked ps h.2))
escaped-marked (splat_param n ∷ ps) h =
    ap (λ x. 0xee ∷ 0x80 ∷ 0x81 ∷ x)
      (name-step n (print ps) h.0.1 ∙ ap (λ x. n ++ x) (escaped-marked ps h.2))
escaped-marked (opens ∷ ps) h = ap (λ x. 0xee ∷ 0x80 ∷ 0x82 ∷ x) (escaped-marked ps h)
escaped-marked (closes ∷ ps) h = ap (λ x. 0xee ∷ 0x80 ∷ 0x83 ∷ x) (escaped-marked ps h)
