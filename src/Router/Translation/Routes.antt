-- ===== src/Router/Translation/Routes.antt =====
-- router.rs: the route that `Builder::add` adds.
use webdav_server_rs.Prelude.{
  nat_eq, str_eq, ◌≡◌, refl, true, false, Option, some, List, [], ◌∷◌, ◌++◌, map, Str, bytes, arith,
  chars_of_ascii, from_utf8_of_ascii, starts_with, returned, collect,
}
use webdav_server_rs.Router.{Builder, colon, splat_char, maybe, protect, translate, add_re, add}
use webdav_server_rs.Router
use webdav_server_rs.Router.Regexes.{RegexCrate}
use webdav_server_rs.Router.Translation.{
  escaped, Replaced, Piece, is_flat, with_splats, Parenthesised, print, expression, IsRoute, marked,
  with_params,
}
use webdav_server_rs.Router.Translation.Passes.{escaped-marked}
use webdav_server_rs.Router.Translation.Replacements.{
  print-IsAscii, params_replaced, splats_replaced, options_replaced, Parenthesised-IsAscii,
}

-- What the documentation of the crate regex says of `escape`, and of `replace_all` for the three
-- expressions.
pub record IsDocumented (lib : RegexCrate) : Type 0 where
  pub escape_lem : (s : Str) → lib.escape s ≡ escaped s
  pub colon_re : lib.Regex
  pub colon_compiled : lib.compile colon ≡ some colon_re
  pub colon_lem :
      (s r : Str)
      → Replaced b':' [] (bytes "(?P<") (bytes ">[^/]*)") s r
      → lib.replace_all colon_re s (bytes "(?P<$1>[^/]*)") ≡ r
  pub splat_re : lib.Regex
  pub splat_compiled : lib.compile Router.splat ≡ some splat_re
  pub splat_lem :
      (s r : Str)
      → Replaced 0xee (0x80 ∷ 0x81 ∷ []) (bytes "(?P<") (bytes ">.*)") s r
      → lib.replace_all splat_re s (bytes "(?P<$1>.*)") ≡ r
  pub maybe_re : lib.Regex
  pub maybe_compiled : lib.compile maybe ≡ some maybe_re
  pub maybe_lem :
      (s r : Str) → Parenthesised false s r → lib.replace_all maybe_re s (bytes "($1)?") ≡ r

translate-expression :
    (lib : RegexCrate) (ps : List Piece)
    → IsDocumented lib
    → IsRoute ps
    → is_flat false ps ≡ true
    → translate lib (print ps) ≡ returned (expression ps)
unfolding translate
translate-expression lib ps doc h flat =
    rw
      (
        chars_of_ascii (print ps) (print-IsAscii ps h),
        doc.escape_lem (collect (map protect (print ps))),
        escaped-marked ps h,
        doc.colon_compiled,
        doc.splat_compiled,
        doc.maybe_compiled,
        doc.colon_lem (marked ps) (with_params ps) (params_replaced ps h),
        doc.splat_lem (with_params ps) (with_splats ps) (splats_replaced ps h),
        doc.maybe_lem (with_splats ps) (expression ps) (options_replaced false ps h flat),
        from_utf8_of_ascii (expression ps)
            (Parenthesised-IsAscii (options_replaced false ps h flat)),
      )
      refl

-- A route expression in ASCII is made of text, `:name`, `*name` and parentheses that are not
-- nested, each name ending where its letters and digits do. If it begins with a slash, it is added
-- as the regular expression in which the text is escaped, `:name` is a group of that name without
-- slashes, `*name` is one with any characters, and what is in parentheses is an optional group.
pub add-expression :
    (lib : RegexCrate) (S Method T : Type 0) (ps : List Piece) (methods : Option S) (payload : T)
    (b : Builder lib S Method T)
    → IsDocumented lib
    → IsRoute ps
    → is_flat false ps ≡ true
    → starts_with (print ps) (bytes "/") ≡ true
    → add lib S Method T (print ps) methods payload b
      ≡ returned (add_re lib S Method T (bytes "^" ++ expression ps ++ bytes "$") methods payload b)
unfolding add
add-expression lib S Method T ps methods payload b doc h flat slash =
    rw (no_hat (print ps) slash, slash, translate-expression lib ps doc h flat) refl
  where
    no_hat : (s : Str) → starts_with s (bytes "/") ≡ true → starts_with s (bytes "^") ≡ false
    no_hat [] e = absurd (ground arith)
    no_hat (c ∷ s) e = ground arith
