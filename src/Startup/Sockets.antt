-- ===== src/Startup/Sockets.antt =====
-- main.rs, `make_listener`: a listening socket. The kernel decides which calls of the crate socket2
-- fail; it is a parameter.
use webdav_server_rs.Prelude.{
  nat_eq, ℕ, Bool, true, false, Option, none, some, List, [], ◌∷◌, length, ◌==◌, ◌≡◌, refl, sym,
  ◌∙◌, ap, Bool-cases, Option-cases, inl, inr, if◌then◌else◌, Result, ok, err, arith,
}
use webdav_server_rs.Config.{SocketAddr}
use webdav_server_rs.Suid.Syscalls.{Creds}

-- A socket of a family, with its options, the address that it is bound to, and the number of
-- connections that may wait. It belongs to who opened it.
pub record Socket : Type 0 where
  pub ipv6 : Bool
  pub only_v6 : Bool
  pub nonblocking : Bool
  pub nodelay : Bool
  pub reuse_address : Bool
  pub bound : Option SocketAddr
  pub backlog : Option ℕ
  pub opened_by : Creds

pub data SocketCall : Type 0 where
  create set_only_v6 set_nonblocking set_nodelay set_reuse_address from_std : SocketCall
  bind : SocketAddr → SocketCall
  listen : ℕ → SocketCall

-- The kind of the error, for a call that fails.
abbrev pub Attempt : Type 0
Attempt = SocketCall → Socket → Option ℕ

unfoldable pub is_ipv6 : SocketAddr → Bool
is_ipv6 addr = length addr.ip == 16

-- What a call does that succeeds.
abbrev pub done : SocketCall → Socket → Socket
done create s = s
done set_only_v6 s = record s { only_v6 = true }
done set_nonblocking s = record s { nonblocking = true }
done set_nodelay s = record s { nodelay = true }
done set_reuse_address s = record s { reuse_address = true }
done from_std s = s
done (bind addr) s = record s { bound = some addr }
done (listen n) s = record s { backlog = some n }

-- Calls in order; the first error ends them.
unfoldable pub perform : Attempt → List SocketCall → Socket → Result Socket ℕ
perform attempt [] s = ok s
perform attempt (call ∷ calls) s =
    let rest = perform attempt calls (done call s) in
    elim (attempt call s) [ some e ↦ err e | none ↦ rest ]

abbrev pub new_socket : Creds → SocketAddr → Socket
new_socket c addr = record {
  ipv6 = is_ipv6 addr;
  only_v6 = false;
  nonblocking = false;
  nodelay = false;
  reuse_address = false;
  bound = none;
  backlog = none;
  opened_by = c;
}

abbrev pub calls_after : SocketAddr → List SocketCall
calls_after addr =
    set_nonblocking ∷ set_nodelay ∷ set_reuse_address ∷ bind addr ∷ listen 128 ∷ from_std ∷ []

unfoldable pub make_listener : Attempt → Creds → SocketAddr → Result Socket ℕ
unfolding perform
make_listener attempt c addr =
    perform attempt
      (create ∷ (if is_ipv6 addr then set_only_v6 ∷ calls_after addr else calls_after addr))
      (new_socket c addr)

-- The state of a socket after calls that succeeded.
abbrev all_done : List SocketCall → Socket → Socket
all_done [] s = s
all_done (call ∷ calls) s = all_done calls (done call s)

perform-inversion :
    (attempt : Attempt) (calls : List SocketCall) (s s' : Socket)
    → perform attempt calls s ≡ ok s'
    → all_done calls s ≡ s'
unfolding perform
perform-inversion attempt [] s s' e = ground arith
perform-inversion attempt (call ∷ calls) s s' e = elim (Option-cases (attempt call s)) [
  | inl fine ↦
      let step : perform attempt (call ∷ calls) s ≡ perform attempt calls (done call s) =
        rw (perform, fine) refl in
      perform-inversion attempt calls (done call s) s' (sym step ∙ e)
  | inr (k, failed) ↦ absurd (ground arith)
]

-- A socket that listens on an address, for that family only.
abbrev pub listening : Creds → SocketAddr → Socket
listening c addr = record {
  ipv6 = is_ipv6 addr;
  only_v6 = is_ipv6 addr;
  nonblocking = true;
  nodelay = true;
  reuse_address = true;
  bound = some addr;
  backlog = some 128;
  opened_by = c;
}

pub make_listener-listening :
    (attempt : Attempt) (c : Creds) (addr : SocketAddr) (s : Socket)
    → make_listener attempt c addr ≡ ok s
    → s ≡ listening c addr
unfolding make_listener
make_listener-listening attempt c addr s e =
    let start = new_socket c addr in
    let v6 = set_only_v6 ∷ calls_after addr in
    let v4 = calls_after addr in
    elim (Bool-cases (is_ipv6 addr)) [
      | inl six ↦
          let calls : (if is_ipv6 addr then v6 else v4) ≡ v6 = rw six refl in
          let final =
            perform-inversion attempt (create ∷ v6) start s
              (sym (ap (λ l. perform attempt (create ∷ l) start) calls) ∙ e) in
          sym final ∙ ap (λ (b : Bool). record (listening c addr) { only_v6 = b }) (sym six)
      | inr four ↦
          let calls : (if is_ipv6 addr then v6 else v4) ≡ v4 = rw four refl in
          let final =
            perform-inversion attempt (create ∷ v4) start s
              (sym (ap (λ l. perform attempt (create ∷ l) start) calls) ∙ e) in
          sym final ∙ ap (λ (b : Bool). record (listening c addr) { only_v6 = b }) (sym four)
    ]
