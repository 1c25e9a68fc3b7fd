-- ===== src/Unixuser/Tests.antt =====
-- A lookup in a database with one account, and the theorem applied to it.
use webdav_server_rs.Prelude.{nat_eq, str_eq, ◌≡◌, refl, true, false, some, [], ok}
use webdav_server_rs.Unixuser.{Passwd, User, buf_len, by_name}
use webdav_server_rs.Unixuser.Lookup.{HasSupplementary, by_name_lem}
use webdav_server_rs.Sample.{mike, accounts}

program : Unit {0}
unfolding by_name
program = tt

found : (user : User) × (by_name accounts mike true ≡ ok user)
unfolding program
found = (_, refl)

by_name_lem_example :
    (pwd : Passwd) × (accounts.getpwnam_r mike buf_len ≡ (0, some pwd))
    × (found.0.uid ≡ pwd.pw_uid)
    × (found.0.gid ≡ pwd.pw_gid)
    × (found.0.dir ≡ pwd.pw_dir)
    × HasSupplementary found.0
    × (true ≡ false → found.0.groups ≡ [])
by_name_lem_example = by_name_lem accounts mike true found.0 found.1
