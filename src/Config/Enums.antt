-- ===== src/Config/Enums.antt =====
-- The enums of config.rs, and the parsers that their `from_str` attributes define.
use webdav_server_rs.Prelude.{Str, Option, none, some, str_eq, ◌==◌, bytes, if◌then◌else◌}

pub data Handler : Type 0 where
  virtroot filesystem : Handler

pub data Auth : Type 0 where
  false true opportunistic write : Auth

pub data AuthType : Type 0 where
  pam : AuthType
  htpasswd : Str → AuthType

pub data AcctType : Type 0 where
  unix : AcctType

pub data CaseInsensitive : Type 0 where
  true ms false : CaseInsensitive

pub data OnNotfound : Type 0 where
  continue return : OnNotfound

unfoldable pub parse_handler : Str → Option Handler
parse_handler s =
    if s == bytes "virtroot"
    then some virtroot
    else if s == bytes "filesystem"
    then some filesystem
    else none

unfoldable pub parse_auth : Str → Option Auth
parse_auth s =
    if s == bytes "false"
    then some Auth.false
    else if s == bytes "true"
    then some Auth.true
    else if s == bytes "opportunistic"
    then some opportunistic
    else if s == bytes "write"
    then some write
    else none

unfoldable pub parse_acct_type : Str → Option AcctType
parse_acct_type s = if s == bytes "unix" then some unix else none

unfoldable pub parse_case_insensitive : Str → Option CaseInsensitive
parse_case_insensitive s =
    if s == bytes "true"
    then some CaseInsensitive.true
    else if s == bytes "ms"
    then some ms
    else if s == bytes "false"
    then some CaseInsensitive.false
    else none

unfoldable pub parse_on_notfound : Str → Option OnNotfound
parse_on_notfound s =
    if s == bytes "continue"
    then some continue
    else if s == bytes "return"
    then some return
    else none
