-- ===== src/Dav.antt =====
-- The crate webdav-handler, as main.rs uses it: parameters, and the configuration of its handler.
use webdav_server_rs.Prelude.{Bool, Option, List, Str}
use webdav_server_rs.Http.{HttpRequest, HttpResponse}
use webdav_server_rs.Filesystem.{DavFileSystem}

-- `DavConfig`, with the fields that the server sets. `M` stands for `DavMethodSet`.
pub record DavConfig (M : Type 0) : Type 0 where
  pub filesystem : DavFileSystem
  pub prefix : Str
  pub methods : M
  pub hide_symlinks : Bool
  pub autoindex : Bool
  pub principal : Option Str
  pub indexfile : Option Str

-- What is given to the handler in one call.
pub record DavCall (M : Type 0) : Type 0 where
  pub config : DavConfig M
  pub request : HttpRequest

pub record DavCrate : Type 1 where
  pub Method : Type 0
  pub MethodSet : Type 0
  -- `DavPath::from_uri`, then `as_bytes`; `DavMethod::try_from`
  pub from_uri : Str → Option Str
  pub try_from : Str → Option Method
  pub from_vec : List Str → Option MethodSet
  pub contains : MethodSet → Method → Bool
  pub webdav_ro : MethodSet
  -- `DavHandler::handle_with`. The files change with each call, so that an answer depends on the
  -- calls before.
  pub handle_with : List (DavCall MethodSet) → DavCall MethodSet → HttpResponse
