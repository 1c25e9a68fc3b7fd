-- ===== src/Responses/Tests.antt =====
-- Directories and error responses, and the theorems applied to them.
use webdav_server_rs.Prelude.{nat_eq, str_eq, ◌≡◌, ◌↔◌, refl, some, bytes, ok, returned}
use webdav_server_rs.Http.{unauthorized, HttpResponse}
use webdav_server_rs.Unixuser.{to_user}
use webdav_server_rs.Responses.{expand_directory, build_error}
use webdav_server_rs.Responses.Directory.{Expands, expand_directory_iff}
use webdav_server_rs.Responses.Errors.{IsErrorResponse, build_error-IsErrorResponse}
use webdav_server_rs.Sample.{accounts, mike_passwd, environment, home, config}

expand_directory_iff_example :
    (expand_directory (bytes "~/www") (some (to_user accounts mike_passwd))
      ≡ ok (bytes "/home/mike//www"))
    ↔ Expands (some (to_user accounts mike_passwd)) (bytes "~/www") (bytes "/home/mike//www")
expand_directory_iff_example =
    expand_directory_iff (some (to_user accounts mike_passwd)) (bytes "~/www")
      (bytes "/home/mike//www")

denied : (r : HttpResponse) × (build_error environment config unauthorized (some home) ≡ returned r)
unfolding build_error
denied = (_, refl)

build_error-IsErrorResponse_example :
    IsErrorResponse environment config unauthorized (some home) denied.0
build_error-IsErrorResponse_example =
    build_error-IsErrorResponse environment config unauthorized (some home) denied.0 denied.1
