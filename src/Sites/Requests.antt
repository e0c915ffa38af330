-- ===== src/Sites/Requests.antt =====
-- backends/ConnectionRequest.h, SftpCredentials.h and FtpCredentials.h: the settings that a connection
-- is opened with. Passwords and proxies are not among what is remembered, and are left out.
use zephyrftp.Base.{ℕ, Bool}
use zephyrftp.Base.Text.{Text}
use zephyrftp.Backends.Protocol.{Protocol}

pub data SftpAuthMethod : Type 0 where
  password public_key : SftpAuthMethod

pub data FtpsMode : Type 0 where
  plain explicit implicit : FtpsMode

unfoldable pub protocol_to_ftps_mode : Protocol → FtpsMode
protocol_to_ftps_mode Protocol.ftps = explicit
protocol_to_ftps_mode Protocol.ftps_implicit = implicit
protocol_to_ftps_mode _ = plain

pub record SftpCredentials : Type 0 where
  pub host : Text
  pub port : ℕ
  pub username : Text
  pub auth_method : SftpAuthMethod
  pub private_key_path : Text
  pub use_home_directory : Bool
  pub starting_directory : Text
  pub simultaneous_connections : ℕ

pub record FtpCredentials : Type 0 where
  pub host : Text
  pub port : ℕ
  pub username : Text
  pub ftps_mode : FtpsMode
  pub use_home_directory : Bool
  pub starting_directory : Text
  pub simultaneous_connections : ℕ

-- The credentials of the protocol that a request is for.
pub data ConnectionRequest : Type 0 where
  over_sftp : SftpCredentials → ConnectionRequest
  over_ftp : Protocol → FtpCredentials → ConnectionRequest
