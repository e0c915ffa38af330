-- ===== src/Backends/Protocol.antt =====
-- backends/Protocol.h and backends/ConnectionDescriptor.h.
use zephyrftp.Base.{[], ℕ, ◌≡◌, refl, Bool, true, false, arith, if◌then◌else◌}
use zephyrftp.Base.Text.{Text, codes, text_eq, is_empty}

pub data Protocol : Type 0 where
  sftp ftp ftps ftps_implicit : Protocol

unfoldable pub default_port_for : Protocol → ℕ
default_port_for Protocol.sftp = 22
default_port_for Protocol.ftp = 21
default_port_for Protocol.ftps = 21
default_port_for Protocol.ftps_implicit = 990

unfoldable pub supports_key_auth : Protocol → Bool
supports_key_auth Protocol.sftp = true
supports_key_auth Protocol.ftp = false
supports_key_auth Protocol.ftps = false
supports_key_auth Protocol.ftps_implicit = false

unfoldable pub protocol_to_key : Protocol → Text
protocol_to_key Protocol.sftp = codes "sftp"
protocol_to_key Protocol.ftp = codes "ftp"
protocol_to_key Protocol.ftps = codes "ftps"
protocol_to_key Protocol.ftps_implicit = codes "ftps-implicit"

unfoldable pub protocol_from_key : Text → Protocol
unfolding text_eq
protocol_from_key key =
    if text_eq key (codes "ftp")
    then Protocol.ftp
    else if text_eq key (codes "ftps")
    then Protocol.ftps
    else if text_eq key (codes "ftps-implicit")
    then Protocol.ftps_implicit
    else Protocol.sftp

-- operator== on the enumeration
unfoldable pub protocol_eq : Protocol → Protocol → Bool
protocol_eq Protocol.sftp Protocol.sftp = true
protocol_eq Protocol.ftp Protocol.ftp = true
protocol_eq Protocol.ftps Protocol.ftps = true
protocol_eq Protocol.ftps_implicit Protocol.ftps_implicit = true
protocol_eq _ _ = false

pub protocol_eq_refl : (p : Protocol) → protocol_eq p p ≡ true
unfolding protocol_eq
protocol_eq_refl Protocol.sftp = refl
protocol_eq_refl _ = refl

pub protocol_eq_sound : (p q : Protocol) → protocol_eq p q ≡ true → p ≡ q
unfolding protocol_eq
protocol_eq_sound Protocol.sftp q h = ground arith
protocol_eq_sound _ q h = ground arith

-- A key that was written reads back as its protocol.
pub protocol_from_key-to_key : (p : Protocol) → protocol_from_key (protocol_to_key p) ≡ p
unfolding protocol_from_key protocol_to_key
protocol_from_key-to_key Protocol.sftp = refl
protocol_from_key-to_key _ = refl

pub record ConnectionDescriptor : Type 0 where
  pub saved_site_id : Text
  pub protocol : Protocol
  pub host : Text
  pub port : ℕ
  pub username : Text

-- A default-constructed descriptor.
abbrev pub no_connection : ConnectionDescriptor
no_connection = record {
  saved_site_id = [];
  protocol = Protocol.sftp;
  host = [];
  port = 0;
  username = [];
}

-- ConnectionDescriptor::isEmpty
unfoldable pub is_unconnected : ConnectionDescriptor → Bool
is_unconnected d = is_empty d.host
