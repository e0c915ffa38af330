-- ===== src/Sites/History.antt =====
-- backends/ConnectionHistory.h and .cpp.
use zephyrftp.Base.{
  ℕ, Bool, true, ◌&&◌, List, [], ◌∷◌, map, Option, some, ◌==◌, if◌then◌else◌, take,
}
use zephyrftp.Base.Text.{Text, codes, text_eq, is_empty}
use zephyrftp.Json.{
  JsonValue, JsonFields, bool, number, string, array, object, end, field, value, to_text, to_number,
  to_bool, to_list, of_list,
}
use zephyrftp.Backends.Protocol.{
  Protocol, default_port_for, protocol_to_key, protocol_from_key, protocol_eq,
}
use zephyrftp.Sites.Requests.{
  SftpAuthMethod, password, public_key, FtpsMode, plain, explicit, ConnectionRequest, over_sftp,
  over_ftp,
}

pub record ConnectionHistoryEntry : Type 0 where
  pub protocol : Protocol
  pub host : Text
  pub port : ℕ
  pub username : Text
  pub auth_method : SftpAuthMethod
  pub private_key_path : Text
  pub ftps_mode : FtpsMode
  pub use_home_directory : Bool
  pub starting_directory : Text
  pub last_connected_at_ms : ℕ

abbrev pub request_for : Protocol → ConnectionHistoryEntry → ConnectionRequest
request_for Protocol.sftp e = over_sftp (record {
  host = e.host;
  port = e.port;
  username = e.username;
  auth_method = e.auth_method;
  private_key_path = e.private_key_path;
  use_home_directory = e.use_home_directory;
  starting_directory = e.starting_directory;
  simultaneous_connections = 1;
})
request_for p e = over_ftp p (record {
  host = e.host;
  port = e.port;
  username = e.username;
  ftps_mode = e.ftps_mode;
  use_home_directory = e.use_home_directory;
  starting_directory = e.starting_directory;
  simultaneous_connections = 1;
})

-- toConnectionRequest
unfoldable pub to_connection_request : ConnectionHistoryEntry → ConnectionRequest
to_connection_request e = request_for e.protocol e

abbrev pub auth_key : SftpAuthMethod → Text
auth_key public_key = codes "key"
auth_key password = codes "password"

abbrev pub auth_from : Text → SftpAuthMethod
auth_from key = if text_eq key (codes "key") then public_key else password

abbrev pub ftps_key : FtpsMode → Text
ftps_key explicit = codes "explicit"
ftps_key _ = codes "none"

abbrev pub ftps_from : Text → FtpsMode
ftps_from key = if text_eq key (codes "explicit") then explicit else plain

unfoldable pub entry_to_json : ConnectionHistoryEntry → JsonValue
entry_to_json e = object (
    field (codes "protocol") (string (protocol_to_key e.protocol)) (
      field (codes "host") (string e.host) (
        field (codes "port") (number e.port) (
          field (codes "username") (string e.username) (
            field (codes "authMethod") (string (auth_key e.auth_method)) (
              field (codes "privateKeyPath") (string e.private_key_path) (
                field (codes "ftpsMode") (string (ftps_key e.ftps_mode)) (
                  field (codes "useHomeDirectory") (bool e.use_home_directory) (
                    field (codes "startingDirectory") (string e.starting_directory)
                      (field (codes "lastConnectedAt") (number e.last_connected_at_ms) end))))))))))

-- `double` is what reading a number through a double makes of it: Qt's conversion.
unfoldable pub entry_from_json : (ℕ → ℕ) → JsonFields → ConnectionHistoryEntry
unfolding value text_eq to_text to_number to_bool
entry_from_json double fs =
    let p = protocol_from_key (to_text (value (codes "protocol") fs)) in
    record {
      protocol = p;
      host = to_text (value (codes "host") fs);
      port = to_number (default_port_for p) (value (codes "port") fs);
      username = to_text (value (codes "username") fs);
      auth_method = auth_from (to_text (value (codes "authMethod") fs));
      private_key_path = to_text (value (codes "privateKeyPath") fs);
      ftps_mode = ftps_from (to_text (value (codes "ftpsMode") fs));
      use_home_directory = to_bool true (value (codes "useHomeDirectory") fs);
      starting_directory = to_text (value (codes "startingDirectory") fs);
      last_connected_at_ms = double (to_number 0 (value (codes "lastConnectedAt") fs));
    }

-- An entry with no host is skipped.
abbrev pub keep_entry :
    ConnectionHistoryEntry → List ConnectionHistoryEntry → List ConnectionHistoryEntry
keep_entry e rest = if is_empty e.host then rest else e ∷ rest

unfoldable pub load_entries : (ℕ → ℕ) → List JsonValue → List ConnectionHistoryEntry
unfolding entry_from_json
load_entries double [] = []
load_entries double (object fs ∷ vs) =
    keep_entry (entry_from_json double fs) (load_entries double vs)
load_entries double (_ ∷ vs) = load_entries double vs

-- loadFromFile: `none` is a file that could not be read, or text that is no document
unfoldable pub load_history : (ℕ → ℕ) → Option JsonValue → List ConnectionHistoryEntry
unfolding load_entries
load_history double (some (array vs)) = load_entries double (to_list vs)
load_history double _ = []

-- saveToFile: the document that is written
unfoldable pub save_history : List ConnectionHistoryEntry → JsonValue
save_history es = array (of_list (map entry_to_json es))

unfoldable pub same_server : ConnectionHistoryEntry → ConnectionHistoryEntry → Bool
unfolding protocol_eq text_eq
same_server a b =
    protocol_eq a.protocol b.protocol
    && (text_eq a.host b.host && (a.port == b.port && text_eq a.username b.username))

-- the loop that removes the entries of a server, from the last one on
unfoldable pub without_server :
    ConnectionHistoryEntry → List ConnectionHistoryEntry → List ConnectionHistoryEntry
unfolding same_server
without_server e [] = []
without_server e (x ∷ xs) =
    let rest = without_server e xs in if same_server x e then rest else x ∷ rest

-- what recordConnection saves of the entries that it has loaded
unfoldable pub recorded :
    ConnectionHistoryEntry → ℕ → List ConnectionHistoryEntry → List ConnectionHistoryEntry
unfolding without_server
recorded e max_entries es = take max_entries (e ∷ without_server e es)

-- recordConnection over the document
unfoldable pub record_connection :
    (ℕ → ℕ) → ConnectionHistoryEntry → ℕ → Option JsonValue → JsonValue
unfolding load_history recorded save_history
record_connection double e max_entries document =
    save_history (recorded e max_entries (load_history double document))
