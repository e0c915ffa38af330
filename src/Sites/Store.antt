-- ===== src/Sites/Store.antt =====
-- backends/SavedSite.h and .cpp: the sites of the site manager. QUuid::createUuid gives the texts of a
-- sequence, one after the other.
use zephyrftp.Base.{ℕ, suc, Bool, true, false, ◌||◌, List, [], ◌∷◌, map, Option, some}
use zephyrftp.Base.Text.{Text, codes, text_eq, is_empty}
use zephyrftp.Json.{
  JsonValue, JsonFields, bool, number, string, array, object, end, field, value, to_text, to_number,
  to_bool, to_list, of_list,
}
use zephyrftp.Backends.Protocol.{Protocol, default_port_for, protocol_to_key, protocol_from_key}
use zephyrftp.Sites.Requests.{
  SftpAuthMethod, protocol_to_ftps_mode, ConnectionRequest, over_sftp, over_ftp,
}
use zephyrftp.Sites.History.{auth_key, auth_from}

pub record SavedSite : Type 0 where
  pub id : Text
  pub name : Text
  pub group : Text
  pub protocol : Protocol
  pub host : Text
  pub port : ℕ
  pub username : Text
  pub auth_method : SftpAuthMethod
  pub private_key_path : Text
  pub use_home_directory : Bool
  pub starting_directory : Text
  pub simultaneous_connections : ℕ

abbrev pub site_request_for : Protocol → SavedSite → ConnectionRequest
site_request_for Protocol.sftp s = over_sftp (record {
  host = s.host;
  port = s.port;
  username = s.username;
  auth_method = s.auth_method;
  private_key_path = s.private_key_path;
  use_home_directory = s.use_home_directory;
  starting_directory = s.starting_directory;
  simultaneous_connections = s.simultaneous_connections;
})
site_request_for p s = over_ftp p (record {
  host = s.host;
  port = s.port;
  username = s.username;
  ftps_mode = protocol_to_ftps_mode p;
  use_home_directory = s.use_home_directory;
  starting_directory = s.starting_directory;
  simultaneous_connections = s.simultaneous_connections;
})

-- SavedSite::toConnectionRequest
unfoldable pub site_connection_request : SavedSite → ConnectionRequest
site_connection_request s = site_request_for s.protocol s

unfoldable pub site_to_json : SavedSite → JsonValue
site_to_json s = object (
    field (codes "id") (string s.id) (
      field (codes "name") (string s.name) (
        field (codes "group") (string s.group) (
          field (codes "host") (string s.host) (
            field (codes "port") (number s.port) (
              field (codes "username") (string s.username) (
                field (codes "protocol") (string (protocol_to_key s.protocol)) (
                  field (codes "authMethod") (string (auth_key s.auth_method)) (
                    field (codes "privateKeyPath") (string s.private_key_path) (
                      field (codes "useHomeDirectory") (bool s.use_home_directory) (
                        field (codes "startingDirectory") (string s.starting_directory) (
                          field (codes "simultaneousConnections")
                            (number s.simultaneous_connections) end))))))))))))

unfoldable pub site_from_json : JsonFields → SavedSite
unfolding value text_eq to_text to_number to_bool
site_from_json fs =
    let p = protocol_from_key (to_text (value (codes "protocol") fs)) in
    record {
      id = to_text (value (codes "id") fs);
      name = to_text (value (codes "name") fs);
      group = to_text (value (codes "group") fs);
      protocol = p;
      host = to_text (value (codes "host") fs);
      port = to_number (default_port_for p) (value (codes "port") fs);
      username = to_text (value (codes "username") fs);
      auth_method = auth_from (to_text (value (codes "authMethod") fs));
      private_key_path = to_text (value (codes "privateKeyPath") fs);
      use_home_directory = to_bool true (value (codes "useHomeDirectory") fs);
      starting_directory = to_text (value (codes "startingDirectory") fs);
      simultaneous_connections = to_number 1 (value (codes "simultaneousConnections") fs);
    }

-- The objects of the document as sites; everything else is skipped.
unfoldable pub read_sites : List JsonValue → List SavedSite
unfolding site_from_json
read_sites [] = []
read_sites (object fs ∷ vs) = site_from_json fs ∷ read_sites vs
read_sites (_ ∷ vs) = read_sites vs

abbrev pub with_id : Text → SavedSite → SavedSite
with_id id s = record s { id = id }

-- QSet::contains
unfoldable pub has_text : Text → List Text → Bool
has_text t [] = false
has_text t (s ∷ ss) = text_eq s t || has_text t ss

module _ (uuids : ℕ → Text) where
  -- A site without an id is given one; the count is of the texts that were used.
  unfoldable pub backfilled : ℕ → List SavedSite → List SavedSite
  backfilled k [] = []
  backfilled k (s ∷ ss) = elim (is_empty s.id) [
    | true ↦ with_id (uuids k) s ∷ backfilled (suc k) ss
    | false ↦ s ∷ backfilled k ss
  ]

  unfoldable pub used : ℕ → List SavedSite → ℕ
  used k [] = k
  used k (s ∷ ss) = elim (is_empty s.id) [ true ↦ used (suc k) ss | false ↦ used k ss ]

  -- The first site with an id keeps it; each later one is given another.
  unfoldable pub deduplicated : List Text → ℕ → List SavedSite → List SavedSite
  deduplicated seen k [] = []
  deduplicated seen k (s ∷ ss) = elim (has_text s.id seen) [
    | true ↦ with_id (uuids k) s ∷ deduplicated (uuids k ∷ seen) (suc k) ss
    | false ↦ s ∷ deduplicated (s.id ∷ seen) k ss
  ]

  abbrev pub identified : List SavedSite → List SavedSite
  identified ss = deduplicated [] (used 0 ss) (backfilled 0 ss)

  -- loadFromFile: `none` is a file that could not be read, or text that is no document
  unfoldable pub load_sites : Option JsonValue → List SavedSite
  unfolding read_sites backfilled used deduplicated
  load_sites (some (array vs)) = identified (read_sites (to_list vs))
  load_sites _ = []

-- saveToFile: the document that is written
unfoldable pub save_sites : List SavedSite → JsonValue
save_sites ss = array (of_list (map site_to_json ss))
