-- ===== src/Queue/Store.antt =====
-- transfer/TransferQueueStore.h and .cpp: a persisted item as a JSON object, and back.
use zephyrftp.Base.{ℕ, ◌||◌, List, [], ◌∷◌, map, Option, some, if◌then◌else◌}
use zephyrftp.Base.Text.{Text, codes, text_eq, is_empty}
use zephyrftp.Backends.Protocol.{
  ConnectionDescriptor, protocol_to_key, protocol_from_key, is_unconnected,
}
use zephyrftp.Json.{
  JsonValue, JsonFields, number, string, array, object, end, field, value, to_text, to_number,
  to_object, to_list, of_list,
}
use zephyrftp.Queue.Item.{TransferDirection}

pub record PersistedTransferItem : Type 0 where
  pub file_name : Text
  pub source_path : Text
  pub dest_path : Text
  pub direction : TransferDirection
  pub bytes_done : ℕ
  pub bytes_total : ℕ
  pub source_connection : ConnectionDescriptor
  pub dest_connection : ConnectionDescriptor

unfoldable pub direction_to_key : TransferDirection → Text
direction_to_key TransferDirection.local_to_local = codes "localToLocal"
direction_to_key TransferDirection.local_to_remote = codes "localToRemote"
direction_to_key TransferDirection.remote_to_local = codes "remoteToLocal"
direction_to_key _ = codes "localToLocal"

unfoldable pub direction_from_key : Text → TransferDirection
unfolding text_eq
direction_from_key key =
    if text_eq key (codes "localToRemote")
    then TransferDirection.local_to_remote
    else if text_eq key (codes "remoteToLocal")
    then TransferDirection.remote_to_local
    else TransferDirection.local_to_local

unfoldable pub connection_to_json : ConnectionDescriptor → JsonFields
unfolding is_unconnected
connection_to_json d =
    if is_unconnected d
    then end
    else field (codes "savedSiteId") (string d.saved_site_id) (
        field (codes "protocol") (string (protocol_to_key d.protocol)) (
          field (codes "host") (string d.host) (
            field (codes "port") (number d.port)
              (field (codes "username") (string d.username) end))))

unfoldable pub connection_from_json : JsonFields → ConnectionDescriptor
unfolding value text_eq to_text to_number
connection_from_json fs = record {
  saved_site_id = to_text (value (codes "savedSiteId") fs);
  protocol = protocol_from_key (to_text (value (codes "protocol") fs));
  host = to_text (value (codes "host") fs);
  port = to_number 0 (value (codes "port") fs);
  username = to_text (value (codes "username") fs);
}

unfoldable pub item_to_json : PersistedTransferItem → JsonValue
item_to_json item = object (
    field (codes "fileName") (string item.file_name) (
      field (codes "sourcePath") (string item.source_path) (
        field (codes "destPath") (string item.dest_path) (
          field (codes "direction") (string (direction_to_key item.direction)) (
            field (codes "bytesDone") (number item.bytes_done) (
              field (codes "bytesTotal") (number item.bytes_total) (
                field (codes "sourceConnection")
                  (object (connection_to_json item.source_connection))
                  (field (codes "destConnection") (object (connection_to_json item.dest_connection))
                    end))))))))

-- `double` is what reading a number through a double makes of it: Qt's conversion.
unfoldable pub item_from_json : (ℕ → ℕ) → JsonFields → PersistedTransferItem
unfolding value text_eq to_text to_number to_object
item_from_json double fs = record {
  file_name = to_text (value (codes "fileName") fs);
  source_path = to_text (value (codes "sourcePath") fs);
  dest_path = to_text (value (codes "destPath") fs);
  direction = direction_from_key (to_text (value (codes "direction") fs));
  bytes_done = double (to_number 0 (value (codes "bytesDone") fs));
  bytes_total = double (to_number 0 (value (codes "bytesTotal") fs));
  source_connection = connection_from_json (to_object (value (codes "sourceConnection") fs));
  dest_connection = connection_from_json (to_object (value (codes "destConnection") fs));
}

-- An entry without a source or a destination is skipped.
unfoldable pub keep_item :
    PersistedTransferItem → List PersistedTransferItem → List PersistedTransferItem
keep_item item rest =
    if is_empty item.source_path || is_empty item.dest_path then rest else item ∷ rest

unfoldable pub load_values : (ℕ → ℕ) → List JsonValue → List PersistedTransferItem
unfolding keep_item
load_values double [] = []
load_values double (object fs ∷ vs) = keep_item (item_from_json double fs) (load_values double vs)
load_values double (_ ∷ vs) = load_values double vs

-- load: `none` is a file that could not be read, or text that is no document
unfoldable pub load : (ℕ → ℕ) → Option JsonValue → List PersistedTransferItem
unfolding load_values
load double (some (array vs)) = load_values double (to_list vs)
load double _ = []

-- save: the document that is written
unfoldable pub save : List PersistedTransferItem → JsonValue
save items = array (of_list (map item_to_json items))
