-- ===== src/Sites/Tests.antt =====
-- A history of three connections, and a file of sites in which two have the same id.
use zephyrftp.Base.{ℕ, ◌≡◌, ◌↔◌, refl, true, List, [], ◌∷◌, map, some, arith, take}
use zephyrftp.Base.Text.{Text, codes, text_eq}
use zephyrftp.Json.{JsonItems, nil, cons, to_list, array, value, to_text}
use zephyrftp.Backends.Protocol.{Protocol}
use zephyrftp.Sites.Requests.{SftpAuthMethod, implicit}
use zephyrftp.Sites.History.{same_server, ConnectionHistoryEntry, load_history, save_history}
use zephyrftp.Sites.Store.{
  SavedSite, site_to_json, site_from_json, read_sites, load_sites, save_sites, has_text,
}
use zephyrftp.Sites.Latest.{latest}
use zephyrftp.Sites.Recent.{SameServer, record_all, record_all-latest}
use zephyrftp.Sites.Stored.{as_kept, load_history-save_history}
use zephyrftp.Sites.Unique.{UniqueIds, load_sites-UniqueIds, load_sites-save_sites}

abbrev entry_for : Protocol → Text → ConnectionHistoryEntry
entry_for p host = record {
  protocol = p;
  host = host;
  port = 990;
  username = codes "ann";
  auth_method = SftpAuthMethod.password;
  private_key_path = [];
  ftps_mode = implicit;
  use_home_directory = true;
  starting_directory = [];
  last_connected_at_ms = 1700000000000;
}

abbrev three_connections : List ConnectionHistoryEntry
three_connections =
    entry_for Protocol.ftps_implicit (codes "a.org")
    ∷ (entry_for Protocol.sftp (codes "b.org")
        ∷ (entry_for Protocol.ftps_implicit (codes "a.org") ∷ []))

record_all-latest_example :
    (load_history (λ n. n) (record_all (λ n. n) 10 three_connections)
      ≡ map as_kept (take 10 (latest three_connections)))
    × ((same_server
            (entry_for Protocol.sftp (codes "a.org"))
            (entry_for Protocol.sftp (codes "b.org"))
          ≡ true)
        ↔ SameServer
            (entry_for Protocol.sftp (codes "a.org"))
            (entry_for Protocol.sftp (codes "b.org")))
record_all-latest_example =
    record_all-latest (λ n. n) (λ n h. refl) 10 three_connections
      (entry_for Protocol.sftp (codes "a.org")) (entry_for Protocol.sftp (codes "b.org"))
      ((refl, omega arith), ((refl, omega arith), ((refl, omega arith), tt)))

load_history-save_history_example :
    load_history (λ n. n) (some (save_history three_connections)) ≡ map as_kept three_connections
load_history-save_history_example =
    load_history-save_history (λ n. n) (λ n h. refl) three_connections
      ((refl, omega arith), ((refl, omega arith), ((refl, omega arith), tt)))

abbrev numbered : ℕ → Text
numbered i = b'#' ∷ (i ∷ [])

abbrev site_named : Text → SavedSite
site_named id = record {
  id = id;
  name = codes "site";
  group = [];
  protocol = Protocol.sftp;
  host = codes "example.org";
  port = 22;
  username = codes "ann";
  auth_method = SftpAuthMethod.public_key;
  private_key_path = codes "/home/ann/.ssh/id";
  use_home_directory = true;
  starting_directory = [];
  simultaneous_connections = 2;
}

abbrev same_ids : JsonItems
unfolding site_to_json
same_ids =
    cons (site_to_json (site_named (codes "a")))
      (cons (site_to_json (site_named (codes "a"))) (cons (site_to_json (site_named [])) nil))

numbered-injective : (i j : ℕ) → numbered i ≡ numbered j → i ≡ j
numbered-injective i j h = cc

load_sites-UniqueIds_example : UniqueIds (load_sites numbered (some (array same_ids)))
unfolding site_to_json read_sites to_list site_from_json value text_eq to_text has_text
load_sites-UniqueIds_example = load_sites-UniqueIds numbered numbered-injective same_ids (λ i. refl)

abbrev two_sites : List SavedSite
two_sites = site_named (codes "a") ∷ (site_named (codes "b") ∷ [])

load_sites-save_sites_example : load_sites numbered (some (save_sites two_sites)) ≡ two_sites
unfolding has_text text_eq
load_sites-save_sites_example =
    load_sites-save_sites numbered two_sites (refl, (refl, tt)) (refl, (refl, tt))
