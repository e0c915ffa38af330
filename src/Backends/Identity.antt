-- ===== src/Backends/Identity.antt =====
-- connectionIdentity() and isLocalFilesystem() of the three backends.
use zephyrftp.Base.{ℕ, Bool, true, false, ◌∷◌, ◌++◌}
use zephyrftp.Base.Text.{Text, codes, show_ℕ}

-- A backend object, as its class and the credentials that it was built with.
pub data Backend : Type 0 where
  local : Backend
  sftp : Text → Text → ℕ → Backend
  ftp : Text → Text → ℕ → Backend

unfoldable pub is_local_filesystem : Backend → Bool
is_local_filesystem Backend.local = true
is_local_filesystem (Backend.sftp user host port) = false
is_local_filesystem (Backend.ftp user host port) = false

-- user, host and port behind the scheme, as `%1@%2:%3`
address : Text → Text → ℕ → Text
address user host port = user ++ (b'@' ∷ (host ++ (b':' ∷ show_ℕ port)))

unfoldable pub connection_identity : Backend → Text
unfolding address
connection_identity Backend.local = codes "local"
connection_identity (Backend.sftp user host port) = codes "sftp://" ++ address user host port
connection_identity (Backend.ftp user host port) = codes "ftp://" ++ address user host port
