-- ===== src/Backends/Entry.antt =====
-- backends/RemoteEntry.h and the EnumeratedItem of transfer/FolderEnumerator.h. A QDateTime is the
-- number of its millisecond, or `none` where it is invalid.
use zephyrftp.Base.{ℕ, Bool, Option}
use zephyrftp.Base.Text.{Text}

pub record RemoteEntry : Type 0 where
  pub name : Text
  pub is_dir : Bool
  pub is_symlink : Bool
  pub size : ℕ
  pub modified : Option ℕ
  pub permissions : Text

pub record EnumeratedItem : Type 0 where
  pub relative_path : Text
  pub is_dir : Bool
  pub size : ℕ
  pub modified : Option ℕ
