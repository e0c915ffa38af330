-- ===== src/Queue/Keys.antt =====
-- What a reservation key and a connection identity tell apart (destinationReservationKey and
-- moveEligible of transfer/TransferManager.cpp, connectionIdentity of the backends).
use zephyrftp.Base.{ℕ, ◌≡◌, refl, true, false, [], ◌∷◌, ◌++◌, arith}
use zephyrftp.Base.Text.{Text, text_eq_iff}
use zephyrftp.Paths.{has_char}
use zephyrftp.Backends.Identity.{Backend, connection_identity}
use zephyrftp.Queue.State.{TransferManager}
use zephyrftp.Queue.Lookup.{destination_reservation_key}
use zephyrftp.Queue.Enqueue.{move_eligible}

-- Two texts that are cut at their first occurrence of a character.
cut_same :
    (c : ℕ) (u v p q : Text)
    → has_char c u ≡ false
    → has_char c v ≡ false
    → u ++ (c ∷ p) ≡ v ++ (c ∷ q)
    → (u ≡ v) × (p ≡ q)
cut_same c [] [] p q a b e = (refl, ground arith)
cut_same c [] (y ∷ v) p q a b e = absurd (ground arith)
cut_same c (x ∷ u) [] p q a b e = absurd (ground arith)
cut_same c (x ∷ u) (y ∷ v) p q a b e =
    let (h, t) = cut_same c u v p q (ground arith) (ground arith) (ground arith) in
    (ground (arith, h), t)

-- Two destinations have the same reservation key only if they are the same path on the same server,
-- for identities without a line break.
pub destination_reservation_key_injective :
    (first second first_path second_path : Text)
    → has_char 10 first ≡ false
    → has_char 10 second ≡ false
    → destination_reservation_key first first_path ≡ destination_reservation_key second second_path
    → (first ≡ second) × (first_path ≡ second_path)
unfolding destination_reservation_key
destination_reservation_key_injective first second p q a b e = cut_same 10 first second p q a b e

-- The program's three kinds of backends.
abbrev pub kind_of : Backend → ℕ
kind_of (Backend.local) = 0
kind_of (Backend.sftp user host port) = 1
kind_of (Backend.ftp user host port) = 2

identity_kind :
    (a b : Backend) → connection_identity a ≡ connection_identity b → kind_of a ≡ kind_of b
unfolding connection_identity
identity_kind Backend.local Backend.local e = refl
identity_kind Backend.local (Backend.sftp user host port) e = absurd (ground arith)
identity_kind Backend.local (Backend.ftp user host port) e = absurd (ground arith)
identity_kind (Backend.sftp user host port) Backend.local e = absurd (ground arith)
identity_kind (Backend.sftp user host port) (Backend.sftp user' host' port') e = refl
identity_kind (Backend.sftp user host port) (Backend.ftp user' host' port') e =
    absurd (ground arith)
identity_kind (Backend.ftp user host port) Backend.local e = absurd (ground arith)
identity_kind (Backend.ftp user host port) (Backend.sftp user' host' port') e =
    absurd (ground arith)
identity_kind (Backend.ftp user host port) (Backend.ftp user' host' port') e = refl

-- A move is offered only between two panes whose backends are of the same class and have the same
-- identity: never between SFTP and FTP, nor between a server and the local file system.
pub move_eligible_same_kind :
    (s : TransferManager) (source dest : ℕ)
    → move_eligible s source dest ≡ true
    → (kind_of (s.backends (s.panes source).backend) ≡ kind_of (s.backends (s.panes dest).backend))
      × (connection_identity (s.backends (s.panes source).backend)
          ≡ connection_identity (s.backends (s.panes dest).backend))
unfolding move_eligible
move_eligible_same_kind s source dest h =
    let a = s.backends (s.panes source).backend in
    let b = s.backends (s.panes dest).backend in
    let e : connection_identity a ≡ connection_identity b =
      (text_eq_iff (connection_identity a) (connection_identity b)).0 (ground arith) in
    (identity_kind a b e, e)
