-- ===== src/Ftp/Address.antt =====
-- The addresses of data connections in backends/FtpBackend.cpp: the answer to PASV that
-- openDataChannel reads, and the PORT command that openActiveDataChannel writes.
use Prim.Native.Nat.{bit_or}
use zephyrftp.Base.{
  ℕ, ◌*◌, ◌/◌, ◌%◌, ◌^◌, List, [], ◌∷◌, ◌++◌, Option, none, some, leb, if◌then◌else◌,
}
use zephyrftp.Base.Int.{ℤ, pos, negsuc}
use zephyrftp.Base.Text.{Text, codes, show_ℕ}
use zephyrftp.Base.Split.{split, join, before, behind}
use zephyrftp.Ftp.Qt.{Strings}

-- a byte, of 0 to 255
abbrev pub in_byte : Option ℤ → Option ℕ
in_byte none = none
in_byte (some (negsuc n)) = none
in_byte (some (pos n)) = if leb n 255 then some n else none

-- static_cast<quint16>((octets[4] << 8) | octets[5])
unfoldable pub data_port : ℕ → ℕ → ℕ
data_port high low = bit_or (high * 256) low % 2 ^ 16

unfoldable pub dotted : ℕ → ℕ → ℕ → ℕ → Text
unfolding join
dotted a b c d = join (b'.' ∷ []) (show_ℕ a ∷ (show_ℕ b ∷ (show_ℕ c ∷ (show_ℕ d ∷ []))))

abbrev pub and_also : Option ℕ → Option (List ℕ) → Option (List ℕ)
and_also none ns = none
and_also (some n) none = none
and_also (some n) (some ns) = some (n ∷ ns)

-- the six numbers: host and port
abbrev pub address_of : Option (List ℕ) → Option (Text × ℕ)
address_of (some (a ∷ b ∷ c ∷ d ∷ e ∷ f ∷ [])) = some (dotted a b c d, data_port e f)
address_of _ = none

module _ (q : Strings) where
  unfoldable pub octets : List Text → Option (List ℕ)
  octets [] = some []
  octets (part ∷ parts) = and_also (in_byte (q.to_int (q.trimmed part))) (octets parts)

  unfoldable pub address_in : Text → Option (Text × ℕ)
  unfolding octets split dotted data_port
  address_in inside = address_of (octets (split b',' inside))

  -- What the text of a reply with code 227 tells; `none` is an error.
  unfoldable pub pasv_address : Text → Option (Text × ℕ)
  unfolding address_in before behind
  pasv_address text = elim (behind b'(' text) [
    | none ↦ none
    | some rest ↦ elim (before b')' rest) [ none ↦ none | some inside ↦ address_in inside ]
  ]

-- The six numbers of an IPv4 address and a port.
unfoldable pub address_numbers : ℕ → ℕ → List ℕ
address_numbers ip port =
    ip / 2 ^ 24 % 256
    ∷ (ip / 2 ^ 16 % 256
        ∷ (ip / 2 ^ 8 % 256 ∷ (ip % 256 ∷ (port / 2 ^ 8 % 256 ∷ (port % 256 ∷ [])))))

unfoldable pub show_all : List ℕ → List Text
show_all [] = []
show_all (n ∷ ns) = show_ℕ n ∷ show_all ns

unfoldable pub port_command : ℕ → ℕ → Text
unfolding join address_numbers show_all
port_command ip port = codes "PORT " ++ join (b',' ∷ []) (show_all (address_numbers ip port))
