-- ===== src/Ftp/Addresses.antt =====
-- The address that openActiveDataChannel writes is the one that openDataChannel reads from a reply
-- in the same form, in backends/FtpBackend.cpp.
use Prim.Native.Nat.{bit_or}
use zephyrftp.Base.{
  ℕ, zero, suc, ◌+◌, ◌*◌, ◌/◌, ◌%◌, ◌^◌, ◌<◌, ◌≤◌, ◌≡◌, refl, ap, ◌∙◌, Bool, true, false, ◌&&◌,
  List, [], ◌∷◌, ◌++◌, Option, none, some, ◌==◌, leb, arith, All, ==_iff, if-elim, Option-cases,
  inl, inr, subst,
}
use zephyrftp.Base.Int.{ℤ, pos, negsuc}
use zephyrftp.Base.Text.{Text, show_ℕ}
use zephyrftp.Base.Split.{
  split, join, before, behind, has_char, before-append, behind-append, Free, split-join,
  has_char-join,
}
use zephyrftp.Base.Decimal.{is_digit, has_char-show_ℕ}
use zephyrftp.Ftp.Qt.{Strings, ReadsDecimals}
use zephyrftp.Ftp.Address.{
  in_byte, data_port, dotted, and_also, octets, address_of, address_in, pasv_address,
  address_numbers, show_all,
}

Free-show_all : (c : ℕ) (ns : List ℕ) → is_digit c ≡ false → Free c (show_all ns)
unfolding show_all
Free-show_all c [] h = tt
Free-show_all c (n ∷ ns) h = (has_char-show_ℕ n c h, Free-show_all c ns h)

-- A test of every byte from the k-th down.
each_byte : (ℕ → Bool) → ℕ → Bool
each_byte test zero = test zero
each_byte test (suc k) = each_byte test k && test (suc k)

each_byte-at :
    (test : ℕ → Bool) (k byte : ℕ) → each_byte test k ≡ true → byte ≤ k → test byte ≡ true
unfolding each_byte
each_byte-at test zero zero h l = h
each_byte-at test zero (suc byte) h l = absurd (omega arith)
each_byte-at test (suc k) byte h l = ground (arith, each_byte-at test k byte)

abbrev port_holds : ℕ → ℕ → Bool
port_holds high low = bit_or (high * 256) low == high * 256 + low

port_table : each_byte (λ high. each_byte (port_holds high) 255) 255 ≡ true
unfolding each_byte
port_table = refl

data_port_lem : (high low : ℕ) → high < 256 → low < 256 → data_port high low ≡ high * 256 + low
unfolding data_port
data_port_lem high low h l =
    let row = each_byte-at (λ k. each_byte (port_holds k) 255) 255 high port_table (omega arith) in
    let cell = each_byte-at (port_holds high) 255 low row (omega arith) in
    omega (arith, (==_iff (bit_or (high * 256) low) (high * 256 + low)).0 cell)

module _ (q : Strings) (r : ReadsDecimals q) where
  octets-show_all : (ns : List ℕ) → All (λ n. n < 256) ns → octets q (show_all ns) ≡ some ns
  unfolding octets show_all
  octets-show_all [] h = refl
  octets-show_all (n ∷ ns) h =
      rw (r.trimmed-show_ℕ n, r.to_int-show_ℕ n (omega arith), octets-show_all ns h.1) ground arith

  pasv_address_inside :
      (front inside back : Text)
      → has_char b'(' front ≡ false
      → has_char b')' inside ≡ false
      → pasv_address q (front ++ b'(' ∷ (inside ++ b')' ∷ back)) ≡ address_in q inside
  unfolding pasv_address
  pasv_address_inside front inside back f i =
      rw
        (
          behind-append b'(' front (inside ++ b')' ∷ back) f,
          pasv_address,
          before-append b')' inside back i,
        )
        refl

  address_in-show_all :
      (n : ℕ) (ns : List ℕ)
      → All (λ n. n < 256) (n ∷ ns)
      → address_in q (join (b',' ∷ []) (show_all (n ∷ ns))) ≡ address_of (some (n ∷ ns))
  unfolding address_in
  address_in-show_all n ns h =
      ap (λ parts. address_of (octets q parts)) (split_shown n ns)
      ∙ ap (address_of) (octets-show_all (n ∷ ns) h)
    where
      split_shown :
          (n : ℕ) (ns : List ℕ)
          → split b',' (join (b',' ∷ []) (show_all (n ∷ ns))) ≡ show_all (n ∷ ns)
      split_shown n ns =
          unfold show_all in
          split-join b',' (show_ℕ n) (show_all ns) (has_char-show_ℕ n b',' refl)
            (Free-show_all b',' ns refl)

  -- A reply to PASV that gives an address and a port as PORT writes them, in brackets and behind any
  -- text without an opening one, is read as that address and that port; what stands behind does not
  -- matter. Numbers in decimal are read as QString::toInt and trimmed document.
  pub pasv_address-address_numbers :
      (ip port : ℕ) (front back : Text)
      → port < 2 ^ 16
      → has_char b'(' front ≡ false
      → pasv_address q
          (front ++ b'(' ∷ (join (b',' ∷ []) (show_all (address_numbers ip port)) ++ b')' ∷ back))
        ≡ some (dotted (ip / 2 ^ 24 % 256) (ip / 2 ^ 16 % 256) (ip / 2 ^ 8 % 256) (ip % 256), port)
  unfolding address_numbers has_char
  pasv_address-address_numbers ip port front back p f =
      pasv_address_inside front (join (b',' ∷ []) (show_all (address_numbers ip port))) back f (
        has_char-join b')' (b',' ∷ []) (show_all (address_numbers ip port)) refl
          (Free-show_all b')' (address_numbers ip port) refl))
      ∙ address_in-show_all _ _ (omega arith)
      ∙ ap
          (λ k.
            some (dotted (ip / 2 ^ 24 % 256) (ip / 2 ^ 16 % 256) (ip / 2 ^ 8 % 256) (ip % 256), k))
          (data_port_lem (port / 2 ^ 8 % 256) (port % 256) (omega arith) (omega arith)
            ∙ omega arith)

-- An address of four bytes, and a port that two bytes give.
abbrev pub IsAddress : Text × ℕ → Type 0
IsAddress address =
    (a : ℕ) × (b : ℕ) × (c : ℕ) × (d : ℕ) × (e : ℕ) × (f : ℕ) × All (λ n. n < 256)
      (a ∷ b ∷ c ∷ d ∷ e ∷ f ∷ [])
    × (address ≡ (dotted a b c d, e * 256 + f))

module _ (q : Strings) where
  abbrev Bytes : Option (List ℕ) → Type 0
  Bytes none = Unit
  Bytes (some ns) = All (λ n. n < 256) ns

  and_also-Bytes :
      (o : Option ℤ) (ns : Option (List ℕ)) → Bytes ns → Bytes (and_also (in_byte o) ns)
  and_also-Bytes none ns h = tt
  and_also-Bytes (some (negsuc n)) ns h = tt
  and_also-Bytes (some (pos n)) none h =
      if-elim (λ m. Bytes (and_also m none)) (leb n 255) (some n) none (λ _. tt) (λ _. tt)
  and_also-Bytes (some (pos n)) (some ns) h =
      if-elim (λ m. Bytes (and_also m (some ns))) (leb n 255) (some n) none (λ l. (ground arith, h))
        (λ _. tt)

  octets-Bytes : (parts : List Text) → Bytes (octets q parts)
  unfolding octets
  octets-Bytes [] = tt
  octets-Bytes (part ∷ parts) =
      and_also-Bytes (q.to_int (q.trimmed part)) (octets q parts) (octets-Bytes parts)

  abbrev Checked : Option (Text × ℕ) → Type 0
  Checked none = Unit
  Checked (some address) = IsAddress address

  address_of-Checked : (o : Option (List ℕ)) → Bytes o → Checked (address_of o)
  address_of-Checked (some (a ∷ b ∷ c ∷ d ∷ e ∷ f ∷ [])) h = (
    a,
    b,
    c,
    d,
    e,
    f,
    h,
    ap (λ k. (dotted a b c d, k)) (data_port_lem e f (omega arith) (omega arith)),
  )
  address_of-Checked _ h = tt

  pasv_address-Checked : (text : Text) → Checked (pasv_address q text)
  unfolding pasv_address address_in
  pasv_address-Checked text = elim (Option-cases (behind b'(' text)) [
    | inl n ↦ rw (n, pasv_address) tt
    | inr (rest, e) ↦ elim (Option-cases (before b')' rest)) [
      | inl n ↦ rw (e, n, pasv_address) tt
      | inr (inside, i) ↦
          rw (e, i, pasv_address)
            (address_of-Checked (octets q (split b',' inside)) (octets-Bytes (split b',' inside)))
    ]
  ]

  -- Whatever a server answers to PASV: an address that is taken from it is of four numbers of 0 to
  -- 255, and its port is the one that two such numbers give, with nothing cut off.
  pub pasv_address-IsAddress :
      (text : Text) (address : Text × ℕ) → pasv_address q text ≡ some address → IsAddress address
  pasv_address-IsAddress text address e = subst Checked e (pasv_address-Checked text)
