-- ===== src/Safety/Address/Dotted.antt =====
-- `isPrivateAddress` on the decimal notation of an IPv4 address.
use price_scout.Base.{ℕ, ◌+◌, ◌*◌, ◌/◌, ◌%◌, ◌^◌, ◌≤◌, ◌<◌, false, ◌&&◌, not, ◌≡◌, refl, sym, ◌∙◌}
use price_scout.Base.{inl, inr, none, some, [], ◌∷◌, ◌++◌, map, arith, append_assoc}
use price_scout.Base.{ltb, leb, ◌==◌, if◌then◌else◌, All, All-append, append-nil}
use price_scout.Base.Text.{Text, codes, text_eq, starts_with, split, split_from, to_lower}
use price_scout.Base.Unicode.{Unicode, IsAscii}
use price_scout.Base.Numbers.{Numbers, decimal}
use price_scout.Regex.Members.{In}
use price_scout.Safety.Address.{
  special_text, mapped, reserved_octets, private_octets, is_private_address,
}
use price_scout.Safety.Address.Blocks.{
  address32, in_block, relays, is_denied, octets_test, is_reserved-octets_test, reserved-denied,
}

-- The decimal numeral of a byte.
abbrev pub byte : ℕ → Text
byte n =
    if ltb n 10
    then (48 + n) ∷ []
    else if ltb n 100
    then (48 + n / 10) ∷ (48 + n % 10) ∷ []
    else (48 + n / 100) ∷ (48 + n / 10 % 10) ∷ (48 + n % 10) ∷ []

abbrev pub dotted : ℕ → ℕ → ℕ → ℕ → Text
dotted a b c d = byte a ++ (b'.' ∷ (byte b ++ (b'.' ∷ (byte c ++ (b'.' ∷ byte d)))))

decimal-byte : (n : ℕ) → n < 256 → decimal (byte n) ≡ some (100 * n)
unfolding decimal
decimal-byte n h = ground arith

abbrev IsDigit : ℕ → Type 0
IsDigit c = (48 ≤ c) × (c ≤ 57)

abbrev IsPlain : ℕ → Type 0
IsPlain c = (46 ≤ c) × (c ≤ 57)

byte-digits : (n : ℕ) → n < 256 → All IsDigit (byte n)
byte-digits n h = ground arith

IsPlain-of_digits : (s : Text) → All IsDigit s → All IsPlain s
IsPlain-of_digits [] h = tt
IsPlain-of_digits (c ∷ s) h = (omega arith, IsPlain-of_digits s h.1)

dotted-IsPlain :
    (a b c d : ℕ) → a < 256 → b < 256 → c < 256 → d < 256 → All IsPlain (dotted a b c d)
dotted-IsPlain a b c d ha hb hc hd =
    let part = λ (n : ℕ) (h : n < 256). IsPlain-of_digits (byte n) (byte-digits n h) in
    All-append IsPlain (byte a) _ (part a ha) (
      omega arith,
      All-append IsPlain (byte b) _ (part b hb)
          (omega arith, All-append IsPlain (byte c) _ (part c hc) (omega arith, part d hd)),
    )

-- A plain text has none of the letters and colons of the special texts.
module _ (letter : ℕ) (foreign : 57 < letter) where
  starts_with_foreign : (s t : Text) → All IsPlain s → In letter t → starts_with s t ≡ false
  unfolding starts_with
  starts_with_foreign [] (b ∷ t) h i = refl
  starts_with_foreign s [] h i = absurd i
  starts_with_foreign (c ∷ s) (b ∷ t) h (inl e) = ground arith
  starts_with_foreign (c ∷ s) (b ∷ t) h (inr i) = ground (arith, starts_with_foreign s t h.1 i)

  text_eq_foreign : (s t : Text) → All IsPlain s → In letter t → text_eq s t ≡ false
  unfolding text_eq
  text_eq_foreign [] (b ∷ t) h i = refl
  text_eq_foreign s [] h i = absurd i
  text_eq_foreign (c ∷ s) (b ∷ t) h (inl e) = ground arith
  text_eq_foreign (c ∷ s) (b ∷ t) h (inr i) = ground (arith, text_eq_foreign s t h.1 i)

special_text_plain : (s : Text) → All IsPlain s → special_text s ≡ false
unfolding special_text
special_text_plain s h = simp (
  text_eq_foreign b':' (omega arith) s (codes "::1") h (inl refl),
  text_eq_foreign b':' (omega arith) s (codes "::") h (inl refl),
  starts_with_foreign b'f' (omega arith) s (codes "fe80:") h (inl refl),
  starts_with_foreign b'f' (omega arith) s (codes "fc") h (inl refl),
  starts_with_foreign b'f' (omega arith) s (codes "fd") h (inl refl),
  starts_with_foreign b'f' (omega arith) s (codes "ff") h (inl refl),
  text_eq_foreign b':' (omega arith) s (codes "2001:db8::") h (ground arith),
  starts_with_foreign b':' (omega arith) s (codes "2001:db8:") h (ground arith),
)

mapped_plain : (s : Text) → All IsPlain s → mapped s ≡ none
unfolding mapped text_eq
mapped_plain [] h = refl
mapped_plain (c ∷ s) h = ground arith

split_from-last : (cur s : Text) → All IsDigit s → split_from b'.' cur s ≡ (cur ++ s) ∷ []
unfolding split_from
split_from-last cur [] h = rw append-nil
split_from-last cur (c ∷ s) h =
    ground (arith, split_from-last (cur ++ c ∷ []) s h.1, append_assoc cur (c ∷ []) s)

split_from-part :
    (cur s t : Text)
    → All IsDigit s
    → split_from b'.' cur (s ++ (b'.' ∷ t)) ≡ (cur ++ s) ∷ split_from b'.' [] t
unfolding split_from
split_from-part cur [] t h = rw append-nil
split_from-part cur (c ∷ s) t h =
    ground (arith, split_from-part (cur ++ c ∷ []) s t h.1, append_assoc cur (c ∷ []) s)

module _ (u : Unicode) where
  lower_plain : (s : Text) → All IsPlain s → u.lower s ≡ s
  lower_plain s h = u.lower_ascii s (plain-IsAscii s h) ∙ map_lower s h
    where
      plain-IsAscii : (t : Text) → All IsPlain t → IsAscii t
      plain-IsAscii [] k = tt
      plain-IsAscii (c ∷ t) k = (omega arith, plain-IsAscii t k.1)

      map_lower : (t : Text) → All IsPlain t → map to_lower t ≡ t
      map_lower [] k = refl
      map_lower (c ∷ t) k = ground (arith, map_lower t k.1)

-- What the comparisons of the program say of the number of a byte's numeral.
module _ (n : Numbers) (k : ℕ) (k_byte : k < 256) where
  open n use {number, is_nan, eq_nat, le_nat, ge_nat}

  small : 100 * k < 2 ^ 50
  small = omega arith

  nan_byte : is_nan (number (byte k)) ≡ false
  nan_byte = n.nan_decimal (byte k) (100 * k) (decimal-byte k k_byte) small

  eq_byte : (m : ℕ) → eq_nat (number (byte k)) m ≡ (k == m)
  eq_byte m = n.eq_decimal (byte k) (100 * k) (decimal-byte k k_byte) small m ∙ ground arith

  le_byte : (m : ℕ) → le_nat (number (byte k)) m ≡ leb k m
  le_byte m = n.le_decimal (byte k) (100 * k) (decimal-byte k k_byte) small m ∙ ground arith

  ge_byte : (m : ℕ) → ge_nat (number (byte k)) m ≡ leb m k
  ge_byte m = n.ge_decimal (byte k) (100 * k) (decimal-byte k k_byte) small m ∙ ground arith

module _ (n : Numbers) (a b c d : ℕ) where
  open n use {number}

  private_octets-bytes :
      a < 256
      → b < 256
      → c < 256
      → d < 256
      → private_octets n (map number (byte a ∷ byte b ∷ byte c ∷ byte d ∷ [])) ≡ octets_test a b c
  unfolding private_octets reserved_octets
  private_octets-bytes ha hb hc hd = simp (
    nan_byte n a ha,
    nan_byte n b hb,
    nan_byte n c hc,
    nan_byte n d hd,
    eq_byte n a ha,
    eq_byte n b hb,
    eq_byte n c hc,
    le_byte n b hb,
    ge_byte n a ha,
    ge_byte n b hb,
  )

  split-dotted :
      a < 256
      → b < 256
      → c < 256
      → d < 256
      → split b'.' (dotted a b c d) ≡ byte a ∷ byte b ∷ byte c ∷ byte d ∷ []
  unfolding split
  split-dotted ha hb hc hd = simp (
    split_from-part [] (byte a) _ (byte-digits a ha),
    split_from-part [] (byte b) _ (byte-digits b hb),
    split_from-part [] (byte c) _ (byte-digits c hc),
    split_from-last [] (byte d) (byte-digits d hd),
  )

  -- On the decimal notation of an IPv4 address, `isPrivateAddress` holds exactly of the addresses
  -- that the control plane's `unsafeIP` denies too, except for the block 192.88.99/24, which the
  -- control plane denies and the worker takes as public.
  pub is_private_address-dotted :
      (u : Unicode)
      → a < 256
      → b < 256
      → c < 256
      → d < 256
      → is_private_address n u (dotted a b c d)
        ≡ (is_denied a b c d && not (in_block (address32 a b c d) relays))
  unfolding is_private_address
  is_private_address-dotted u ha hb hc hd =
      let plain = dotted-IsPlain a b c d ha hb hc hd in
      (simp (
        lower_plain u (dotted a b c d) plain,
        special_text_plain (dotted a b c d) plain,
        mapped_plain (dotted a b c d) plain,
        split-dotted ha hb hc hd,
        private_octets-bytes ha hb hc hd,
      ))
      ∙ sym (is_reserved-octets_test a b c d ha hb hc hd)
      ∙ reserved-denied a b c d ha hb hc hd
