-- ===== src/Safety/Address/Blocks.antt =====
-- Blocks of IPv4 addresses, as prefixes of the 32-bit address, and the test of octets that the
-- worker makes in their place.
use price_scout.Base.{
  ℕ, ◌+◌, ◌*◌, ◌/◌, ◌^◌, ◌<◌, Bool, true, false, not, ◌&&◌, ◌||◌, ◌≡◌, refl, ◌∙◌,
}
use price_scout.Base.{List, [], ◌∷◌, arith, ◌==◌, leb, any, Bool-cases, inl, inr}

-- `a.b.c.d` as a number.
abbrev pub address32 : ℕ → ℕ → ℕ → ℕ → ℕ
address32 a b c d = a * 2 ^ 24 + b * 2 ^ 16 + c * 2 ^ 8 + d

-- A block: its first address, and the number of addresses that share its prefix.
abbrev pub in_block : ℕ → ℕ × ℕ → Bool
in_block address (first, size) = address / size == first / size

-- 0/8, 10/8, 127/8, 169.254/16, 172.16/12, 192.168/16, 192.0.0/24, 192.0.2/24, 198.18/15,
-- 198.51.100/24, 203.0.113/24, 100.64/10, and multicast with all above, 224/4 and 240/4.
abbrev pub blocks : List (ℕ × ℕ)
blocks =
    (address32 0 0 0 0, 2 ^ 24)
    ∷ (address32 10 0 0 0, 2 ^ 24)
    ∷ (address32 127 0 0 0, 2 ^ 24)
    ∷ (address32 169 254 0 0, 2 ^ 16)
    ∷ (address32 172 16 0 0, 2 ^ 20)
    ∷ (address32 192 168 0 0, 2 ^ 16)
    ∷ (address32 192 0 0 0, 2 ^ 8)
    ∷ (address32 192 0 2 0, 2 ^ 8)
    ∷ (address32 198 18 0 0, 2 ^ 17)
    ∷ (address32 198 51 100 0, 2 ^ 8)
    ∷ (address32 203 0 113 0, 2 ^ 8)
    ∷ (address32 100 64 0 0, 2 ^ 22)
    ∷ (address32 224 0 0 0, 2 ^ 28)
    ∷ (address32 240 0 0 0, 2 ^ 28)
    ∷ []

-- 192.88.99/24, the block of relays between IPv6 and IPv4.
abbrev pub relays : ℕ × ℕ
relays = (address32 192 88 99 0, 2 ^ 8)

-- The IPv4 addresses that the control plane's validation of targets denies, by `unsafeIP` of
-- internal/httpapi/validation.go: unspecified, private, loopback, link-local and multicast
-- addresses, and its list of prefixes.
abbrev pub is_denied : ℕ → ℕ → ℕ → ℕ → Bool
is_denied a b c d = any (in_block (address32 a b c d)) (relays ∷ blocks)

abbrev pub is_reserved : ℕ → ℕ → ℕ → ℕ → Bool
is_reserved a b c d = any (in_block (address32 a b c d)) blocks

-- The program's test on octets.
abbrev pub octets_test : ℕ → ℕ → ℕ → Bool
octets_test a b c =
    a == 0
    || a == 10
    || a == 127
    || (a == 169 && b == 254)
    || (a == 172 && leb 16 b && leb b 31)
    || (a == 192 && b == 168)
    || (a == 192 && b == 0 && (c == 0 || c == 2))
    || (a == 198 && (b == 18 || b == 19))
    || (a == 198 && b == 51 && c == 100)
    || (a == 203 && b == 0 && c == 113)
    || (a == 100 && leb 64 b && leb b 127)
    || leb 224 a

module _ (a b c d : ℕ) (a_byte : a < 256) (b_byte : b < 256) (c_byte : c < 256)
    (d_byte : d < 256) where
  abbrev here : ℕ × ℕ → Bool
  here = in_block (address32 a b c d)

  block_0_0_0_0 : here (address32 0 0 0 0, 2 ^ 24) ≡ (a == 0)
  block_0_0_0_0 = ground arith

  block_10_0_0_0 : here (address32 10 0 0 0, 2 ^ 24) ≡ (a == 10)
  block_10_0_0_0 = ground arith

  block_127_0_0_0 : here (address32 127 0 0 0, 2 ^ 24) ≡ (a == 127)
  block_127_0_0_0 = ground arith

  block_169_254_0_0 : here (address32 169 254 0 0, 2 ^ 16) ≡ (a == 169 && b == 254)
  block_169_254_0_0 = ground arith

  block_172_16_0_0 : here (address32 172 16 0 0, 2 ^ 20) ≡ (a == 172 && (leb 16 b && leb b 31))
  block_172_16_0_0 = ground arith

  block_192_168_0_0 : here (address32 192 168 0 0, 2 ^ 16) ≡ (a == 192 && b == 168)
  block_192_168_0_0 = ground arith

  block_192_0_0_0 : here (address32 192 0 0 0, 2 ^ 8) ≡ (a == 192 && (b == 0 && c == 0))
  block_192_0_0_0 = ground arith

  block_192_0_2_0 : here (address32 192 0 2 0, 2 ^ 8) ≡ (a == 192 && (b == 0 && c == 2))
  block_192_0_2_0 = ground arith

  block_198_18_0_0 : here (address32 198 18 0 0, 2 ^ 17) ≡ (a == 198 && (b == 18 || b == 19))
  block_198_18_0_0 = ground arith

  block_198_51_100_0 : here (address32 198 51 100 0, 2 ^ 8) ≡ (a == 198 && (b == 51 && c == 100))
  block_198_51_100_0 = ground arith

  block_203_0_113_0 : here (address32 203 0 113 0, 2 ^ 8) ≡ (a == 203 && (b == 0 && c == 113))
  block_203_0_113_0 = ground arith

  block_100_64_0_0 : here (address32 100 64 0 0, 2 ^ 22) ≡ (a == 100 && (leb 64 b && leb b 127))
  block_100_64_0_0 = ground arith

  block_224_0_0_0 : here (address32 224 0 0 0, 2 ^ 28) ≡ (leb 224 a && leb a 239)
  block_224_0_0_0 = ground arith

  block_240_0_0_0 : here (address32 240 0 0 0, 2 ^ 28) ≡ (leb 240 a)
  block_240_0_0_0 = ground arith

  pub is_reserved-octets_test : is_reserved a b c d ≡ octets_test a b c
  is_reserved-octets_test =
      simp
        (
          block_0_0_0_0, block_10_0_0_0, block_127_0_0_0, block_169_254_0_0, block_172_16_0_0,
          block_192_168_0_0, block_192_0_0_0, block_192_0_2_0, block_198_18_0_0, block_198_51_100_0,
          block_203_0_113_0, block_100_64_0_0, block_224_0_0_0, block_240_0_0_0,
        )
        (ground arith)

  block_192_88_99_0 : here relays ≡ (a == 192 && (b == 88 && c == 99))
  block_192_88_99_0 = ground arith

  relays_free : here relays ≡ true → octets_test a b c ≡ false
  relays_free h =
      let e : (a == 192 && (b == 88 && c == 99)) ≡ true = rw block_192_88_99_0 at h in ground arith

  -- The blocks without the relays.
  pub reserved-denied : is_reserved a b c d ≡ (is_denied a b c d && not (here relays))
  reserved-denied = elim (Bool-cases (here relays)) [
    | inl e ↦ rw e (is_reserved-octets_test ∙ relays_free e)
    | inr e ↦ rw e (and_true (is_reserved a b c d))
  ]
    where
      and_true : (b : Bool) → b ≡ (b && true)
      and_true true = refl
      and_true false = refl
