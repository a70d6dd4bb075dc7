-- ===== src/NodeIdentity/Reserved.antt =====
-- internal/nodeidentity/public_network.go: the addresses that are not public, as blocks of a registry.
use aria.Prelude.{
  ℕ, Bool, true, false, List, [], ◌∷◌, ◌≡◌, refl, ◌&&◌, ◌||◌, not, ◌==◌, leb, ◌+◌, ◌*◌, ◌<◌,
  if◌then◌else◌, arith,
}
use aria.NodeIdentity.{Ipv4, is_public_ipv4}
use aria.Policy.Prefix.{Prefix, Addr, contains}
use aria.Policy.Conflict.{any}

-- an address as a number, and as the start of a block
abbrev pub number : Ipv4 → ℕ
number ip = ip.first * 16777216 + ip.second * 65536 + ip.third * 256 + ip.fourth

abbrev pub address : Ipv4 → Addr
address ip = record { is4 = true; value = number ip }

abbrev dotted : ℕ → ℕ → ℕ → ℕ → Prefix
dotted a b c bits = record { is4 = true; addr = a * 16777216 + b * 65536 + c * 256; bits = bits }

-- this network, private use, shared space, loopback, link local, protocol assignments, documentation, benchmarks,
-- and multicast with what is above it
abbrev pub reserved : List Prefix
reserved =
    dotted 0 0 0 8
    ∷ dotted 10 0 0 8
    ∷ dotted 100 64 0 10
    ∷ dotted 127 0 0 8
    ∷ dotted 169 254 0 16
    ∷ dotted 172 16 0 12
    ∷ dotted 192 168 0 16
    ∷ dotted 192 0 0 24
    ∷ dotted 192 0 2 24
    ∷ dotted 198 18 0 15
    ∷ dotted 198 51 100 24
    ∷ dotted 203 0 113 24
    ∷ dotted 224 0 0 3
    ∷ []

pub record IsBytes (ip : Ipv4) : Type 0 where
  pub first_byte : ip.first < 256
  pub second_byte : ip.second < 256
  pub third_byte : ip.third < 256
  pub fourth_byte : ip.fourth < 256

-- one test of the chain
step : (t u c d : Bool) → u ≡ t → c ≡ not d → (if t then false else c) ≡ not (if u then true else d)
step t u c d h k = rw (h, k) (both t d)
  where
    both : (t d : Bool) → (if t then false else not d) ≡ not (if t then true else d)
    both true d = refl
    both false d = refl

module _ (ip : Ipv4) (b : IsBytes ip) where
  test_24 :
      (x y z : ℕ)
      → x < 256
      → y < 256
      → z < 256
      → contains (dotted x y z 24) (address ip)
        ≡ (ip.first == x && (ip.second == y && ip.third == z))
  test_24 x y z h k l =
      let f = b.first_byte in
      let g = b.second_byte in let p = b.third_byte in let q = b.fourth_byte in ground arith

  test_16 :
      (x y : ℕ)
      → x < 256
      → y < 256
      → contains (dotted x y 0 16) (address ip) ≡ (ip.first == x && ip.second == y)
  test_16 x y h k =
      let f = b.first_byte in
      let g = b.second_byte in let p = b.third_byte in let q = b.fourth_byte in ground arith

  test_8 : (x : ℕ) → contains (dotted x 0 0 8) (address ip) ≡ (ip.first == x)
  test_8 x = let g = b.second_byte in let p = b.third_byte in let q = b.fourth_byte in ground arith

  test_shared :
      contains (dotted 100 64 0 10) (address ip)
      ≡ (ip.first == 100 && (leb 64 ip.second && leb ip.second 127))
  test_shared =
      let f = b.first_byte in
      let g = b.second_byte in let p = b.third_byte in let q = b.fourth_byte in ground arith

  test_private :
      contains (dotted 172 16 0 12) (address ip)
      ≡ (ip.first == 172 && (leb 16 ip.second && leb ip.second 31))
  test_private =
      let g = b.second_byte in let p = b.third_byte in let q = b.fourth_byte in ground arith

  test_benchmark :
      contains (dotted 198 18 0 15) (address ip)
      ≡ (ip.first == 198 && (ip.second == 18 || ip.second == 19))
  test_benchmark =
      let g = b.second_byte in let p = b.third_byte in let q = b.fourth_byte in ground arith

  test_multicast : contains (dotted 224 0 0 3) (address ip) ≡ leb 224 ip.first
  test_multicast =
      let f = b.first_byte in
      let g = b.second_byte in let p = b.third_byte in let q = b.fourth_byte in ground arith

  -- An address of four bytes is public exactly when it lies in none of the reserved blocks.
  pub is_public_ipv4_lem : is_public_ipv4 ip ≡ not (any (λ p. contains p (address ip)) reserved)
  unfolding is_public_ipv4
  is_public_ipv4_lem = step _ _ _ _ (test_8 0) (
      step _ _ _ _ (test_8 10) (
        step _ _ _ _ (test_shared) (
          step _ _ _ _ (test_8 127) (
            step _ _ _ _ (test_16 169 254 (omega arith) (omega arith)) (
              step _ _ _ _ (test_private) (
                step _ _ _ _ (test_16 192 168 (omega arith) (omega arith)) (
                  step _ _ _ _ (test_24 192 0 0 (omega arith) (omega arith) (omega arith)) (
                    step _ _ _ _ (test_24 192 0 2 (omega arith) (omega arith) (omega arith)) (
                      step _ _ _ _ (test_benchmark) (
                        step _ _ _ _ (test_24 198 51 100 (omega arith) (omega arith) (omega arith))
                          (step _ _ _ _
                            (test_24 203 0 113 (omega arith) (omega arith) (omega arith))
                            (step _ _ _ _ (test_multicast) (refl)))))))))))))
