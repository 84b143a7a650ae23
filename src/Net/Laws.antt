-- ===== src/Net/Laws.antt =====
-- Laws of addresses and networks.
use urnetwork_client.Base.{
  ℕ, ◌<◌, ◌≡◌, refl, ◌↔◌, Bool, true, ◌&&◌, some, [], ◌∷◌, arith, Bytes, All, bit_and, ◌==◌, ==_iff,
}
use urnetwork_client.Net.{ipv4, to4, full_mask, same_under}

-- An IPv4 address in 16 bytes is shortened to its four.
pub to4-ipv4 : (a b c d : ℕ) → to4 (ipv4 a b c d) ≡ some (a ∷ b ∷ c ∷ d ∷ [])
unfolding to4
to4-ipv4 a b c d = refl

-- A test holds of the numbers under a bound, by running it.
holds_under : (ℕ → Bool) → ℕ → Bool
holds_under test ℕ.zero = true
holds_under test (ℕ.suc bound) = holds_under test bound && test bound

holds_under_elim :
    (test : ℕ → Bool) (v bound : ℕ) → v < bound → holds_under test bound ≡ true → test v ≡ true
unfolding holds_under
holds_under_elim test v ℕ.zero l h = absurd (omega arith)
holds_under_elim test v (ℕ.suc bound) l h = ground (arith, holds_under_elim test v bound)

full_byte_table : holds_under (λ x. bit_and x 255 == x) 256 ≡ true
unfolding holds_under
full_byte_table = refl

-- The mask 255 keeps a byte, and the mask 0 none of it.
pub bit_and_full : (x : ℕ) → x < 256 → bit_and x 255 ≡ x
bit_and_full x h = (==_iff _ x).0 (holds_under_elim _ x 256 h full_byte_table)

empty_byte_table : holds_under (λ x. bit_and x 0 == 0) 256 ≡ true
unfolding holds_under
empty_byte_table = refl

pub bit_and_empty : (x : ℕ) → x < 256 → bit_and x 0 ≡ 0
bit_and_empty x h = (==_iff _ 0).0 (holds_under_elim _ x 256 h empty_byte_table)

-- Under a full mask only the address itself is in the network.
pub same_under_full :
    (a b c d w x y z : ℕ)
    → All (λ v. v < 256) (a ∷ b ∷ c ∷ d ∷ [])
    → All (λ v. v < 256) (w ∷ x ∷ y ∷ z ∷ [])
    → (same_under (a ∷ b ∷ c ∷ d ∷ []) (full_mask 4) (w ∷ x ∷ y ∷ z ∷ []) ≡ true)
      ↔ (◌≡◌ {A = Bytes} (a ∷ b ∷ c ∷ d ∷ []) (w ∷ x ∷ y ∷ z ∷ []))
unfolding same_under
same_under_full a b c d w x y z h k = ground (
  arith,
  bit_and_full a,
  bit_and_full b,
  bit_and_full c,
  bit_and_full d,
  bit_and_full w,
  bit_and_full x,
  bit_and_full y,
  bit_and_full z,
)
