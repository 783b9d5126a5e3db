-- ===== src/Names/Ip/Octets.antt =====
-- IP name constraints as they stand in a certificate: an address and a netmask.
use mathlib.Core.Option.{some-injective}
use cryptography.Prelude.{
  ℕ, zero, suc, ◌+◌, ◌-◌, ◌/◌, ◌^◌, ◌≡◌, ◌↔◌, inl, inr, true, some, List, [], ◌∷◌, arith, ◌==◌,
  ==_iff, length, take, drop, All, Bool-cases, Option-cases,
}
use cryptography.Words.Bytes.{IsByte}
use cryptography.Names.Ip.{
  IpAddress, v4, v6, from_bytes, as_prefix, mask, IpConstraint, split_at, constraint_from_bytes,
  constraint_matches,
}
use cryptography.Names.Ip.Prefix.{
  IsAddress, SameFamily, network, value, width, matches_iff, as_prefix_sound,
}

module _ {ℓ} {A : Type ℓ} (P : A → Type 0) where
  take-All : (k : ℕ) (xs : List A) → All P xs → All P (take k xs)
  take-All zero xs h = tt
  take-All (suc k) [] h = tt
  take-All (suc k) (x ∷ xs) (p, h) = (p, take-All k xs h)

  drop-All : (k : ℕ) (xs : List A) → All P xs → All P (drop k xs)
  drop-All zero xs h = h
  drop-All (suc k) [] h = tt
  drop-All (suc k) (x ∷ xs) (p, h) = drop-All k xs h

IsAddress-at : (a c : IpAddress) → a ≡ c → IsAddress a → IsAddress c
IsAddress-at a c e h = rw⁻¹ e h

from_bytes-IsAddress :
    (b : List ℕ) (a : IpAddress) → All IsByte b → from_bytes b ≡ some a → IsAddress a
unfolding from_bytes
from_bytes-IsAddress b a all h = elim (Bool-cases (length b == 4)) [
  | inl e ↦
      IsAddress-at (v4 b) a (some-injective _ _ (rw (e, from_bytes) at h))
        ((==_iff (length b) 4).0 e, all)
  | inr e ↦ elim (Bool-cases (length b == 16)) [
    | inl f ↦
        IsAddress-at (v6 b) a (some-injective _ _ (rw (e, f, from_bytes) at h))
          ((==_iff (length b) 16).0 f, all)
    | inr f ↦ cc (rw (e, f, from_bytes) at h)
  ]
]

-- The address and the netmask that the octets are split into at `k`.
abbrev Halves : List ℕ → ℕ → IpConstraint → Type 0
Halves b k c =
    (base : IpAddress) × (netmask : IpAddress) × (p : ℕ) × (from_bytes (take k b) ≡ some base)
    × (from_bytes (drop k b) ≡ some netmask)
    × (as_prefix netmask ≡ some p)
    × (record { address = mask base p; prefix = p } ≡ c)

split_at-Halves : (b : List ℕ) (k : ℕ) (c : IpConstraint) → split_at b k ≡ some c → Halves b k c
unfolding split_at
split_at-Halves b k c h = elim (Option-cases (from_bytes (drop k b))) [
  | inl e ↦ cc (rw (e, split_at) at h)
  | inr r ↦ elim (Option-cases (as_prefix r.0)) [
    | inl e ↦ cc (rw (r.1, e, split_at) at h)
    | inr q ↦ elim (Option-cases (from_bytes (take k b))) [
      | inl e ↦ cc (rw (r.1, q.1, e, split_at) at h)
      | inr s ↦
          (s.0, r.0, q.0, s.1, r.1, q.1, some-injective _ _ (rw (r.1, q.1, s.1, split_at) at h))
    ]
  ]
]

half :
    (b : List ℕ) (k : ℕ) (c : IpConstraint)
    → length b / 2 ≡ k
    → split_at b k ≡ some c
    → split_at b (length b / 2) ≡ some c
half b k c e h = rw e h

matches_made :
    (c : IpConstraint) (base addr : IpAddress) (p : ℕ)
    → record { address = mask base p; prefix = p } ≡ c
    → IsAddress base
    → IsAddress addr
    → (constraint_matches c addr ≡ true)
      ↔ (SameFamily base addr × (network base p ≡ network addr p))
matches_made c base addr p e is_base is_addr = rw⁻¹ e (matches_iff base addr p is_base is_addr)

constraint_from_bytes-Halves :
    (b : List ℕ) (c : IpConstraint) → constraint_from_bytes b ≡ some c → Halves b (length b / 2) c
unfolding constraint_from_bytes
constraint_from_bytes-Halves b c h = elim (Bool-cases (length b == 8)) [
  | inl e ↦
      split_at-Halves b (length b / 2) c
        (half b 4 c (omega (arith, (==_iff (length b) 8).0 e)) (rw (e, constraint_from_bytes) at h))
  | inr e ↦ elim (Bool-cases (length b == 32)) [
    | inl f ↦ split_at-Halves b (length b / 2) c (
        half b 16 c (omega (arith, (==_iff (length b) 32).0 f))
          (rw (e, f, constraint_from_bytes) at h))
    | inr f ↦ cc (rw (e, f, constraint_from_bytes) at h)
  ]
]

-- A constraint made from octets is one address and a netmask of the same length, whose bits are ones
-- and then zeros, and it matches an address if and only if that is of the family of the first one and
-- agrees with it on the bits that the netmask has set.
pub constraint_from_bytes-matches :
    (b : List ℕ) (c : IpConstraint) (addr : IpAddress)
    → All IsByte b
    → IsAddress addr
    → constraint_from_bytes b ≡ some c
    → (base : IpAddress) × (netmask : IpAddress) × (p : ℕ) × (from_bytes (take (length b / 2) b)
        ≡ some base)
      × (from_bytes (drop (length b / 2) b) ≡ some netmask)
      × (value netmask + 2 ^ (width netmask - p) ≡ 2 ^ width netmask)
      × ((constraint_matches c addr ≡ true)
          ↔ (SameFamily base addr × (network base p ≡ network addr p)))
constraint_from_bytes-matches b c addr all is_addr h =
    let (base, netmask, p, left, right, ones, made) = constraint_from_bytes-Halves b c h in
    (
      base,
      netmask,
      p,
      left,
      right,
      (as_prefix_sound netmask p
          (from_bytes-IsAddress (drop (length b / 2) b) netmask
            (drop-All IsByte (length b / 2) b all) right)
          ones).1,
      matches_made c base addr p made
          (from_bytes-IsAddress (take (length b / 2) b) base (take-All IsByte (length b / 2) b all)
            left)
          is_addr,
    )
