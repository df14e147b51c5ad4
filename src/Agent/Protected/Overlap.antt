-- ===== src/Agent/Protected/Overlap.antt =====
-- The overlap test of crates/fw-agent/src/protected_cidrs.rs and the addresses of two networks.
use mathlib.Core.Path.{subst}
use native.Mathlib.Nat.{div-div-eq-div-mul, pow-suc}
use linux_host_firewall_mana.Prelude.{
  ℕ, zero, suc, ◌+◌, ◌-◌, ◌/◌, ◌^◌, ◌≤◌, ◌≡◌, refl, sym, ap, ◌∙◌, ◌↔◌, ◌⊎◌, inl, inr, true, arith,
  Bool-cases,
}
use linux_host_firewall_mana.Crates.{Crates, IpAddr, is_ipv4, value, NetLaws}
use linux_host_firewall_mana.Agent.Protected.{nets_overlap}

half_again : (x n : ℕ) → x / 2 ^ suc n ≡ x / 2 ^ n / 2
half_again x n = rw pow-suc (sym (div-div-eq-div-mul x (2 ^ n) 2))

-- Numbers that agree above `n` bits agree above more bits.
agree_above : (k n x y : ℕ) → x / 2 ^ n ≡ y / 2 ^ n → x / 2 ^ (n + k) ≡ y / 2 ^ (n + k)
agree_above zero n x y h = let e : n + 0 ≡ n = omega arith in rw e h
agree_above (suc k) n x y h =
    let e : n + suc k ≡ suc (n + k) = omega arith in
    rw e (
      half_again x (n + k) ∙ (ap (λ t. t / 2) (agree_above k n x y h) ∙ sym (half_again y (n + k))))

agree_le : (m n x y : ℕ) → m ≤ n → x / 2 ^ m ≡ y / 2 ^ m → x / 2 ^ n ≡ y / 2 ^ n
agree_le m n x y le h =
    let e : m + (n - m) ≡ n = omega arith in
    subst (λ t. x / 2 ^ t ≡ y / 2 ^ t) e (agree_above (n - m) m x y h)

le_total : (a b : ℕ) → (a ≤ b) ⊎ (b ≤ a)
le_total a b = grind arith

module _ (c : Crates) (laws : NetLaws c) where
  -- The addresses that two networks share.
  abbrev pub Meet : c.IpNet → c.IpNet → Type 0
  Meet a b = (ip : IpAddr) × (c.contains_ip a ip ≡ true) × (c.contains_ip b ip ≡ true)

  own_address : (n : c.IpNet) → c.contains_ip n (c.network n) ≡ true
  own_address n = (laws.contains_iff n (c.network n)).1 (refl, refl)

  -- The network with fewer host bits lies in the other.
  inside :
      (a b : c.IpNet) (ip : IpAddr)
      → laws.host_bits a ≤ laws.host_bits b
      → c.contains_ip a ip ≡ true
      → c.contains_ip b ip ≡ true
      → c.contains_ip b (c.network a) ≡ true
  inside a b ip le ha hb =
      let (fa, va) = (laws.contains_iff a ip).0 ha in
      let (fb, vb) = (laws.contains_iff b ip).0 hb in
      (laws.contains_iff b (c.network a)).1
        (sym fa ∙ fb, sym (agree_le _ _ (value ip) (value (c.network a)) le va) ∙ vb)

  same_family-Meet : (a b : c.IpNet) → Meet a b → is_ipv4 (c.network a) ≡ is_ipv4 (c.network b)
  same_family-Meet a b (ip, ha, hb) =
      sym ((laws.contains_iff a ip).0 ha).0 ∙ ((laws.contains_iff b ip).0 hb).0

  -- The test of the agent is exact.
  pub nets_overlap_iff : (a b : c.IpNet) → (nets_overlap c a b ≡ true) ↔ Meet a b
  unfolding nets_overlap
  nets_overlap_iff a b = (
    λ h. elim (Bool-cases (c.contains_ip a (c.network b))) [
      | inl yes_a ↦ (c.network b, yes_a, own_address b)
      | inr no_a ↦ (c.network a, own_address a, ground arith)
    ],
    λ m. elim (le_total (laws.host_bits a) (laws.host_bits b)) [
      | inl le ↦ ground (arith, same_family-Meet a b m, inside a b m.0 le m.1 m.2)
      | inr le ↦ ground (arith, same_family-Meet a b m, inside b a m.0 le m.2 m.1)
    ],
  )
