-- ===== src/Models/Hash.antt =====
-- What the drift hash of crates/fw-core/src/models.rs distinguishes.
use linux_host_firewall_mana.Prelude.{◌≡◌, refl, ap, String, none, some, List, [], ◌∷◌, ◌++◌}
use linux_host_firewall_mana.Crates.{Crates}
use linux_host_firewall_mana.Models.{RuleHashParts, part_bytes, hash_input, compute_rules_hash}

module _ (c : Crates) where
  -- Moving the only CIDR of a rule from its source to its destination leaves the hash of every
  -- ruleset that holds the rule unchanged, whatever rules stand around it.
  pub compute_rules_hash_swap :
      (before after : List RuleHashParts) (r : RuleHashParts) (cidr : String)
      → compute_rules_hash c (before ++ record r { src_cidr = some cidr; dst_cidr = none } ∷ after)
        ≡ compute_rules_hash c
            (before ++ record r { src_cidr = none; dst_cidr = some cidr } ∷ after)
  unfolding compute_rules_hash part_bytes
  compute_rules_hash_swap before after r cidr = ap c.sha256_hex (go before)
    where
      go :
          (before : List RuleHashParts)
          → hash_input c (before ++ record r { src_cidr = some cidr; dst_cidr = none } ∷ after)
            ≡ hash_input c (before ++ record r { src_cidr = none; dst_cidr = some cidr } ∷ after)
      go [] = refl
      go (x ∷ xs) = ap (λ t. part_bytes c x ++ t) (go xs)
