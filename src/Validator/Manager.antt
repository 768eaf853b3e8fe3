-- ===== src/Validator/Manager.antt =====
-- `ProxyValidator::validate_with_health` of src/validator/mod.rs: the checks of the configuration, the
-- groups, and the jobs of the members.
pub mod Firsts
pub mod Slots
pub mod Spec
mod Tests
use flx.Base.{
  none, any, nat_eq, false, [], some, ◌+◌, ◌++◌, contains, true, ◌∷◌, map, ◌&&◌, ℕ, Bool,
  if◌then◌else◌, Option, List,
}
use flx.Proxy.Protocol.{Protocol_eq, Protocol}

pub record Config : Type 0 where
  pub types : List Protocol
  pub groups : List (List Protocol)
  pub concurrency_limit : ℕ
  pub request_timeout : ℕ
  pub max_attempts : ℕ

pub data ConfigError : Type 0 where
  no_types empty_group no_concurrency no_timeout no_attempts : ConfigError

abbrev pub is_empty {ℓ} : {A : Type ℓ} → List A → Bool
is_empty [] = true
is_empty (x ∷ xs) = false

-- The first check that fails.
unfoldable pub check : Config → Option ConfigError
check config =
    if is_empty config.types && is_empty config.groups
    then some no_types
    else if any is_empty config.groups
    then some empty_group
    else if nat_eq config.concurrency_limit 0
    then some no_concurrency
    else if nat_eq config.request_timeout 0
    then some no_timeout
    else if nat_eq config.max_attempts 0
    then some no_attempts
    else none

-- `retain` of what has not been seen.
unfoldable pub retain_new : List Protocol → List Protocol → List Protocol
retain_new seen [] = []
retain_new seen (p ∷ group) =
    let rest = retain_new (if contains seen p then seen else seen ++ p ∷ []) group in
    if contains seen p then rest else p ∷ rest

unfoldable pub dedup_groups : List (List Protocol) → List (List Protocol)
unfolding retain_new
dedup_groups groups = map (retain_new []) groups

-- The group, the place in it, and the protocol.
abbrev pub Slot : Type 0
Slot = ℕ × ℕ × Protocol

unfoldable pub slots_from : ℕ → ℕ → List Protocol → List Slot
slots_from group_idx slot [] = []
slots_from group_idx slot (p ∷ protocols) =
    (group_idx, slot, p) ∷ slots_from group_idx (slot + 1) protocols

unfoldable pub spec_from : ℕ → List (List Protocol) → List Slot
unfolding slots_from
spec_from group_idx [] = []
spec_from group_idx (protocols ∷ groups) =
    slots_from group_idx 0 protocols ++ spec_from (group_idx + 1) groups

unfoldable pub group_spec : List (List Protocol) → List Slot
unfolding spec_from
group_spec groups = spec_from 0 groups

-- What the jobs of the members add to the total: one for a member in the first place.
unfoldable pub total_of : List Slot → ℕ
total_of [] = 0
total_of ((group_idx, slot, p) ∷ spec) = (if nat_eq slot 0 then 1 else 0) + total_of spec
