-- ===== src/Users/Rbac.antt =====
-- Roles and what they may do (rbac.py). A text that names no role is `none`.
use adam_abundance.Base.{String, Bool, true, false, Option, none, some, List, any, str_eq}

pub data Role : Type 0 where
  global_admin portfolio_admin brand_user viewer : Role

abbrev pub is_valid_role : Option Role → Bool
is_valid_role none = false
is_valid_role (some r) = true

unfoldable pub can_manage_users : Role → Bool
can_manage_users Role.global_admin = true
can_manage_users _ = false

abbrev pub is_listed : Option (List String) → String → Bool
is_listed none brand = false
is_listed (some brands) brand = any (λ b. str_eq b brand) brands

unfoldable pub can_approve : Role → Option (List String) → String → Bool
can_approve Role.global_admin brands target = true
can_approve Role.portfolio_admin brands target = true
can_approve Role.brand_user brands target = is_listed brands target
can_approve Role.viewer brands target = false

unfoldable pub can_dispatch : Role → Option (List String) → String → Bool
unfolding can_approve
can_dispatch role brands target = can_approve role brands target
