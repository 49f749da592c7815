-- ===== src/Domerr.antt =====
-- The sentinel errors of the identity service (internal/pkg/domerr/errors.go). `other` is any error
-- that wraps none of them: a statement that fails, or a constraint that refuses a row.
use hss_science.Base.{Bool, true, false}

pub data Error : Type 0 where
  not_found already_exists unauthorized internal_error failed_precondition other : Error

-- `errors.Is(err, domerr.ErrNotFound)`
abbrev pub is_not_found : Error → Bool
is_not_found not_found = true
is_not_found _ = false

-- `errors.Is(err, domerr.ErrUnauthorized)`
abbrev pub is_unauthorized : Error → Bool
is_unauthorized unauthorized = true
is_unauthorized _ = false
