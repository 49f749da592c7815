-- ===== src/Grpc.antt =====
-- The status codes of google.golang.org/grpc/codes that the services use. The text of a status is
-- not modelled.
pub data Code : Type 0 where
  invalid_argument not_found failed_precondition permission_denied unauthenticated internal : Code
