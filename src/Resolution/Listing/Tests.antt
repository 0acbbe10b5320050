-- ===== src/Resolution/Listing/Tests.antt =====
-- A client reads the candidates of its completed request.
use wildman_service.Base.{int_eq, string_eq, nat_eq, list_eq}
