-- ===== src/Operations/Tests.antt =====
-- A purge of a database with a request that was finished long ago.
use wildman_service.Base.{ℕ, some, [], ◌∷◌, int_eq, string_eq, nat_eq, list_eq}
use wildman_service.Catalog.{ResolutionRequest, matched}
use wildman_service.Resolution.Tests.{db, request}
use wildman_service.Database.{Database}

abbrev old_request : ResolutionRequest
old_request = record request { status = matched; finished_at = some 10 }

abbrev crowded : Database ℕ
crowded = record db { requests = old_request ∷ request ∷ [] }
