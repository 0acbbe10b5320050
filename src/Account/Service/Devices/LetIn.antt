-- ===== src/Account/Service/Devices/LetIn.antt =====
-- From the start of a device authorization to the token that lets the device in:
-- internal/app/account/service.go, internal/app/client/service.go.
use wildman_service.Base.{int_eq, string_eq, nat_eq, list_eq}
use wildman_service.Auth
use wildman_service.Client
use wildman_service.Client.Service as Service
use wildman_service.Database.{Database}
