-- ===== src/Resolution/Listing/Completed.antt =====
-- A client reads what the completion of its request saved.
use wildman_service.Base.{ℕ, String, Bool, List, Faults, int_eq, string_eq, nat_eq, list_eq}
use wildman_service.Catalog.{Candidate}
use wildman_service.Resolution.Service.Saved.{ranking}
use wildman_service.Resolution.Service.Completion.{completed}
use wildman_service.Database.{Database}

module _ {Num : Type 0} (faults : Faults) (lt : Num → Num → Bool) (new_id : ℕ → String)
    (client_id request_id : String) (cs : List (Candidate Num)) (now : ℕ) (db : Database Num) where
  abbrev after : Database Num
  after = (completed faults lt new_id client_id request_id cs now db).1

  abbrev pub ranked : List (Candidate Num)
  ranked = ranking faults lt new_id client_id request_id cs now db
