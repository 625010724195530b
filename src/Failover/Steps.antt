-- ===== src/Failover/Steps.antt =====
-- The interleavings of the orchestrator's methods and of its background threads.
use ganglion_oob.Prelude.{String, Bool, List, [], ◌∷◌, ◌++◌, ◌≡◌}
use ganglion_oob.Failover.Types.{Cure, Orchestrator, Answers, start_cure}
use ganglion_oob.Failover.Compromise.{register_service, handle_compromise}
use ganglion_oob.Failover.Cure.{cure_begin, cure_finish, reset_service}

-- The initial orchestrator.
abbrev pub start : Orchestrator
start = record { services = []; vm_to_service = []; waiting = []; checking = [] }

-- What can happen next: a call of a method, or a waiting or checking thread that gets the lock. Any
-- thread may be the next one, and the backend answers as it likes.
pub data Step (o : Orchestrator) : Orchestrator → Type 0 where
  registers :
      (service vip vm : String) (standbys : List String)
      → Step o (register_service service vip vm standbys o)
  compromised : (vm : String) (a : Answers) → Step o (handle_compromise vm a o).0
  begins :
      (before : List Cure) (c : Cure) (after : List Cure)
      → o.waiting ≡ before ++ c ∷ after
      → Step o (
          let (o', checks) = cure_begin c o in
          record o' {
            waiting = before ++ after;
            checking = start_cure checks c.service c.vm_id o'.checking;
          })
  finishes :
      (before : List Cure) (c : Cure) (after : List Cure) (ok : Bool)
      → o.checking ≡ before ++ c ∷ after
      → Step o (record (cure_finish c ok o) { checking = before ++ after })
  resets : (service : String) → Step o (reset_service service o)

pub data Reach (o : Orchestrator) : Orchestrator → Type 0 where
  here : Reach o o
  next : {p q : Orchestrator} → Reach o p → Step p q → Reach o q
