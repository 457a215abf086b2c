-- ===== src/Process.antt =====
-- What the manager process keeps in its memory: the tables of internal/common/nbd/server.go and
-- client.go, and the pool of workers of internal/manager/common/workers/workers.go.
use kubesan.Prelude.{ℕ, String, List, [], Bool, false}

-- `blockdevs`, with `Shutdown`, and `closed` once `shutdownChannel` is closed
pub record Blockdevs : Type 0 where
  pub names : List (String × String)
  pub count : ℕ
  pub shutdown : Bool
  pub closed : Bool

-- A worker's channel and context are the environment's: here it is only there or not.
pub data Worker : Type 0 where
  worker : Worker

pub record Process : Type 0 where
  -- `clients.m`: the device of each URI
  pub clients : List (String × String)
  pub blockdevs : Blockdevs
  pub workers : List (String × Worker)

abbrev pub no_blockdevs : Blockdevs
no_blockdevs = record { names = []; count = 0; shutdown = false; closed = false }

abbrev pub started : Process
started = record { clients = []; blockdevs = no_blockdevs; workers = [] }
