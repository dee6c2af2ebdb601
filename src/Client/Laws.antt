-- ===== src/Client/Laws.antt =====
-- What the theorems ask of the client, in one record for each matter.
use daemonjob.Prelude.{String, true, false, ◌≡◌}
use daemonjob.Result.{ok}
use daemonjob.Kube.{Job}
use daemonjob.Client
use daemonjob.Client.{Client}

-- Reads and dry runs leave the cluster as it is: nobody else acts meanwhile, and the API server
-- does not persist a request with DryRunAll.
pub record IsQuiet {X W E : Type 0} (c : Client X W E) : Type 0 where
  pub get_keeps :
      (k : Client.Kind) (namespace name : String) (w : W) → (c.get k namespace name w).1 ≡ w
  pub list_keeps :
      (k : Client.Kind) (o : Client.Selectors.ListOptions) (w : W) → (c.list k o w).1 ≡ w
  pub dry_run_keeps :
      (k : Client.Kind) (o : Client.Object X k) (w : W) → (c.create true k o w).1 ≡ w

-- What it means for a Job to be there: a creation that succeeds puts it there, and no creation
-- takes it away.
pub record IsStored {X W E : Type 0} (c : Client X W E) (Stored : W → Job X → Type 0) : Type 0 where
  pub stored : (j : Job X) (w w' : W) → c.create false Client.job j w ≡ (ok tt, w') → Stored w' j
  pub stays : (i j : Job X) (w : W) → Stored w i → Stored (c.create false Client.job j w).1 i

-- What it means for an object to be gone: a deletion that succeeds removes it, and neither another
-- deletion nor an update of a DaemonJob brings it back.
pub record IsRemoved {X W E : Type 0} (c : Client X W E) (k : Client.Kind)
    (Gone : W → Client.Object X k → Type 0) : Type 0 where
  pub gone : (o : Client.Object X k) (w w' : W) → c.delete k o w ≡ (ok tt, w') → Gone w' o
  pub delete_keeps : (i o : Client.Object X k) (w : W) → Gone w i → Gone (c.delete k o w).1 i
  pub update_keeps :
      (i : Client.Object X k) (d : Client.Object X Client.daemon_job) (w : W)
      → Gone w i
      → Gone (c.update Client.daemon_job d w).1 i
