-- ===== src/EndToEnd.antt =====
-- A restore of the PITR command line against its agents: the two parts together.
use shardingsphere_on_cloud.Prelude.{
  String, ◌<>◌, ◌≡◌, inl, inr, refl, sym, ap, ◌∙◌, subst, Bool, true, false, some, List, [], ◌∷◌,
  All, All-mono,
}
use mathlib.Core.List.{Memᴰ}
use shardingsphere_on_cloud.Go.{Result, ok, err, external}
use shardingsphere_on_cloud.Effects.{Request, Response, pitr}
use shardingsphere_on_cloud.Effects.Avoids.{occurs}
use shardingsphere_on_cloud.Effects.Run.{Env, History, Outcome, returned, panicked, run}
use shardingsphere_on_cloud.Effects.Succeeds.{Answered}
use shardingsphere_on_cloud.Pitr.Kinds.{executes_statement}
use shardingsphere_on_cloud.Pitr.Model.{StorageNode, DataNode, LsBackup, RestoreIn, Reply}
use shardingsphere_on_cloud.Pitr.Requests.{send, restore_in}
use shardingsphere_on_cloud.Pitr.Runtime.{Runtime, Flags}
use shardingsphere_on_cloud.Pitr.Agent.{is_zero}
use shardingsphere_on_cloud.Pitr.Commands.Common.{agent_address, find_data_node}
use shardingsphere_on_cloud.Pitr.Commands.Restore.{restore_approved, restore_in_of}
use shardingsphere_on_cloud.Pitr.Commands.Restore.Complete.{Restores, restore_approved-Answered}
use shardingsphere_on_cloud.PitrAgent.Host.{Host}
use shardingsphere_on_cloud.PitrAgent.Handlers.{reply_of, restore}
use shardingsphere_on_cloud.PitrAgent.Handlers.Recovery.{Machine, Contents, IsMachine}
use shardingsphere_on_cloud.PitrAgent.Handlers.Recovery.Kept.{Ends, restored, running_with}
use shardingsphere_on_cloud.PitrAgent.Handlers.Recovery.Outcome.{restore-Ends}

-- An agent server that serves a restore, on a host where openGauss runs on some data.
pub record Agent : Type 0 where
  pub server : Host
  pub env : Env
  pub state : History → Machine
  pub contents : Contents
  pub is_machine : (i : RestoreIn) → IsMachine env server state i
  pub is_running : state [] ≡ running_with contents

abbrev pub restore_run : Agent → RestoreIn → Outcome (Unit {0}) × History
restore_run a i = run a.env (restore a.server (ok i))

-- The answer of an agent server to what its handler ended with; one that blocks gives none.
abbrev pub replied : Host → Outcome (Unit {0}) → Result (Reply (Unit {0}))
replied h (returned r) =
    ok (record { code = (reply_of h r).code; msg = (reply_of h r).msg; payload = tt })
replied h (panicked s) = err (external "timeout")

abbrev is_success : Result (Reply (Unit {0})) → Bool
is_success (ok reply) = is_zero reply.code
is_success (err e) = false

success_returned :
    (h : Host) (o : Outcome (Unit {0})) → is_success (replied h o) ≡ true → o ≡ returned (ok tt)
success_returned h (returned (ok a)) s = refl
success_returned h (returned (err e)) s = cc
success_returned h (panicked m) s = cc

-- A restore that an agent reports as a success has put the data of the backup in place.
reported-restored :
    (a : Agent) (i : RestoreIn)
    → is_success (replied a.server (restore_run a i).0) ≡ true
    → a.state (restore_run a i).1 ≡ restored
reported-restored a i s =
    subst (λ o. Ends a.env a.server a.state a.contents o (restore_run a i).1)
      (success_returned a.server (restore_run a i).0 s)
      (restore-Ends a.env a.server a.state i a.contents (a.is_machine i) a.is_running)

module _ (rt : Runtime) (flags : Flags) (agents : History → String → Agent) where
  -- At some time the agent of the node restored the backup, and its host has the data of it.
  abbrev pub IsRestored : StorageNode → DataNode → Type 0
  IsRestored sn dn =
      (g : History) × ((agents g (agent_address flags sn)).state
          (restore_run (agents g (agent_address flags sn)) (restore_in_of rt flags sn dn)).1
        ≡ restored)

module _ (rt : Runtime) (flags : Flags) (env : Env) (agents : History → String → Agent)
    (serves : (g : History) (method addr : String) (i : RestoreIn)
      → env g (pitr (send method (addr <> "/api/restore") (restore_in i)))
        ≡ replied (agents g addr).server (restore_run (agents g addr) i).0) where
  answered-IsRestored :
      (sn : StorageNode) (dn : DataNode) (g : History) (q : Request) (r : Result (Response q))
      → env g q ≡ r
      → Restores rt flags (sn, dn) q r
      → IsRestored rt flags agents sn dn
  answered-IsRestored sn dn g (pitr (send method url (restore_in i))) (ok reply) e (u, same, z) =
      let a = agents g (agent_address flags sn) in
      let answer : replied a.server (restore_run a i).0 ≡ ok reply =
        sym (serves g method (agent_address flags sn) i)
        ∙ (ap (λ v. env g (pitr (send method v (restore_in i)))) (sym u) ∙ e) in
      (
        g,
        subst (λ j. a.state (restore_run a j).1 ≡ restored) same
            (reported-restored a i (ap is_success answer ∙ z)),
      )
  answered-IsRestored sn dn g q r e t = absurd t

  Answered-IsRestored :
      (sn : StorageNode) (dn : DataNode) (h : History)
      → Answered env (Restores rt flags (sn, dn)) h
      → IsRestored rt flags agents sn dn
  Answered-IsRestored sn dn [] t = absurd t
  Answered-IsRestored sn dn (q ∷ h) (inl t) = answered-IsRestored sn dn h q (env h q) refl t
  Answered-IsRestored sn dn (q ∷ h) (inr t) = Answered-IsRestored sn dn h t

-- If each restore that the command line asks of an agent server is answered by the handler of the
-- agent there, run on a host where openGauss runs, and the goroutine of every storage node reports:
-- a run of `restore_approved` that executes a statement in the proxy, be it to drop a database or to
-- import the metadata, has found a data node for each storage node of the record, and the handler of
-- its agent has left the host with openGauss running on the data of the backup.
pub restore_approved-IsRestored :
    (rt : Runtime) (flags : Flags) (env : Env) (agents : History → String → Agent)
    (names : List String) (b : LsBackup)
    → ((g : History) (method addr : String) (i : RestoreIn)
        → env g (pitr (send method (addr <> "/api/restore") (restore_in i)))
          ≡ replied (agents g addr).server (restore_run (agents g addr) i).0)
    → ((sn : StorageNode)
        → Memᴰ sn b.ss_backup.storage_nodes
        → Memᴰ sn (rt.finish b.ss_backup.storage_nodes))
    → occurs executes_statement (run env (restore_approved rt flags names b)).1 ≡ true
    → All
        (λ sn.
          (dn : DataNode) × (find_data_node sn.ip b.dn_list ≡ some dn)
          × IsRestored rt flags agents sn dn)
        b.ss_backup.storage_nodes
restore_approved-IsRestored rt flags env agents names b serves ends o =
    All-mono
      (λ sn.
        (dn : DataNode) × (find_data_node sn.ip b.dn_list ≡ some dn)
        × Answered env (Restores rt flags (sn, dn)) (run env (restore_approved rt flags names b)).1)
      (λ sn.
        (dn : DataNode) × (find_data_node sn.ip b.dn_list ≡ some dn)
        × IsRestored rt flags agents sn dn)
      (λ sn (dn, found, t). (dn, found, Answered-IsRestored rt flags env agents serves sn dn _ t))
      b.ss_backup.storage_nodes (restore_approved-Answered rt flags env names b ends o)
