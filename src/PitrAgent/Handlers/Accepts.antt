-- ===== src/PitrAgent/Handlers/Accepts.antt =====
-- Which requests of the command line the agent takes: `backup_in_of` of Pitr/Commands/Backup against
-- `validate_backup` of PitrAgent/View.
use shardingsphere_on_cloud.Prelude.{
  ℕ, String, ◌≡◌, ◌≢◌, ◌↔◌, ◌⊎◌, inl, inr, refl, ap, Bool, Bool-cases, true, false, not, ◌&&◌, ◌==◌,
  none, List, [], ◌∷◌, eqb, eq_iff, arith, All,
}
use shardingsphere_on_cloud.Go.{Error}
use shardingsphere_on_cloud.Pitr.Model.{StorageNode}
use shardingsphere_on_cloud.Pitr.Runtime.{Runtime, Flags}
use shardingsphere_on_cloud.Pitr.Commands.Nodes.{backup_mode, backup_in_of}
use shardingsphere_on_cloud.PitrAgent.View.{first_failing, backup_checks, validate_backup}

first_failing-none :
    (cs : List (Bool × Error)) → (first_failing cs ≡ none) ↔ All (λ c. c.0 ≡ false) cs
first_failing-none [] = (λ e. tt, λ a. refl)
first_failing-none ((true, e) ∷ cs) = (λ n. cc, λ a. cc (a.0))
first_failing-none ((false, e) ∷ cs) =
    let later = first_failing-none cs in (λ n. (refl, later.0 n), λ a. later.1 a.1)

given : (s : String) → ((s == "") ≡ false) ↔ (s ≢ "")
given s = (
  λ f e. cc (f, (eq_iff s "").1 e),
  λ n. elim (Bool-cases (s == "")) [ inl t ↦ absurd (n ((eq_iff s "").0 t)) | inr f ↦ f ],
)

positive : (n : ℕ) → (eqb n 0 ≡ false) ↔ (n ≢ 0)
positive n = (λ f e. cc (f, ap (λ m. eqb m 0) e), λ e. ground (arith, e))

-- The mode is one of the four that the command line knows.
abbrev pub IsMode : String → Type 0
IsMode m = (m ≡ "FULL") ⊎ ((m ≡ "full") ⊎ ((m ≡ "PTRACK") ⊎ (m ≡ "ptrack")))

abbrev is_invalid : String → Bool
is_invalid mode = not (mode == "FULL") && not (mode == "PTRACK")

IsMode-valid :
    (flags : Flags)
    → IsMode flags.backup_mode_str
    → ((backup_mode flags == "") ≡ false) × (is_invalid (backup_mode flags) ≡ false)
IsMode-valid flags (inl e) = rw e (refl, refl)
IsMode-valid flags (inr (inl e)) = rw e (refl, refl)
IsMode-valid flags (inr (inr (inl e))) = rw e (refl, refl)
IsMode-valid flags (inr (inr (inr e))) = rw e (refl, refl)

valid-IsMode : (flags : Flags) → (backup_mode flags == "") ≡ false → IsMode flags.backup_mode_str
valid-IsMode flags f =
    let m = flags.backup_mode_str in
    elim (Bool-cases (m == "FULL")) [
      | inl a ↦ inl ((eq_iff m "FULL").0 a)
      | inr a ↦ elim (Bool-cases (m == "full")) [
        | inl b ↦ inr (inl ((eq_iff m "full").0 b))
        | inr b ↦ elim (Bool-cases (m == "PTRACK")) [
          | inl c ↦ inr (inr (inl ((eq_iff m "PTRACK").0 c)))
          | inr c ↦ elim (Bool-cases (m == "ptrack")) [
            | inl d ↦ inr (inr (inr ((eq_iff m "ptrack").0 d)))
            | inr d ↦ absurd (no_mode a b c d f)
          ]
        ]
      ]
    ]
  where
    no_mode :
        (flags.backup_mode_str == "FULL") ≡ false
        → (flags.backup_mode_str == "full") ≡ false
        → (flags.backup_mode_str == "PTRACK") ≡ false
        → (flags.backup_mode_str == "ptrack") ≡ false
        → (backup_mode flags == "") ≡ false
        → ⊥
    no_mode a b c d f = let z = rw (a, b, c, d) at f in cc z

-- The agent takes the request to back a storage node up that the command line sends exactly if the
-- port of the node and the number of threads are not 0, its database, its user name and its password
-- and the path of the backups are not empty, and the mode is "FULL", "full", "PTRACK" or "ptrack".
pub backup_accepted_iff :
    (rt : Runtime) (flags : Flags) (sn : StorageNode)
    → (validate_backup (backup_in_of rt flags sn) ≡ none) ↔ (
        (sn.port ≢ 0)
        × (sn.database ≢ "")
        × (sn.username ≢ "")
        × (sn.password ≢ "")
        × (flags.backup_path ≢ "")
        × (flags.threads_num ≢ 0)
        × IsMode flags.backup_mode_str)
unfolding validate_backup
backup_accepted_iff rt flags sn =
    let checks = first_failing-none (backup_checks (backup_in_of rt flags sn)) in
    (
      λ n.
          let (port, (database, (username, (password, (path, (threads, (mode, rest))))))) =
            checks.0 n in
          (
            (positive sn.port).0 port,
            (given sn.database).0 database,
            (given sn.username).0 username,
            (given sn.password).0 password,
            (given flags.backup_path).0 path,
            (positive flags.threads_num).0 threads,
            valid-IsMode flags mode,
          ),
      λ (port, database, username, password, path, threads, mode).
          let (m, known) = IsMode-valid flags mode in
          checks.1 (
            (positive sn.port).1 port,
            (
              (given sn.database).1 database,
              (
                (given sn.username).1 username,
                (
                  (given sn.password).1 password,
                  (
                    (given flags.backup_path).1 path,
                    ((positive flags.threads_num).1 threads, (m, (known, (refl, tt)))),
                  ),
                ),
              ),
            ),
          ),
    )
